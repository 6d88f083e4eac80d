-- ===== src/Pipeline/Encode.antt =====
-- encode of app/internal/pipeline/firehose.go: an event as one line of JSON. How a number, a text
-- and a time are written is a parameter, as encoding/json does it.
use maroon_ledger.Base.{
  ℕ, ◌^◌, Option, none, some, List, [], ◌∷◌, ◌++◌, map, ltb, if◌then◌else◌, length,
}
use maroon_ledger.Go.Bytes.{Bytes, bytes, is_empty, concat, join}
use maroon_ledger.Go.Strconv.{itoa_nat}
use maroon_ledger.Pipeline.Event.{Event}

-- `none` is a value that JSON cannot hold: NaN, an infinity, a year past 9999.
pub record Writer (F : Type 0) : Type 0 where
  pub number : F → Option Bytes
  pub text : Bytes → Bytes
  pub time : ℕ → Option Bytes

abbrev pub max_record_bytes : ℕ
max_record_bytes = 2 ^ 20

abbrev optional : {F : Type 0} → Writer F → Bytes → Bytes → List (Bytes × Bytes)
optional wr key value = if is_empty value then [] else (key, wr.text value) ∷ []

-- The members of the object, in the order of the struct, without the empty optional ones.
unfoldable pub members : {F : Type 0} → Event F → Writer F → Bytes → Bytes → List (Bytes × Bytes)
members e wr time number =
    (bytes "id", itoa_nat e.id)
    ∷ (bytes "timestamp", time)
    ∷ (bytes "amount", number)
    ∷ (bytes "category", wr.text e.category)
    ∷ (optional wr (bytes "ai_provider") e.ai_provider
        ++ optional wr (bytes "anomaly_severity") e.anomaly_severity)

abbrev member_text : Bytes × Bytes → Bytes
member_text (k, v) = concat (bytes "\"" ∷ k ∷ bytes "\":" ∷ v ∷ [])

-- json.Marshal
unfoldable pub marshal : {F : Type 0} → Writer F → Event F → Option Bytes
marshal wr e = elim (wr.time e.timestamp) [
  | none ↦ none
  | some time ↦ elim (wr.number e.amount) [
    | none ↦ none
    | some number ↦ some (
        concat (
          bytes "{"
          ∷ join (map member_text (members e wr time number)) (bytes ",")
          ∷ bytes "}"
          ∷ []))
  ]
]

-- One record: the object and a newline, if it is no longer than Firehose takes.
abbrev sized : Bytes → Option Bytes
sized line = if ltb max_record_bytes (length line) then none else some line

-- encode; the size that it returns is the record's length.
unfoldable pub encode : {F : Type 0} → Writer F → Event F → Option Bytes
encode wr e = elim (marshal wr e) [ none ↦ none | some text ↦ sized (text ++ bytes "\n") ]
