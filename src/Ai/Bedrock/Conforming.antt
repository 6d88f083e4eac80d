-- ===== src/Ai/Bedrock/Conforming.antt =====
-- Answers that keep to their schema come through as they are.
use mathlib.Core.List.{Memᴰ}
use maroon_ledger.Base.{
  ℕ, ◌≤◌, ◌≡◌, refl, false, not, ◌&&◌, Option, some, List, [], ◌∷◌, arith, if◌then◌else◌, length,
}
use maroon_ledger.Base.Int.{pos}
use maroon_ledger.Go.Bytes.{Bytes, bytes, bytes_eq, is_empty}
use maroon_ledger.Go.Float.{Float64}
use maroon_ledger.Ai.Category.{category_names, valid_category}
use maroon_ledger.Ai.Category.Allowlist.{is_category_iff_listed, valid_category_closed}
use maroon_ledger.Ai.Severity.{
  valid_severity, severity_none, severity_low, severity_medium, severity_high,
}
use maroon_ledger.Ai.Types.{Reply, TransactionInput, HistoricalStat, truncate}
use maroon_ledger.Ai.Prompts.{categorize_prompt, anomaly_prompt}
use maroon_ledger.Ai.Bedrock.{
  Bedrock, MessageParams, Response, RawCategorization, RawAssessment, Task, categorize_task,
  anomaly_task, response_text, complete, clamp01, categorize, detect_anomaly,
}
use maroon_ledger.Ai.Bedrock.Schemas.{
  Field, string_field, strings_field, boolean_field, enum_field, number_field, schema_of,
  category_enum, categorization_schema, anomaly_schema,
}

-- The strings that a schema lists for a property, none where it lists none.
abbrev enum_of : Field → List Bytes
enum_of (enum_field ss) = ss
enum_of string_field = []
enum_of strings_field = []
enum_of boolean_field = []
enum_of (number_field a b) = []

unfoldable pub listed : Bytes → List (Bytes × Field) → List Bytes
listed key [] = []
listed key ((k, f) ∷ rest) = if bytes_eq k key then enum_of f else listed key rest

-- The string is one that the schema of the task lists for the property.
abbrev pub Conforms : Task → Bytes → Bytes → Type 0
Conforms task key s = Memᴰ s (listed key (schema_of task).properties)

category-Conforms :
    (s : Bytes) → Conforms categorize_task (bytes "category") s → valid_category s ≡ s
unfolding schema_of categorization_schema category_enum listed category_names bytes bytes_eq
category-Conforms s m = (valid_category_closed s).1 ((is_category_iff_listed s).1 ∣ m ∣₁)

severity_fixed :
    (valid_severity severity_none ≡ severity_none)
    × (valid_severity severity_low ≡ severity_low)
    × (valid_severity severity_medium ≡ severity_medium)
    × (valid_severity severity_high ≡ severity_high)
unfolding valid_severity bytes bytes_eq
severity_fixed = (refl, refl, refl, refl)

-- What holds of each of four strings holds of every string listed.
one_of_four :
    (P : Bytes → Type 0) (a b c d s : Bytes)
    → P a × P b × P c × P d
    → Memᴰ s (a ∷ b ∷ c ∷ d ∷ [])
    → P s
one_of_four P a b c d s (pa, pb, pc, pd) (Memᴰ.head e) = rw e pa
one_of_four P a b c d s (pa, pb, pc, pd) (Memᴰ.tail (Memᴰ.head e)) = rw e pb
one_of_four P a b c d s (pa, pb, pc, pd) (Memᴰ.tail (Memᴰ.tail (Memᴰ.head e))) = rw e pc
one_of_four P a b c d s (pa, pb, pc, pd) (Memᴰ.tail (Memᴰ.tail (Memᴰ.tail (Memᴰ.head e)))) = rw e pd
one_of_four P a b c d s (pa, pb, pc, pd) (Memᴰ.tail (Memᴰ.tail (Memᴰ.tail (Memᴰ.tail m)))) =
    elim m [ ]

severity-Conforms : (s : Bytes) → Conforms anomaly_task (bytes "severity") s → valid_severity s ≡ s
unfolding schema_of anomaly_schema listed bytes bytes_eq
severity-Conforms s m =
    one_of_four (λ t. valid_severity t ≡ t) severity_none severity_low severity_medium severity_high
      s severity_fixed m

truncate-short : (s : Bytes) (n : ℕ) → length s ≤ n → truncate s n ≡ s
unfolding truncate
truncate-short s n h = ground arith

module _ {F : Type 0} ⦃fl : Float64 F⦄ (b : Bedrock F) where
  -- What the model answers, decoded: no refusal, and text.
  abbrev pub Answers : {A : Type 0} → (Bytes → Option A) → MessageParams → A → Type 0
  Answers decode params raw =
      (resp : Response) × (b.messages params ≡ some resp)
      × (resp.refused ≡ false)
      × (is_empty (response_text resp.content) ≡ false)
      × (decode (response_text resp.content) ≡ some raw)

  complete-Answers :
      {A : Type 0} (decode : Bytes → Option A) (task : Task) (n : ℕ) (user : Bytes) (raw : A)
      → Answers decode (record { model = b.model; task = task; user = user; max_tokens = n }) raw
      → complete b decode task n user ≡ Reply.ok raw
  unfolding complete
  complete-Answers decode task n user raw (resp, sent, taken, texts, read) = ground arith

  clamp01-inside :
      (x : F)
      → fl.lt x (fl.decimal (pos 0) 0) ≡ false
      → fl.lt (fl.decimal (pos 1) 0) x ≡ false
      → clamp01 x ≡ x
  unfolding clamp01
  clamp01-inside x lo hi = rw (lo, hi) refl

  -- An answer to Categorize whose category is one that the schema lists, whose confidence is neither
  -- below 0 nor above 1, and whose rationale has 200 bytes at most is returned as it is. Of an answer
  -- to DetectAnomaly whose severity the schema lists and whose reason has 300 bytes at most, severity
  -- and reason are returned as they are, and so is the flag, but for one case: it is cleared if the
  -- severity is `none`.
  pub conforming_kept :
      (input : TransactionInput F) (baseline : List (HistoricalStat F)) (c : RawCategorization F)
      (a : RawAssessment)
      → Answers b.unmarshal.categorization
          (record {
            model = b.model;
            task = categorize_task;
            user = categorize_prompt input;
            max_tokens = 2048;
          })
          c
      → Conforms categorize_task (bytes "category") c.category
      → fl.lt c.confidence (fl.decimal (pos 0) 0) ≡ false
      → fl.lt (fl.decimal (pos 1) 0) c.confidence ≡ false
      → length c.rationale ≤ 200
      → Answers b.unmarshal.assessment
          (record {
            model = b.model;
            task = anomaly_task;
            user = anomaly_prompt input baseline;
            max_tokens = 2048;
          })
          a
      → Conforms anomaly_task (bytes "severity") a.severity
      → length a.reason ≤ 300
      → (categorize b input
          ≡ Reply.ok (record {
            category = c.category;
            confidence = c.confidence;
            rationale = c.rationale;
          }))
        × (detect_anomaly b input baseline
            ≡ Reply.ok (record {
              anomalous = a.anomalous && not (bytes_eq a.severity severity_none);
              severity = a.severity;
              reason = a.reason;
            }))
  unfolding categorize detect_anomaly
  conforming_kept input baseline c a cat listed_cat lo hi short_c an listed_sev short_a = (
    rw
        (
          complete-Answers b.unmarshal.categorization categorize_task 2048 (categorize_prompt input)
              c cat,
          category-Conforms c.category listed_cat,
          clamp01-inside c.confidence lo hi,
          truncate-short c.rationale 200 short_c,
        )
        refl,
    rw
        (
          complete-Answers b.unmarshal.assessment anomaly_task 2048 (anomaly_prompt input baseline)
              a an,
          severity-Conforms a.severity listed_sev,
          truncate-short a.reason 300 short_a,
        )
        refl,
  )
