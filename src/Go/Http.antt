-- ===== src/Go/Http.antt =====
-- net/http as far as the server writes responses: headers, WriteHeader and http.Error.
use maroon_ledger.Base.{
  ℕ, ◌≡◌, refl, false, Option, none, some, List, [], ◌∷◌, ◌++◌, arith, if◌then◌else◌,
}
use maroon_ledger.Go.Bytes.{Bytes, bytes, bytes_eq, bytes_eq_iff, bytes_eq_refl}

-- The header map, of which each key has one value here; keys are in canonical form.
abbrev pub Headers : Type 0
Headers = List (Bytes × Bytes)

-- Header.Get, `none` where the key is missing.
unfoldable pub header : Bytes → Headers → Option Bytes
header key [] = none
header key ((k, v) ∷ hs) = if bytes_eq k key then some v else header key hs

-- Header.Set
unfoldable pub set_header : Bytes → Bytes → Headers → Headers
set_header key v [] = (key, v) ∷ []
set_header key v ((k, old) ∷ hs) =
    let rest = set_header key v hs in if bytes_eq k key then (key, v) ∷ hs else (k, old) ∷ rest

pub header-set_header : (key v : Bytes) (hs : Headers) → header key (set_header key v hs) ≡ some v
unfolding header set_header
header-set_header key v [] = rw (bytes_eq_refl key) refl
header-set_header key v ((k, old) ∷ hs) =
    ground (arith, header-set_header key v hs, bytes_eq_refl key)

pub header-set_other :
    (key other v : Bytes) (hs : Headers)
    → bytes_eq other key ≡ false
    → header key (set_header other v hs) ≡ header key hs
unfolding header set_header
header-set_other key other v [] h = rw h refl
header-set_other key other v ((k, old) ∷ hs) h =
    ground (arith, header-set_other key other v hs, bytes_eq_iff k other)

-- A ResponseWriter: its headers, the calls of WriteHeader, and what was written as body.
pub record Writer (B : Type 0) : Type 0 where
  pub headers : Headers
  pub codes : List ℕ
  pub body : Option B

abbrev pub fresh_writer : {B : Type 0} → Writer B
fresh_writer = record { headers = []; codes = []; body = none }

module _ {B : Type 0} where
  abbrev pub with_header : Bytes → Bytes → Writer B → Writer B
  with_header key v w = record w { headers = set_header key v w.headers }

  abbrev pub write_header : ℕ → Writer B → Writer B
  write_header status w = record w { codes = w.codes ++ status ∷ [] }

  abbrev pub write_body : B → Writer B → Writer B
  write_body b w = record w { body = some b }

  -- The status that a client sees: that of the first call, or 200.
  abbrev pub sent_status : Writer B → ℕ
  sent_status w = elim w.codes [ [] ↦ 200 | c ∷ cs ↦ c ]

  -- http.Error, with its text as a body.
  unfoldable pub http_error : (Bytes → B) → Bytes → ℕ → Writer B → Writer B
  http_error text message status w = write_body (text (message ++ b'\n' ∷ [])) (
      write_header status (
        with_header (bytes "X-Content-Type-Options") (bytes "nosniff")
          (with_header (bytes "Content-Type") (bytes "text/plain; charset=utf-8") w)))
