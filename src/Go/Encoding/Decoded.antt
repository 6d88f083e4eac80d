-- ===== src/Go/Encoding/Decoded.antt =====
-- What the encodings say: each is read back to what was encoded.
use maroon_ledger.Base.{
  ℕ, zero, suc, ◌+◌, ◌-◌, ◌*◌, ◌/◌, ◌%◌, ◌^◌, ◌≤◌, ◌<◌, ◌≡◌, refl, Bool, true, inl, inr, ◌&&◌,
  Option, none, some, [], ◌∷◌, ◌++◌, arith, ltb, leb, ◌==◌, if◌then◌else◌, Bool-cases, All,
}
use maroon_ledger.Go.Bytes.{Bytes}
use maroon_ledger.Go.Encoding.{put_uint64, set_bytes, bytes_from, int_bytes, letter, base64}

set_bytes-bytes_from :
    (fuel n : ℕ) (behind : Bytes)
    → n ≤ fuel
    → set_bytes 0 (bytes_from fuel n behind) ≡ set_bytes n behind
unfolding bytes_from set_bytes
set_bytes-bytes_from zero n behind h = ground arith
set_bytes-bytes_from (suc fuel) n behind h = elim (Bool-cases (n == 0)) [
  | inl none_left ↦ ground arith
  | inr some_left ↦
      let fewer : n / 256 ≤ fuel = ground arith in
      let rest = set_bytes-bytes_from fuel (n / 256) (n % 256 ∷ behind) fewer in
      let value : n / 256 * 256 + n % 256 ≡ n = ground arith in rw (some_left, rest, value) refl
]

-- A number is read back from its bytes.
pub set_bytes-int_bytes : (n : ℕ) → set_bytes 0 (int_bytes n) ≡ n
unfolding int_bytes set_bytes
set_bytes-int_bytes n = set_bytes-bytes_from n n [] (omega arith)

pub set_bytes-put_uint64 : (v : ℕ) → set_bytes 0 (put_uint64 v) ≡ v % 2 ^ 64
unfolding put_uint64 set_bytes
set_bytes-put_uint64 v = omega arith

abbrev pub IsByte : ℕ → Type 0
IsByte b = b < 256

bytes_from-AllBytes :
    (fuel n : ℕ) (behind : Bytes) → All IsByte behind → All IsByte (bytes_from fuel n behind)
unfolding bytes_from
bytes_from-AllBytes zero n behind h = h
bytes_from-AllBytes (suc fuel) n behind h = elim (Bool-cases (n == 0)) [
  | inl none_left ↦ rw none_left h
  | inr some_left ↦
      rw some_left (bytes_from-AllBytes fuel (n / 256) (n % 256 ∷ behind) (omega arith, h))
]

pub int_bytes-AllBytes : (n : ℕ) → All IsByte (int_bytes n)
unfolding int_bytes
int_bytes-AllBytes n = bytes_from-AllBytes n n [] tt

-- The digit that a letter of the alphabet stands for; 64 for any other byte.
unfoldable pub digit_of : ℕ → ℕ
digit_of c =
    if leb b'A' c && leb c b'Z'
    then c - b'A'
    else if leb b'a' c && leb c b'z'
    then c - b'a' + 26
    else if leb b'0' c && leb c b'9'
    then c - b'0' + 52
    else if c == b'-'
    then 62
    else if c == b'_'
    then 63
    else 64

pub digit_of-letter : (d : ℕ) → d < 64 → digit_of (letter d) ≡ d
unfolding digit_of letter
digit_of-letter d h = ground arith

abbrev is_digit : ℕ → Bool
is_digit d = ltb d 64

abbrev onto : Bytes → Option Bytes → Option Bytes
onto s none = none
onto s (some t) = some (s ++ t)

-- Four letters are three bytes; two or three left over at the end are one or two; no padding.
unfoldable pub unbase64 : Bytes → Option Bytes
unfolding digit_of
unbase64 [] = some []
unbase64 (p ∷ []) = none
unbase64 (p ∷ q ∷ []) =
    let x = digit_of p in
    let y = digit_of q in if is_digit x && is_digit y then some ((x * 4 + y / 16) ∷ []) else none
unbase64 (p ∷ q ∷ r ∷ []) =
    let x = digit_of p in
    let y = digit_of q in
    let z = digit_of r in
    if is_digit x && (is_digit y && is_digit z)
    then some ((x * 4 + y / 16) ∷ (y % 16 * 16 + z / 4) ∷ [])
    else none
unbase64 (p ∷ q ∷ r ∷ t ∷ s) =
    let x = digit_of p in
    let y = digit_of q in
    let z = digit_of r in
    let w = digit_of t in
    let rest = unbase64 s in
    if is_digit x && (is_digit y && (is_digit z && is_digit w))
    then onto ((x * 4 + y / 16) ∷ (y % 16 * 16 + z / 4) ∷ (z % 4 * 64 + w) ∷ []) rest
    else none

bytes_of_three :
    (a b c : ℕ)
    → a < 256
    → b < 256
    → c < 256
    → ((a / 4) * 4 + (a % 4 * 16 + b / 16) / 16 ≡ a)
      × ((a % 4 * 16 + b / 16) % 16 * 16 + (b % 16 * 4 + c / 64) / 4 ≡ b)
      × ((b % 16 * 4 + c / 64) % 4 * 64 + c % 64 ≡ c)
bytes_of_three a b c ha hb hc = omega arith

digits_of_three :
    (a b c : ℕ)
    → a < 256
    → b < 256
    → c < 256
    → (digit_of (letter (a / 4)) ≡ a / 4)
      × (digit_of (letter (a % 4 * 16 + b / 16)) ≡ a % 4 * 16 + b / 16)
      × (digit_of (letter (b % 16 * 4 + c / 64)) ≡ b % 16 * 4 + c / 64)
      × (digit_of (letter (c % 64)) ≡ c % 64)
digits_of_three a b c ha hb hc = (
  digit_of-letter (a / 4) (omega arith),
  digit_of-letter (a % 4 * 16 + b / 16) (omega arith),
  digit_of-letter (b % 16 * 4 + c / 64) (omega arith),
  digit_of-letter (c % 64) (omega arith),
)

small_digits :
    (a b c : ℕ)
    → a < 256
    → b < 256
    → c < 256
    → (is_digit (a / 4)
          && (is_digit (a % 4 * 16 + b / 16)
              && (is_digit (b % 16 * 4 + c / 64) && is_digit (c % 64)))
        ≡ true)
small_digits a b c ha hb hc = ground arith

-- Bytes are read back from their base64url text.
pub unbase64-base64 : (s : Bytes) → All IsByte s → unbase64 (base64 s) ≡ some s
unfolding unbase64 base64
unbase64-base64 [] h = refl
unbase64-base64 (a ∷ []) (ha, h) =
    rw (digit_of-letter (a / 4) (omega arith), digit_of-letter (a % 4 * 16) (omega arith))
      (ground arith)
unbase64-base64 (a ∷ b ∷ []) (ha, (hb, h)) =
    rw
      (
        digit_of-letter (a / 4) (omega arith),
        digit_of-letter (a % 4 * 16 + b / 16) (omega arith),
        digit_of-letter (b % 16 * 4) (omega arith),
      )
      (ground arith)
unbase64-base64 (a ∷ b ∷ c ∷ s) (ha, (hb, (hc, h))) =
    let (x, y, z, w) = digits_of_three a b c ha hb hc in
    let (first, second, third) = bytes_of_three a b c ha hb hc in
    rw (x, y, z, w, small_digits a b c ha hb hc, unbase64-base64 s h, first, second, third) refl
