-- ===== src/Ai/Stub/Usd.antt =====
-- usd of app/internal/ai/stub.go: an amount with its thousands set apart.
use maroon_ledger.Base.{
  ℕ, ◌+◌, ◌/◌, ◌%◌, ◌≡◌, refl, ◌≢◌, Bool, false, [], ◌∷◌, arith, ltb, ◌==◌, if◌then◌else◌, length,
  All,
}
use maroon_ledger.Base.Int.{ℤ, pos, ◌+ℤ◌}
use maroon_ledger.Go.Bytes.{Bytes, bytes, concat}
use maroon_ledger.Go.Float.{Float64}
use maroon_ledger.Go.Strconv.{itoa}

-- The loop over the digits behind the first: a comma where a multiple of three digits is left.
unfoldable pub group_rest : Bytes → Bytes
group_rest [] = []
group_rest (c ∷ s) =
    let rest = group_rest s in if length (c ∷ s) % 3 == 0 then b',' ∷ c ∷ rest else c ∷ rest

unfoldable pub group_thousands : Bytes → Bytes
group_thousands [] = []
group_thousands (c ∷ s) = c ∷ group_rest s

-- %02d, for a number of two digits at most
abbrev two_places : Bytes → Bytes
two_places s = if ltb (length s) 2 then b'0' ∷ s else s

abbrev is_whole : ℤ → Bool
is_whole (pos n) = n == 100
is_whole negative = false

abbrev usd_text : Bytes → ℤ → ℤ → Bytes
usd_text sign whole frac =
    concat
      (sign ∷ bytes "$" ∷ group_thousands (itoa whole) ∷ bytes "." ∷ two_places (itoa frac) ∷ [])

unfoldable pub usd : {F : Type 0} ⦃fl : Float64 F⦄ → F → Bytes
usd ⦃fl⦄ v =
    let whole = fl.to_int (fl.abs v) in
    let frac =
      fl.to_int
        (fl.round (fl.mul (fl.sub (fl.abs v) (fl.decimal whole 0)) (fl.decimal (pos 100) 0))) in
    let sign = if fl.lt v (fl.decimal (pos 0) 0) then bytes "-" else [] in
    if is_whole frac then usd_text sign (whole +ℤ pos 1) (pos 0) else usd_text sign whole frac

-- The text without its commas.
abbrev pub without_commas : Bytes → Bytes
without_commas [] = []
without_commas (c ∷ s) = let rest = without_commas s in if c == b',' then rest else c ∷ rest

without_commas-group_rest : (s : Bytes) → All (λ c. c ≢ b',') s → without_commas (group_rest s) ≡ s
unfolding group_rest
without_commas-group_rest [] h = refl
without_commas-group_rest (c ∷ s) h = ground (arith, without_commas-group_rest s h.1, h.0)

-- Every group behind the first comma has three digits: where a comma stands, a multiple of three
-- digits follows before the end.
abbrev pub IsGrouped : Bytes → Type 0
IsGrouped [] = Unit
IsGrouped (c ∷ s) = (c ≡ b',' → length (without_commas s) % 3 ≡ 0) × IsGrouped s

group_rest-IsGrouped : (s : Bytes) → All (λ c. c ≢ b',') s → IsGrouped (group_rest s)
unfolding group_rest
group_rest-IsGrouped [] h = tt
group_rest-IsGrouped (c ∷ s) h =
    ground (arith, group_rest-IsGrouped s h.1, without_commas-group_rest s h.1, h.0)

length-group_rest : (s : Bytes) → length (group_rest s) ≡ length s + length s / 3
unfolding group_rest
length-group_rest [] = refl
length-group_rest (c ∷ s) = ground (arith, length-group_rest s)

-- Setting thousands apart keeps the digits: without its commas the text is what it was; commas stand
-- only where a multiple of three digits follows; and there are as many as there are full groups of
-- three behind the first digit.
pub group_thousands-IsGrouped :
    (c : ℕ) (digits : Bytes)
    → All (λ d. d ≢ b',') (c ∷ digits)
    → (without_commas (group_thousands (c ∷ digits)) ≡ c ∷ digits)
      × IsGrouped (group_thousands (c ∷ digits))
      × (length (group_thousands (c ∷ digits)) ≡ length (c ∷ digits) + length digits / 3)
unfolding group_thousands
group_thousands-IsGrouped c s h =
    ground
      (arith, without_commas-group_rest s h.1, group_rest-IsGrouped s h.1, h.0, length-group_rest s)
