-- ===== src/Go/Strconv/Printed.antt =====
-- The digits that FormatInt prints, as Atoi reads them.
use maroon_ledger.Base.{
  ℕ, zero, suc, ◌+◌, ◌-◌, ◌*◌, ◌/◌, ◌%◌, ◌^◌, ◌<◌, ◌≡◌, inl, inr, true, some, [], ◌∷◌, arith, ltb,
  Bool-cases,
}
use maroon_ledger.Base.Int.{pos}
use maroon_ledger.Go.Bytes.{Bytes}
use maroon_ledger.Go.Strconv.{is_digit, parse_digits, parse_nat, atoi, digits_from, itoa}

parse_digits-digits_from :
    (fuel n : ℕ) (acc : Bytes)
    → n < fuel
    → parse_digits 0 (digits_from fuel n acc) ≡ parse_digits n acc
unfolding digits_from parse_digits
parse_digits-digits_from zero n acc h = absurd (omega arith)
parse_digits-digits_from (suc fuel) n acc h = elim (Bool-cases (ltb n 10)) [
  | inl small ↦ ground arith
  | inr large ↦
      let shorter : n / 10 < fuel = ground arith in
      let rest = parse_digits-digits_from fuel (n / 10) ((b'0' + n % 10) ∷ acc) shorter in
      let value : n / 10 * 10 + (b'0' + n % 10 - b'0') ≡ n = ground arith in
      rw (large, rest, value) (ground arith)
]

-- The first byte printed is a digit.
digits_from-head :
    (fuel n : ℕ) (acc : Bytes)
    → n < fuel
    → (c : ℕ) × (s : Bytes) × (digits_from fuel n acc ≡ c ∷ s) × (is_digit c ≡ true)
unfolding digits_from
digits_from-head zero n acc h = absurd (omega arith)
digits_from-head (suc fuel) n acc h = elim (Bool-cases (ltb n 10)) [
  | inl small ↦ (b'0' + n, acc, rw small, ground arith)
  | inr large ↦
      let (c, s, e, digit) =
        digits_from-head fuel (n / 10) ((b'0' + n % 10) ∷ acc) (ground arith) in
      (c, s, rw (large, e), digit)
]

atoi-digits :
    (c : ℕ) (s : Bytes) (n : ℕ)
    → is_digit c ≡ true
    → parse_digits 0 (c ∷ s) ≡ some n
    → n < 2 ^ 63
    → atoi (c ∷ s) ≡ some (pos n)
unfolding atoi parse_nat
atoi-digits c s n digit e h = ground arith

read_back :
    (text : Bytes) (n : ℕ)
    → (c : ℕ) × (s : Bytes) × (text ≡ c ∷ s) × (is_digit c ≡ true)
    → parse_digits 0 text ≡ some n
    → n < 2 ^ 63
    → atoi text ≡ some (pos n)
read_back text n (c, s, e, digit) value h = rw e (atoi-digits c s n digit (rw e at value) h)

parse_digits-printed : (n : ℕ) → parse_digits 0 (digits_from (suc n) n []) ≡ some n
unfolding parse_digits
parse_digits-printed n = parse_digits-digits_from (suc n) n [] (omega arith)

-- Every number below 2^63 is read back from the decimal digits that are printed for it.
pub atoi-itoa : (n : ℕ) → n < 2 ^ 63 → atoi (itoa (pos n)) ≡ some (pos n)
unfolding itoa
atoi-itoa n h =
    read_back (digits_from (suc n) n []) n (digits_from-head (suc n) n [] (omega arith))
      (parse_digits-printed n) h
