-- ===== src/Database/Select/Rows.antt =====
-- What WHERE keeps.
use mathlib.Core.List.{Memᴰ}
use maroon_ledger.Base.{
  ℕ, ◌≡◌, refl, sym, inl, inr, Bool, true, List, [], ◌∷◌, ◌++◌, arith, Bool-cases,
}
use maroon_ledger.Base.Int.{ℤ, pos, negsuc, pos_part}
use maroon_ledger.Database.Select.{where_rows, is_id}

module _ {A : Type 0} (p : A → Bool) where
  -- The first row kept is a row, and meets the condition.
  pub first-where_rows :
      (x : A) (rest xs : List A) → where_rows p xs ≡ x ∷ rest → Memᴰ x xs × (p x ≡ true)
  unfolding where_rows
  first-where_rows x rest [] h = cc
  first-where_rows x rest (y ∷ ys) h = elim (Bool-cases (p y)) [
    | inl kept ↦ let e : y ≡ x = ground arith in (Memᴰ.head (sym e), rw (← e) kept)
    | inr dropped ↦ let (m, t) = first-where_rows x rest ys (ground arith) in (Memᴰ.tail m, t)
  ]

  pub where_rows-append :
      (xs ys : List A) → where_rows p (xs ++ ys) ≡ where_rows p xs ++ where_rows p ys
  unfolding where_rows
  where_rows-append [] ys = refl
  where_rows-append (x ∷ xs) ys = ground (arith, where_rows-append xs ys)

pub is_id-eq : (id : ℤ) (n : ℕ) → is_id id n ≡ true → n ≡ pos_part id
is_id-eq (pos m) n h = ground arith
is_id-eq (negsuc m) n h = cc
