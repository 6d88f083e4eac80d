-- ===== src/Ai/Category/Allowlist.antt =====
-- The allowlist of categories: what ValidCategory and IsCategory promise of any string at all.
use mathlib.Core.List.{Mem, mem-cons, not-mem-nil}
use mathlib.Core.Logic.Or
use maroon_ledger.Base.{
  ◌≡◌, refl, sym, ◌↔◌, inl, inr, true, false, List, [], ◌∷◌, arith, if◌then◌else◌, Bool-cases,
}
use maroon_ledger.Go.Bytes.{Bytes, bytes, bytes_eq, bytes_eq_iff}
use maroon_ledger.Ai.Category.{
  other, categories, valid_from, valid_category, is_category_from, is_category, category_names,
}
use mathlib.Core.Bool.{Bool-set}

valid_from_lem :
    (cs : List Bytes) (s : Bytes) → valid_from cs s ≡ (if is_category_from cs s then s else other)
unfolding valid_from is_category_from
valid_from_lem [] s = refl
valid_from_lem (c ∷ cs) s = ground (arith, bytes_eq_iff c s, valid_from_lem cs s)

is_category_from-mem : (cs : List Bytes) (s : Bytes) → (is_category_from cs s ≡ true) ↔ Mem s cs
unfolding is_category_from
is_category_from-mem [] s = (λ h. cc, λ m. absurd (not-mem-nil m))
is_category_from-mem (c ∷ cs) s = elim (Bool-cases (bytes_eq c s)) [
  | inl e ↦ rw e (λ h. mem-cons.1 (Or.inl (sym ((bytes_eq_iff c s).0 e))), λ m. refl)
  | inr e ↦ rw e (
    λ h. mem-cons.1 (Or.inr ((is_category_from-mem cs s).0 h)),
    λ m.
        Or.elim (Bool-set _ _) (mem-cons.0 m) (λ p. cc (e, (bytes_eq_iff c s).1 (sym p)))
          (is_category_from-mem cs s).1,
  )
]

-- IsCategory accepts exactly the strings that CategoryNames lists.
pub is_category_iff_listed : (s : Bytes) → (is_category s ≡ true) ↔ Mem s category_names
unfolding is_category category_names categories
is_category_iff_listed s = is_category_from-mem categories s

pub other-IsCategory : is_category other ≡ true
unfolding is_category categories bytes_eq bytes
other-IsCategory = refl

-- For every string ValidCategory returns a category: the string itself if it is one, and `other`
-- if it is not.
pub valid_category_closed :
    (s : Bytes)
    → (is_category (valid_category s) ≡ true)
      × (is_category s ≡ true → valid_category s ≡ s)
      × (is_category s ≡ false → valid_category s ≡ other)
unfolding valid_category is_category
valid_category_closed s =
    let e : valid_category s ≡ (if is_category s then s else other) = valid_from_lem categories s in
    ground (arith, e, other-IsCategory)
