-- ===== src/Ai/Category.antt =====
-- The closed set of categories in app/internal/ai/ai.go, and its two readers.
pub mod Allowlist
use maroon_ledger.Base.{
  ℕ, zero, suc, ◌+◌, ◌-◌, ◌*◌, ◌/◌, ◌%◌, ◌^◌, ◌≤◌, ◌<◌, String, ◌≡◌, refl, sym, ap, ◌∙◌, ◌≢◌, ◌↔◌,
  ◌⊎◌, inl, inr, Bool, true, false, not, ◌&&◌, ◌||◌, Option, none, some, List, [], ◌∷◌, ◌++◌, map,
  arith, ltb, leb, ◌==◌, if◌then◌else◌, Bool-cases, Option-cases, is_some, length,
}
use maroon_ledger.Go.Bytes.{Bytes, bytes, bytes_eq}

-- `Category` is a string type; so are its constants.
abbrev pub other : Bytes
other = bytes "other"

abbrev pub income : Bytes
income = bytes "income"

-- Categories
unfoldable pub categories : List Bytes
categories =
    bytes "groceries"
    ∷ bytes "dining"
    ∷ bytes "transport"
    ∷ bytes "housing"
    ∷ bytes "utilities"
    ∷ bytes "healthcare"
    ∷ bytes "entertainment"
    ∷ bytes "shopping"
    ∷ bytes "income"
    ∷ bytes "transfer"
    ∷ bytes "fees"
    ∷ bytes "other"
    ∷ []

-- The loop of ValidCategory, over what is left of the list.
valid_from : List Bytes → Bytes → Bytes
valid_from [] s = other
valid_from (c ∷ cs) s = if bytes_eq c s then c else valid_from cs s

-- ValidCategory
unfoldable pub valid_category : Bytes → Bytes
unfolding valid_from
valid_category s = valid_from categories s

-- The loop of IsCategory.
is_category_from : List Bytes → Bytes → Bool
is_category_from [] s = false
is_category_from (c ∷ cs) s = if bytes_eq c s then true else is_category_from cs s

-- IsCategory
unfoldable pub is_category : Bytes → Bool
unfolding is_category_from
is_category s = is_category_from categories s

-- CategoryNames
unfoldable pub category_names : List Bytes
category_names = map (λ c. c) categories
