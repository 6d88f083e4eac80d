-- ===== src/Ai/Stub/Keywords.antt =====
-- What the stub's classification promises: a category of the allowlist, whatever the description.
use maroon_ledger.Base.{
  ◌≡◌, refl, inl, inr, Bool, true, ◌&&◌, some, List, [], ◌∷◌, arith, Option-cases,
}
use maroon_ledger.Go.Bytes.{Bytes, bytes, bytes_eq, to_lower, Unicode}
use maroon_ledger.Go.Float.{Float64}
use maroon_ledger.Ai.Category.{income, is_category, categories}
use maroon_ledger.Ai.Types.{TransactionInput, Categorization, Reply, truncate, max_description_len}
use maroon_ledger.Ai.Category.Allowlist.{other-IsCategory}
use maroon_ledger.Ai.Stub.{category_keywords, find_entry, categorize}

all_listed : List (Bytes × List Bytes) → Bool
all_listed [] = true
all_listed (e ∷ es) = is_category e.0 && all_listed es

-- Every category of the keyword table is on the allowlist.
keywords-AllListed : all_listed category_keywords ≡ true
unfolding all_listed category_keywords is_category categories bytes_eq bytes
keywords-AllListed = refl

find_entry-IsCategory :
    (desc : Bytes) (es : List (Bytes × List Bytes)) (e : Bytes × Bytes)
    → all_listed es ≡ true
    → find_entry desc es ≡ some e
    → is_category e.0 ≡ true
unfolding find_entry all_listed
find_entry-IsCategory desc [] e listed h = cc
find_entry-IsCategory desc ((c, kws) ∷ es) e listed h =
    ground (arith, find_entry-IsCategory desc es e)

-- The reply is a classification into a category of the allowlist.
abbrev pub InAllowlist : {F : Type 0} → Reply (Categorization F) → Type 0
InAllowlist (Reply.ok c) = is_category c.category ≡ true
InAllowlist (Reply.err e) = ⊥

income-IsCategory : is_category income ≡ true
unfolding is_category categories bytes_eq bytes
income-IsCategory = refl

-- Whatever the description and the amount, the stub's Categorize succeeds with a category of the
-- allowlist.
pub categorize-InAllowlist :
    {F : Type 0} ⦃fl : Float64 F⦄ (u : Unicode) (input : TransactionInput F)
    → InAllowlist (categorize u input)
unfolding categorize
categorize-InAllowlist u input =
    let desc = to_lower u (truncate input.description max_description_len) in
    elim (Option-cases (find_entry desc category_keywords)) [
      | inl miss ↦ ground (arith, miss, income-IsCategory, other-IsCategory)
      | inr (e, hit) ↦
          ground (arith, hit, find_entry-IsCategory desc category_keywords e keywords-AllListed hit)
    ]
