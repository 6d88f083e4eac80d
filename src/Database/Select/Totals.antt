-- ===== src/Database/Select/Totals.antt =====
-- The aggregates of app/internal/handlers as sums over the stored transactions, with no join.
use maroon_ledger.Base.{
  ℕ, ◌+◌, ◌≡◌, refl, ◌∙◌, inl, inr, Bool, ◌&&◌, List, [], ◌∷◌, ◌++◌, arith, ltb, leb, ◌==◌,
  if◌then◌else◌, Bool-cases, All, false, ◌||◌, ◌≢◌,
}
use maroon_ledger.Base.Int.{pos_part, neg_part}
use maroon_ledger.Go.Bytes.{Bytes, bytes_eq, bytes_eq_iff}
use maroon_ledger.Database.{AccountRow, TransactionRow, Db}
use maroon_ledger.Database.Select.{
  Group, add_to_group, group_by, where_rows, sum_by, Joined, join_account, join_accounts, scoped,
  outflow_by_category, cashflow_sums,
}
use maroon_ledger.Database.Select.Sums.{sum_by-order_by}

-- Accounts whose numbers are all different.
abbrev pub Differ : List AccountRow → Type 0
Differ [] = Unit
Differ (a ∷ rest) = All (λ b. a.id ≢ b.id) rest × Differ rest

-- The number of an account of the user's.
unfoldable pub own_number : Bytes → ℕ → List AccountRow → Bool
own_number u n [] = false
own_number u n (a ∷ accounts) = (a.id == n && bytes_eq a.user_id u) || own_number u n accounts

-- A transaction that counts for a user in a period: on an account of the user's, dated from the
-- start of the period on and ahead of its end.
abbrev pub counts : Bytes → ℕ → ℕ → List AccountRow → TransactionRow → Bool
counts user start end accounts t =
    own_number user t.account_id accounts && (leb start t.date && ltb t.date end)

abbrev if_ : Bool → ℕ → ℕ
if_ b n = if b then n else 0

module _ {A : Type 0} where
  sum_by-ext : (f g : A → ℕ) (xs : List A) → ((x : A) → f x ≡ g x) → sum_by f xs ≡ sum_by g xs
  unfolding sum_by
  sum_by-ext f g [] h = refl
  sum_by-ext f g (x ∷ xs) h = omega (arith, h x, sum_by-ext f g xs h)

  sum_by-append : (f : A → ℕ) (xs ys : List A) → sum_by f (xs ++ ys) ≡ sum_by f xs + sum_by f ys
  unfolding sum_by
  sum_by-append f [] ys = omega arith
  sum_by-append f (x ∷ xs) ys = omega (arith, sum_by-append f xs ys)

  sum_by-kept :
      (p : A → Bool) (f : A → ℕ) (xs : List A)
      → sum_by f (where_rows p xs) ≡ sum_by (λ x. if_ (p x) (f x)) xs
  unfolding sum_by where_rows
  sum_by-kept p f [] = refl
  sum_by-kept p f (x ∷ xs) = ground (arith, sum_by-kept p f xs)

-- What a pair of rows adds to a sum over the join.
abbrev share : (Joined → ℕ) → TransactionRow → AccountRow → ℕ
share f t a = if_ (a.id == t.account_id) (f (record { t = t; a = a }))

module _ (f : Joined → ℕ) where
  sum_by-join_account :
      (t : TransactionRow) (accounts : List AccountRow)
      → sum_by f (join_account t accounts) ≡ sum_by (share f t) accounts
  unfolding sum_by join_account
  sum_by-join_account t [] = refl
  sum_by-join_account t (a ∷ accounts) = ground (arith, sum_by-join_account t accounts)

  sum_by-join_accounts :
      (ts : List TransactionRow) (accounts : List AccountRow)
      → sum_by f (join_accounts ts accounts) ≡ sum_by (λ t. sum_by (share f t) accounts) ts
  unfolding sum_by join_accounts
  sum_by-join_accounts [] accounts = refl
  sum_by-join_accounts (t ∷ ts) accounts = omega (
    arith,
    sum_by-append f (join_account t accounts) (join_accounts ts accounts),
    sum_by-join_account t accounts,
    sum_by-join_accounts ts accounts,
  )

no_other :
    (u : Bytes) (n m : ℕ) (accounts : List AccountRow)
    → All (λ (b : AccountRow). n ≢ b.id) accounts
    → n ≡ m
    → own_number u m accounts ≡ false
unfolding own_number
no_other u n m [] h e = refl
no_other u n m (a ∷ accounts) h e = ground (arith, no_other u n m accounts h.1 e, h.0)

-- A measure of the rows of the join that reads the transaction alone.
abbrev on_own : Bytes → (TransactionRow → ℕ) → Joined → ℕ
on_own u f j = if_ (bytes_eq j.a.user_id u) (f j.t)

-- The join meets each transaction once, with the one account of its number.
sum_by-share :
    (u : Bytes) (f : TransactionRow → ℕ) (t : TransactionRow) (accounts : List AccountRow)
    → Differ accounts
    → sum_by (share (on_own u f) t) accounts ≡ if_ (own_number u t.account_id accounts) (f t)
unfolding sum_by own_number
sum_by-share u f t [] h = refl
sum_by-share u f t (a ∷ accounts) (others, differ) =
    let behind = sum_by-share u f t accounts differ in
    elim (Bool-cases (a.id == t.account_id)) [
      | inl here ↦
          let none_behind = no_other u a.id t.account_id accounts others (ground arith) in
          ground (arith, behind, none_behind)
      | inr there ↦ ground (arith, behind)
    ]

-- A sum over the rows of a user's that meet a condition on the transaction.
scoped-counted :
    (user : Bytes) (p : TransactionRow → Bool) (f : TransactionRow → ℕ) (db : Db)
    → Differ db.accounts
    → sum_by (λ j. f j.t) (where_rows (λ j. p j.t) (scoped user db))
      ≡ sum_by (λ t. if_ (own_number user t.account_id db.accounts && p t) (f t)) db.transactions
unfolding scoped
scoped-counted user p f db differ =
    let theirs = λ (j : Joined). bytes_eq j.a.user_id user in
    let joined = join_accounts db.transactions db.accounts in
    sum_by-kept (λ j. p j.t) (λ j. f j.t) (where_rows theirs joined)
    ∙ sum_by-kept theirs (λ j. if_ (p j.t) (f j.t)) joined
    ∙ sum_by-join_accounts (on_own user (λ t. if_ (p t) (f t))) db.transactions db.accounts
    ∙ sum_by-ext _ _ db.transactions
        (λ t. sum_by-share user (λ s. if_ (p s) (f s)) t db.accounts differ ∙ ground arith)

-- What a list of groups says of one category.
abbrev pub amount_in : Bytes → List (Group Bytes) → ℕ
amount_in k groups = sum_by (λ g. if_ (bytes_eq g.key k) g.sum) groups

module _ (k : Bytes) where
  amount_in-add :
      (c : Bytes) (x : ℕ) (groups : List (Group Bytes))
      → amount_in k (add_to_group bytes_eq c x groups) ≡ amount_in k groups + if_ (bytes_eq c k) x
  unfolding sum_by add_to_group
  amount_in-add c x [] = omega arith
  amount_in-add c x (g ∷ groups) = elim (Bool-cases (bytes_eq g.key c)) [
    | inl same ↦ let e : g.key ≡ c = (bytes_eq_iff g.key c).0 same in rw (same, e) (ground arith)
    | inr differs ↦ rw differs (omega (arith, amount_in-add c x groups))
  ]

  amount_in-group_by :
      {A : Type 0} (key : A → Bytes) (measure : A → ℕ) (groups : List (Group Bytes)) (xs : List A)
      → amount_in k (group_by bytes_eq key measure groups xs)
        ≡ amount_in k groups + sum_by (λ x. if_ (bytes_eq (key x) k) (measure x)) xs
  unfolding sum_by group_by
  amount_in-group_by key measure groups [] = omega arith
  amount_in-group_by key measure groups (x ∷ xs) = omega (
    arith,
    amount_in-group_by key measure (add_to_group bytes_eq (key x) (measure x) groups) xs,
    amount_in-add (key x) (measure x) groups,
  )

  amount_in-grouped :
      {A : Type 0} (key : A → Bytes) (measure : A → ℕ) (xs : List A)
      → amount_in k (group_by bytes_eq key measure [] xs)
        ≡ sum_by (λ x. if_ (bytes_eq (key x) k) (measure x)) xs
  unfolding sum_by
  amount_in-grouped key measure xs = omega (arith, amount_in-group_by key measure [] xs)

  spent-counted :
      (user : Bytes) (start end : ℕ) (db : Db)
      → Differ db.accounts
      → amount_in k (outflow_by_category user start end db)
        ≡ sum_by
            (λ t.
              if_
                (counts user start end db.accounts t && bytes_eq t.category k)
                (neg_part t.amount))
            db.transactions
  unfolding outflow_by_category
  spent-counted user start end db differ =
      let measure = λ (t : TransactionRow). neg_part t.amount in
      let p = λ (t : TransactionRow). (leb start t.date && ltb t.date end) && ltb 0 (measure t) in
      let kept = where_rows (λ (j : Joined). p j.t) (scoped user db) in
      sum_by-order_by (λ (g : Group Bytes). if_ (bytes_eq g.key k) g.sum)
        (λ (g h : Group Bytes). leb h.sum g.sum)
        (group_by bytes_eq (λ (j : Joined). j.t.category) (λ j. measure j.t) [] kept)
      ∙ amount_in-grouped (λ (j : Joined). j.t.category) (λ j. measure j.t) kept
      ∙ scoped-counted user p (λ t. if_ (bytes_eq t.category k) (measure t)) db differ
      ∙ sum_by-ext _ _ db.transactions (λ t. ground arith)

-- The aggregates count exactly the user's own money, if the accounts have different numbers: the
-- inflow and the outflow of a period are the sums, over all stored transactions, of what came in
-- and of what went out on an account of the user's within the period, each transaction once; and
-- what is spent in a category is the sum of what went out of those that carry the category.
pub totals_counted :
    (user : Bytes) (start end : ℕ) (db : Db)
    → Differ db.accounts
    → (cashflow_sums user start end db ≡ (
      sum_by
          (λ t. if counts user start end db.accounts t then pos_part t.amount else 0)
          db.transactions,
      sum_by
          (λ t. if counts user start end db.accounts t then neg_part t.amount else 0)
          db.transactions,
    ))
      × ((k : Bytes)
          → amount_in k (outflow_by_category user start end db)
            ≡ sum_by
                (λ t.
                  if counts user start end db.accounts t && bytes_eq t.category k
                  then neg_part t.amount
                  else 0)
                db.transactions)
unfolding cashflow_sums
totals_counted user start end db differ =
    let p = λ (t : TransactionRow). leb start t.date && ltb t.date end in
    (
      rw
          (
            scoped-counted user p (λ t. pos_part t.amount) db differ,
            scoped-counted user p (λ t. neg_part t.amount) db differ,
          )
          refl,
      λ k. spent-counted k user start end db differ,
    )
