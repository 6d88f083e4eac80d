-- ===== src/Database/Select/Sums.antt =====
-- The aggregates against each other: grouping loses no money.
use maroon_ledger.Base.{ℕ, ◌+◌, ◌≡◌, refl, Bool, ◌&&◌, List, [], ◌∷◌, arith, ltb, leb}
use maroon_ledger.Base.Int.{neg_part}
use maroon_ledger.Go.Bytes.{Bytes, bytes_eq}
use maroon_ledger.Database.{Db}
use maroon_ledger.Database.Select.{
  Group, add_to_group, group_by, insert_ordered, order_by, where_rows, sum_by, Joined, scoped,
  in_period, outflow_by_category, cashflow_sums,
}

module _ {A : Type 0} (measure : A → ℕ) where
  sum_by-insert_ordered :
      (le : A → A → Bool) (x : A) (xs : List A)
      → sum_by measure (insert_ordered le x xs) ≡ measure x + sum_by measure xs
  unfolding sum_by insert_ordered
  sum_by-insert_ordered le x [] = refl
  sum_by-insert_ordered le x (y ∷ ys) = ground (arith, sum_by-insert_ordered le x ys)

  pub sum_by-order_by :
      (le : A → A → Bool) (xs : List A) → sum_by measure (order_by le xs) ≡ sum_by measure xs
  unfolding sum_by order_by
  sum_by-order_by le [] = refl
  sum_by-order_by le (x ∷ xs) =
      omega (arith, sum_by-insert_ordered le x (order_by le xs), sum_by-order_by le xs)

abbrev group_sum : {K : Type 0} → Group K → ℕ
group_sum g = g.sum

module _ {K : Type 0} (same : K → K → Bool) where
  sum_by-add_to_group :
      (k : K) (x : ℕ) (gs : List (Group K))
      → sum_by group_sum (add_to_group same k x gs) ≡ sum_by group_sum gs + x
  unfolding sum_by add_to_group
  sum_by-add_to_group k x [] = omega arith
  sum_by-add_to_group k x (g ∷ gs) = ground (arith, sum_by-add_to_group k x gs)

  -- The groups' sums add up to the sum of all rows.
  sum_by-group_by :
      {A : Type 0} (key : A → K) (measure : A → ℕ) (gs : List (Group K)) (xs : List A)
      → sum_by group_sum (group_by same key measure gs xs) ≡ sum_by group_sum gs + sum_by measure xs
  unfolding sum_by group_by
  sum_by-group_by key measure gs [] = omega arith
  sum_by-group_by key measure gs (x ∷ xs) = omega (
    arith,
    sum_by-group_by key measure (add_to_group same (key x) (measure x) gs) xs,
    sum_by-add_to_group (key x) (measure x) gs,
  )

-- Rows that are left out because they measure nothing.
sum_by-where_rows :
    {A : Type 0} (p : A → Bool) (measure : A → ℕ) (xs : List A)
    → sum_by measure (where_rows (λ x. p x && ltb 0 (measure x)) xs)
      ≡ sum_by measure (where_rows p xs)
unfolding sum_by where_rows
sum_by-where_rows p measure [] = refl
sum_by-where_rows p measure (x ∷ xs) = ground (arith, sum_by-where_rows p measure xs)

-- Whatever the tables hold, the outflow of all categories over a period adds up, in cents, to the
-- outflow of cashflow over the same period: no spending is lost or counted twice by the grouping.
pub outflow_by_category-cashflow_sums :
    (user : Bytes) (start end : ℕ) (db : Db)
    → sum_by (λ (g : Group Bytes). g.sum) (outflow_by_category user start end db)
      ≡ (cashflow_sums user start end db).1
unfolding outflow_by_category cashflow_sums sum_by
outflow_by_category-cashflow_sums user start end db =
    let measure = λ (j : Joined). neg_part j.t.amount in
    let kept =
      where_rows (λ (j : Joined). in_period start end j && ltb 0 (measure j)) (scoped user db) in
    let groups = group_by bytes_eq (λ (j : Joined). j.t.category) measure [] kept in
    omega (
      arith,
      sum_by-order_by (λ (g : Group Bytes). g.sum) (λ (g h : Group Bytes). leb h.sum g.sum) groups,
      sum_by-group_by bytes_eq (λ (j : Joined). j.t.category) measure [] kept,
      sum_by-where_rows (in_period start end) measure (scoped user db),
    )
