-- ===== src/Database/Select.antt =====
-- The SELECT statements of app/internal/handlers. Where SQL leaves the order of rows open, they
-- come in the order of insertion.
pub mod Rows
pub mod Sums
pub mod Totals
use maroon_ledger.Base.{
  ℕ, zero, suc, ◌+◌, ◌-◌, ◌*◌, ◌/◌, ◌%◌, ◌^◌, ◌≤◌, ◌<◌, String, ◌≡◌, refl, sym, ap, ◌∙◌, ◌≢◌, ◌↔◌,
  ◌⊎◌, inl, inr, Bool, true, false, not, ◌&&◌, ◌||◌, Option, none, some, List, [], ◌∷◌, ◌++◌, map,
  arith, ltb, leb, ◌==◌, if◌then◌else◌, Bool-cases, Option-cases, is_some, length,
}
use maroon_ledger.Base.Int.{ℤ, pos, negsuc, pos_part, neg_part, ◌+ℤ◌}
use maroon_ledger.Go.Bytes.{Bytes, bytes, bytes_eq}
use maroon_ledger.Go.Time.{start_of_day}
use maroon_ledger.Ai.Severity.{is_alert, severity_high}
use maroon_ledger.Database.{AccountRow, TransactionRow, Db}

-- WHERE
unfoldable pub where_rows {ℓ} : {A : Type ℓ} → (A → Bool) → List A → List A
where_rows p [] = []
where_rows p (x ∷ xs) = if p x then x ∷ where_rows p xs else where_rows p xs

unfoldable pub insert_ordered {ℓ} : {A : Type ℓ} → (A → A → Bool) → A → List A → List A
insert_ordered le x [] = x ∷ []
insert_ordered le x (y ∷ ys) = if le x y then x ∷ y ∷ ys else y ∷ insert_ordered le x ys

-- ORDER BY
unfoldable pub order_by {ℓ} : {A : Type ℓ} → (A → A → Bool) → List A → List A
unfolding insert_ordered
order_by le [] = []
order_by le (x ∷ xs) = insert_ordered le x (order_by le xs)

-- `id = $1` against a Go int.
abbrev pub is_id : ℤ → ℕ → Bool
is_id (pos n) id = id == n
is_id (negsuc n) id = false

-- SELECT … FROM accounts WHERE user_id = $1 ORDER BY id
unfoldable pub accounts_of : Bytes → Db → List AccountRow
accounts_of user db =
    order_by (λ a b. leb a.id b.id) (where_rows (λ a. bytes_eq a.user_id user) db.accounts)

-- SELECT … FROM accounts WHERE id = $1 AND user_id = $2
unfoldable pub account_by : ℤ → Bytes → Db → List AccountRow
account_by id user db = where_rows (λ a. is_id id a.id && bytes_eq a.user_id user) db.accounts

-- date DESC, id DESC
abbrev pub newest_first : TransactionRow → TransactionRow → Bool
newest_first s t = ltb t.date s.date || (s.date == t.date && leb t.id s.id)

-- SELECT … FROM transactions WHERE account_id = $1 ORDER BY date DESC, id DESC
unfoldable pub transactions_of : ℤ → Db → List TransactionRow
transactions_of id db =
    order_by newest_first (where_rows (λ t. is_id id t.account_id) db.transactions)

-- ABS(amount), as cents
abbrev pub magnitude : ℤ → ℕ
magnitude a = pos_part a + neg_part a

-- A group of rows with one key: COUNT(*), SUM and MAX of a measure.
pub record Group (K : Type 0) : Type 0 where
  pub key : K
  pub count : ℕ
  pub sum : ℕ
  pub max : ℕ

-- One row more in the group of its key.
unfoldable pub add_to_group :
    {K : Type 0} → (K → K → Bool) → K → ℕ → List (Group K) → List (Group K)
add_to_group same k x [] = record { key = k; count = 1; sum = x; max = x } ∷ []
add_to_group same k x (g ∷ gs) =
    if same g.key k
    then record g { count = g.count + 1; sum = g.sum + x; max = (if ltb g.max x then x else g.max) }
      ∷ gs
    else g ∷ add_to_group same k x gs

-- GROUP BY, the rows taken from the first on.
unfoldable pub group_by :
    {A K : Type 0} → (K → K → Bool) → (A → K) → (A → ℕ) → List (Group K) → List A → List (Group K)
group_by same key measure gs [] = gs
group_by same key measure gs (x ∷ xs) =
    group_by same key measure (add_to_group same (key x) (measure x) gs) xs

-- SELECT category, COUNT(*), SUM(ABS(amount)), …, MAX(ABS(amount)) … GROUP BY category
unfoldable pub baseline_of : ℤ → Db → List (Group Bytes)
baseline_of id db =
    group_by bytes_eq (λ (t : TransactionRow). t.category) (λ t. magnitude t.amount) []
      (where_rows (λ t. is_id id t.account_id) db.transactions)

-- FROM transactions t JOIN accounts a ON a.id = t.account_id
pub record Joined : Type 0 where
  pub t : TransactionRow
  pub a : AccountRow

unfoldable pub join_account : TransactionRow → List AccountRow → List Joined
join_account t [] = []
join_account t (a ∷ rest) =
    if a.id == t.account_id
    then record { t = t; a = a } ∷ join_account t rest
    else join_account t rest

unfoldable pub join_accounts : List TransactionRow → List AccountRow → List Joined
unfolding join_account
join_accounts [] accounts = []
join_accounts (t ∷ ts) accounts = join_account t accounts ++ join_accounts ts accounts

-- … JOIN … WHERE a.user_id = $1
unfoldable pub scoped : Bytes → Db → List Joined
scoped user db =
    where_rows (λ j. bytes_eq j.a.user_id user) (join_accounts db.transactions db.accounts)

-- t.date >= $2 AND t.date < $3
abbrev pub in_period : ℕ → ℕ → Joined → Bool
in_period start end j = leb start j.t.date && ltb j.t.date end

-- The rows of categoryOutflow: `t.amount < 0` counts, by category, the largest sum first.
unfoldable pub outflow_by_category : Bytes → ℕ → ℕ → Db → List (Group Bytes)
outflow_by_category user start end db =
    order_by (λ g h. leb h.sum g.sum)
      (group_by bytes_eq (λ (j : Joined). j.t.category) (λ j. neg_part j.t.amount) []
        (where_rows (λ j. in_period start end j && ltb 0 (neg_part j.t.amount)) (scoped user db)))

unfoldable pub sum_by : {A : Type 0} → (A → ℕ) → List A → ℕ
sum_by measure [] = 0
sum_by measure (x ∷ xs) = measure x + sum_by measure xs

-- The sums of cashflow: the CASE expressions pick the positive and the negative part.
unfoldable pub cashflow_sums : Bytes → ℕ → ℕ → Db → ℕ × ℕ
cashflow_sums user start end db =
    let rows = where_rows (in_period start end) (scoped user db) in
    (sum_by (λ j. pos_part j.t.amount) rows, sum_by (λ j. neg_part j.t.amount) rows)

-- A row of dailyDeltas: an account, DATE(t.date), SUM(t.amount).
pub record Delta : Type 0 where
  pub account_id : ℕ
  pub day : ℕ
  pub amount : ℤ

unfoldable pub add_delta : ℕ → ℕ → ℤ → List Delta → List Delta
add_delta id day x [] = record { account_id = id; day = day; amount = x } ∷ []
add_delta id day x (d ∷ ds) =
    if d.account_id == id && d.day == day
    then record d { amount = d.amount +ℤ x } ∷ ds
    else d ∷ add_delta id day x ds

unfoldable pub group_deltas : List Delta → List Joined → List Delta
unfolding add_delta
group_deltas ds [] = ds
group_deltas ds (j ∷ js) =
    group_deltas (add_delta j.t.account_id (start_of_day j.t.date) j.t.amount ds) js

-- … WHERE a.user_id = $1 AND t.date >= $2 GROUP BY t.account_id, DATE(t.date)
unfoldable pub deltas_of : Bytes → ℕ → Db → List Delta
deltas_of user start db = group_deltas [] (where_rows (λ j. leb start j.t.date) (scoped user db))

abbrev alert_row : Joined → Bool
alert_row j = elim j.t.anomaly_severity [ none ↦ false | some s ↦ is_alert s ]

-- CASE t.anomaly_severity WHEN 'high' THEN 0 ELSE 1 END
abbrev urgency : Joined → ℕ
urgency j = elim j.t.anomaly_severity [
  | none ↦ 1
  | some s ↦ if bytes_eq s severity_high then 0 else 1
]

abbrev more_urgent : Joined → Joined → Bool
more_urgent i j =
    ltb (urgency i) (urgency j)
    || (urgency i == urgency j && leb (magnitude j.t.amount) (magnitude i.t.amount))

-- LIMIT
unfoldable pub limit {ℓ} : {A : Type ℓ} → ℕ → List A → List A
limit zero xs = []
limit (suc n) [] = []
limit (suc n) (x ∷ xs) = x ∷ limit n xs

unfoldable pub alerts_of : Bytes → ℕ → Db → List Joined
alerts_of user start db =
    limit 5
      (order_by more_urgent (where_rows (λ j. leb start j.t.date && alert_row j) (scoped user db)))
