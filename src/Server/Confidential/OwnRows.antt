-- ===== src/Server/Confidential/OwnRows.antt =====
-- The rows of one user, read off the two tables, fix what the queries of app/internal/handlers that
-- are scoped to the user find.
use mathlib.Core.List.{Memᴰ}
use maroon_ledger.Base.{
  ℕ, ◌≡◌, refl, sym, ap, ◌∙◌, inl, inr, Bool, true, false, ◌&&◌, List, [], ◌∷◌, arith, Bool-cases,
}
use maroon_ledger.Base.Int.{ℤ, pos_part}
use maroon_ledger.Go.Bytes.{Bytes, bytes_eq, bytes_eq_iff}
use maroon_ledger.Database.{AccountRow, TransactionRow, Db}
use maroon_ledger.Database.Select.{
  where_rows, scoped, accounts_of, account_by, transactions_of, is_id, Joined, join_account,
  join_accounts,
}
use maroon_ledger.Database.Select.Totals.{own_number}
use maroon_ledger.Database.Select.Rows.{where_rows-append, is_id-eq}
use maroon_ledger.Handlers.Transactions.Access.{IsOwned}
use maroon_ledger.Server.Change.Isolation.{SameView}

abbrev pub own_accounts : Bytes → Db → List AccountRow
own_accounts u db = where_rows (λ a. bytes_eq a.user_id u) db.accounts

abbrev pub own_transactions : Bytes → Db → List TransactionRow
own_transactions u db = where_rows (λ t. own_number u t.account_id db.accounts) db.transactions

pub record SameRows (u : Bytes) (db db' : Db) : Type 0 where
  pub accounts : own_accounts u db' ≡ own_accounts u db
  pub transactions : own_transactions u db' ≡ own_transactions u db

where_rows-both :
    {A : Type 0} (p q : A → Bool) (xs : List A)
    → where_rows (λ x. p x && q x) xs ≡ where_rows p (where_rows q xs)
unfolding where_rows
where_rows-both p q [] = refl
where_rows-both p q (x ∷ xs) = ground (arith, where_rows-both p q xs)

-- A condition that implies another selects the same behind it.
where_rows-implied :
    {A : Type 0} (p q : A → Bool) (xs : List A)
    → ((x : A) → p x ≡ true → q x ≡ true)
    → where_rows p xs ≡ where_rows p (where_rows q xs)
unfolding where_rows
where_rows-implied p q [] h = refl
where_rows-implied p q (x ∷ xs) h = ground (arith, h x, where_rows-implied p q xs h)

module _ (u : Bytes) where
  abbrev theirs : AccountRow → Bool
  theirs a = bytes_eq a.user_id u

  own_number-kept :
      (n : ℕ) (accounts : List AccountRow)
      → own_number u n (where_rows theirs accounts) ≡ own_number u n accounts
  unfolding own_number where_rows
  own_number-kept n [] = refl
  own_number-kept n (a ∷ accounts) = ground (arith, own_number-kept n accounts)

  own_number-stored :
      (n : ℕ) (a : AccountRow) (accounts : List AccountRow)
      → Memᴰ a accounts
      → a.id ≡ n
      → a.user_id ≡ u
      → own_number u n accounts ≡ true
  unfolding own_number
  own_number-stored n a [] m e own = elim m [ ]
  own_number-stored n a (b ∷ accounts) (Memᴰ.head same) e own =
      let is_own : bytes_eq a.user_id u ≡ true = (bytes_eq_iff a.user_id u).1 own in
      rw (← same) (ground arith)
  own_number-stored n a (b ∷ accounts) (Memᴰ.tail m) e own =
      ground (arith, own_number-stored n a accounts m e own)

  abbrev joined_theirs : Joined → Bool
  joined_theirs j = bytes_eq j.a.user_id u

  join_account-theirs :
      (t : TransactionRow) (accounts : List AccountRow)
      → where_rows joined_theirs (join_account t accounts)
        ≡ join_account t (where_rows theirs accounts)
  unfolding where_rows join_account
  join_account-theirs t [] = refl
  join_account-theirs t (a ∷ accounts) = ground (arith, join_account-theirs t accounts)

  join_account-none :
      (t : TransactionRow) (accounts : List AccountRow)
      → own_number u t.account_id accounts ≡ false
      → join_account t (where_rows theirs accounts) ≡ []
  unfolding where_rows join_account own_number
  join_account-none t [] h = refl
  join_account-none t (a ∷ accounts) h = ground (arith, join_account-none t accounts)

  -- The join needs nothing but the user's own rows.
  join_accounts-theirs :
      (ts : List TransactionRow) (accounts : List AccountRow)
      → where_rows joined_theirs (join_accounts ts accounts)
        ≡ join_accounts
            (where_rows (λ t. own_number u t.account_id accounts) ts)
            (where_rows theirs accounts)
  unfolding where_rows join_accounts
  join_accounts-theirs [] accounts = refl
  join_accounts-theirs (t ∷ ts) accounts =
      rw
        (
          where_rows-append joined_theirs (join_account t accounts) (join_accounts ts accounts),
          join_account-theirs t accounts,
          join_accounts-theirs ts accounts,
        )
        (elim (Bool-cases (own_number u t.account_id accounts)) [
          | inl own ↦ rw own refl
          | inr other ↦ rw (other, join_account-none t accounts other) refl
        ])

  -- The transactions of an account of the user's are among the user's own.
  listed-own :
      (id : ℤ) (accounts : List AccountRow) (ts : List TransactionRow)
      → own_number u (pos_part id) accounts ≡ true
      → where_rows (λ t. is_id id t.account_id) ts
        ≡ where_rows
            (λ t. is_id id t.account_id)
            (where_rows (λ t. own_number u t.account_id accounts) ts)
  listed-own id accounts ts own =
      where_rows-implied (λ t. is_id id t.account_id) (λ t. own_number u t.account_id accounts) ts
        (λ t h. rw (is_id-eq id t.account_id h) own)

  module _ (db db' : Db) (same : SameRows u db db') where
    same_numbers : (n : ℕ) → own_number u n db'.accounts ≡ own_number u n db.accounts
    same_numbers n =
        sym (own_number-kept n db'.accounts)
        ∙ ap (own_number u n) same.accounts
        ∙ own_number-kept n db.accounts

    same_listed :
        (id : ℤ) (type : Bytes)
        → IsOwned u id type db
        → where_rows (λ t. is_id id t.account_id) db'.transactions
          ≡ where_rows (λ t. is_id id t.account_id) db.transactions
    same_listed id type owned =
        let own =
          own_number-stored (pos_part id) owned.row db.accounts owned.stored owned.numbered
            owned.owner in
        listed-own id db'.accounts db'.transactions (same_numbers (pos_part id) ∙ own)
        ∙ ap (where_rows (λ t. is_id id t.account_id)) same.transactions
        ∙ sym (listed-own id db.accounts db.transactions own)

    pub same_rows-SameView : SameView u db db'
    unfolding accounts_of scoped account_by transactions_of
    same_rows-SameView = record {
      accounts = rw same.accounts refl;
      rows =
          join_accounts-theirs db'.transactions db'.accounts
          ∙ rw (same.accounts, same.transactions) refl
          ∙ sym (join_accounts-theirs db.transactions db.accounts);
      found = λ id.
          where_rows-both (λ (a : AccountRow). is_id id a.id) theirs db'.accounts
          ∙ ap (where_rows (λ (a : AccountRow). is_id id a.id)) same.accounts
          ∙ sym (where_rows-both (λ (a : AccountRow). is_id id a.id) theirs db.accounts);
      listed = λ id type owned. rw (same_listed id type owned) refl;
    }
