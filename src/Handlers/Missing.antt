-- ===== src/Handlers/Missing.antt =====
-- An account that is not the caller's is answered like one that does not exist.
use maroon_ledger.Base.{
  ◌≡◌, refl, ◌≢◌, inl, inr, Bool, ◌&&◌, Option, none, some, List, [], ◌∷◌, arith, Bool-cases, All,
}
use maroon_ledger.Base.Int.{ℤ, pos_part}
use maroon_ledger.Go.Bytes.{Bytes, bytes, bytes_eq, bytes_eq_iff, Unicode}
use maroon_ledger.Go.Float.{Float64}
use maroon_ledger.Go.Strconv.{atoi}
use maroon_ledger.Ai.Types.{Provider}
use maroon_ledger.Database.{AccountRow, Db}
use maroon_ledger.Database.Select.{account_by, where_rows, is_id}
use maroon_ledger.Database.Select.Rows.{is_id-eq}
use maroon_ledger.Handlers.World.{World, ok, err, first_or_fault, next_fault, query_row}
use maroon_ledger.Handlers.Http.{Request, HttpError, subject_of, current_user, account_owned_by}
use maroon_ledger.Handlers.Accounts as Accounts
use maroon_ledger.Handlers.Accounts.{account_error}
use maroon_ledger.Handlers.Transactions as Transactions
use maroon_ledger.Handlers.Transactions.{owned_account}

-- The user has no account of this number, whether or not somebody else has.
abbrev pub HasNo : Bytes → ℤ → Db → Type 0
HasNo user id db = All (λ a. a.id ≡ pos_part id → a.user_id ≢ user) db.accounts

account_by-HasNo_from :
    (user : Bytes) (id : ℤ) (accounts : List AccountRow)
    → All (λ a. a.id ≡ pos_part id → a.user_id ≢ user) accounts
    → where_rows (λ a. is_id id a.id && bytes_eq a.user_id user) accounts ≡ []
unfolding where_rows
account_by-HasNo_from user id [] h = refl
account_by-HasNo_from user id (a ∷ accounts) h =
    elim (Bool-cases (is_id id a.id && bytes_eq a.user_id user)) [
      | inl e ↦
          absurd
            (h.0 (is_id-eq id a.id (ground arith)) ((bytes_eq_iff a.user_id user).0 (ground arith)))
      | inr e ↦ rw e (account_by-HasNo_from user id accounts h.1)
    ]

account_by-HasNo : (user : Bytes) (id : ℤ) (db : Db) → HasNo user id db → account_by id user db ≡ []
unfolding account_by
account_by-HasNo user id db h = account_by-HasNo_from user id db.accounts h

abbrev pub not_found : HttpError
not_found = record { status = 404; message = bytes "Account not found" }

module _ {F : Type 0} ⦃fl : Float64 F⦄ where
  -- The world behind one statement that did not fail.
  abbrev pub after_one : World F → World F
  after_one w = record w { faults = (next_fault w.faults).1 }

  -- Reading an account, listing its transactions and adding one to it all give the same answer, 404
  -- `Account not found`, if the caller has no account of the number in the path, whether it is
  -- somebody else's or nobody's, as long as the database answers the query; and nothing else happens.
  pub missing_account :
      (u : Unicode) (ai : Option (Provider F)) (emitting : Bool) (r : Request F) (w : World F)
      (user : Bytes) (id : ℤ)
      → subject_of r.claims ≡ ok user
      → atoi r.path_value ≡ some id
      → (next_fault w.faults).0 ≡ none
      → HasNo user id w.db
      → (Accounts.get r w ≡ (err not_found, after_one w))
        × (Transactions.list_by_account r w ≡ (err not_found, after_one w))
        × (Transactions.create u ai emitting r w ≡ (err not_found, after_one w))
  unfolding Accounts.get Transactions.list_by_account Transactions.create owned_account current_user
      account_owned_by query_row first_or_fault account_error
  missing_account u ai emitting r w user id known numbered fine none_there =
      let e = account_by-HasNo user id w.db none_there in
      (grind (arith, e), grind (arith, e), grind (arith, e))
