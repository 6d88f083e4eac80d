-- ===== src/Handlers/Accounts/Open.antt =====
-- AccountHandler.Create: what it stores, and what a request that fails leaves behind.
use mathlib.Core.Path.{subst}
use maroon_ledger.Base.{
  ℕ, ◌+◌, ◌≡◌, refl, ◌∙◌, ◌⊎◌, inl, inr, true, Option, none, some, [], ◌∷◌, ◌++◌, arith,
  Option-cases,
}
use maroon_ledger.Go.Bytes.{Bytes, bytes, Unicode, trim_space}
use maroon_ledger.Go.Float.{Float64}
use maroon_ledger.Models.{Account}
use maroon_ledger.Database.{AccountRow, Db}
use maroon_ledger.Database.Insert.{insert_account, account_row_ok}
use maroon_ledger.Handlers.World.{
  World, Result, ok, err, SqlError, insert_row, attempt, pure, ◌>>=◌, ◌>>◌,
}
use maroon_ledger.Handlers.World.Rules.{
  Same, SameTables, not_run, refused, stored, Inserted, insert_row-Inserted, bind-step,
}
use maroon_ledger.Handlers.Http.{
  caller-subject_of, Request, caller, HttpError, Handler, decode_json, current_user, subject_of,
}
use maroon_ledger.Handlers.Http.Decode.{decode_json-steady}
use maroon_ledger.Handlers.Accounts.{
  account_row, zero_account, assign_account, check_account, insert_new_account, scan_account,
  create, or_error,
}

-- `row` is `db'`'s one new account beside those of `db`: it is the user's, the constraints of the
-- table hold of it, and its number is a new one. The transactions are the same.
pub record IsOpened (user : Bytes) (row : AccountRow) (db db' : Db) : Type 0 where
  pub appended : db'.accounts ≡ db.accounts ++ row ∷ []
  pub kept : db'.transactions ≡ db.transactions
  pub accepted : account_row_ok row ≡ true
  pub owner : row.user_id ≡ user
  pub numbered : row.id ≡ db.next_account
  pub advanced : db'.next_account ≡ db.next_account + 1

insert_account-IsOpened :
    (a : AccountRow) (db db' : Db) (row : AccountRow)
    → insert_account a db ≡ (some row, db')
    → IsOpened a.user_id row db db'
unfolding insert_account
insert_account-IsOpened a db db' row h = ground arith

insert_account-refused :
    (a : AccountRow) (db db' : Db) → insert_account a db ≡ (none, db') → SameTables db db'
unfolding insert_account
insert_account-refused a db db' h = ground arith

-- What the request has done when it returns, given the world that it found. If the reply of the
-- INSERT was lost, an error leaves one account more.
abbrev pub OpenSpec :
    {F : Type 0} ⦃fl : Float64 F⦄
    → Bytes
    → World F
    → Result HttpError (ℕ × Account F) × World F
    → Type 0
OpenSpec user before (ok answer, w) =
    (row : AccountRow) × IsOpened user row before.db w.db
    × (answer ≡ (201, scan_account row))
    × (w.emitted ≡ before.emitted)
OpenSpec user before (err e, w) =
    (SameTables before.db w.db ⊎ ((row : AccountRow) × IsOpened user row before.db w.db))
    × (w.emitted ≡ before.emitted)

module _ {F : Type 0} ⦃fl : Float64 F⦄ where
  -- What stands behind the INSERT.
  abbrev finish : Result SqlError AccountRow → Handler F (ℕ × Account F)
  finish r = do
    row ← or_error (λ e. record { status = 500; message = bytes "Failed to create account" }) r
    pure (201, scan_account row)

module _ {F : Type 0} ⦃fl : Float64 F⦄ (user : Bytes) (before : World F) where
  insert_new_account-IsOpened :
      (name type : Bytes) (balance : F) (now : ℕ) (db : Db) (row : AccountRow) (db' : Db)
      → insert_new_account name type balance user now db ≡ (some row, db')
      → IsOpened user row db db'
  unfolding insert_new_account
  insert_new_account-IsOpened name type balance now db row db' h =
      elim (Option-cases (fl.store_numeric balance)) [
        | inl bad ↦ ground arith
        | inr (cents, e) ↦
            insert_account-IsOpened (account_row name type cents user now) db db' row (ground arith)
      ]

  insert_new_account-refused :
      (name type : Bytes) (balance : F) (now : ℕ) (db db' : Db)
      → insert_new_account name type balance user now db ≡ (none, db')
      → SameTables db db'
  unfolding insert_new_account
  insert_new_account-refused name type balance now db db' h =
      elim (Option-cases (fl.store_numeric balance)) [
        | inl bad ↦ ground arith
        | inr (cents, e) ↦
            insert_account-refused (account_row name type cents user now) db db' (ground arith)
      ]

  finish-OpenSpec :
      (insert : Db → Option AccountRow × Db)
      → ((row : AccountRow) (db' : Db)
          → insert before.db ≡ (some row, db')
          → IsOpened user row before.db db')
      → ((db' : Db) → insert before.db ≡ (none, db') → SameTables before.db db')
      → (r : Result SqlError AccountRow) (w : World F)
      → Inserted (insert before.db) before.db (r, w.db)
      → w.emitted ≡ before.emitted
      → OpenSpec user before (finish r w)
  finish-OpenSpec insert opens refuses (ok row) w done silent =
      (row, opens row w.db done, refl, silent)
  finish-OpenSpec insert opens refuses (err e) w (not_run same) silent =
      (inl (rw same (refl, refl, omega arith)), silent)
  finish-OpenSpec insert opens refuses (err e) w (refused done) silent =
      (inl (refuses w.db done), silent)
  finish-OpenSpec insert opens refuses (err e) w (stored row done) silent =
      (inr (row, opens row w.db done), silent)

  commit-OpenSpec :
      (name type : Bytes) (balance : F) (now : ℕ) (w : World F)
      → Same before w
      → OpenSpec user before
          ((attempt (insert_row (insert_new_account name type balance user now)) >>= finish) w)
  commit-OpenSpec name type balance now w same =
      let insert = insert_new_account name type balance user now in
      let (r, w') = insert_row insert w in
      let (done, silent) = insert_row-Inserted insert w in
      finish-OpenSpec insert (insert_new_account-IsOpened name type balance now before.db)
        (insert_new_account-refused name type balance now before.db) r w'
        (subst (λ (db : Db). Inserted (insert db) db (r, w'.db)) same.0 done) (silent ∙ same.1)

  checked-OpenSpec :
      (name type : Bytes) (balance : F) (now : ℕ) (w : World F)
      → Same before w
      → OpenSpec user before (
          (check_account name type
              >> (attempt (insert_row (insert_new_account name type balance user now)) >>= finish))
            w)
  checked-OpenSpec name type balance now w same =
      ground (arith, commit-OpenSpec name type balance now w same)

module _ {F : Type 0} ⦃fl : Float64 F⦄ where
  -- The handler behind its identity.
  abbrev create_as : Unicode → Request F → Bytes → Handler F (ℕ × Account F)
  create_as u r user = do
    input ← decode_json assign_account zero_account r.body
    let name = trim_space u input.name
    check_account name input.type
    done ← attempt (insert_row (insert_new_account name input.type input.balance user r.now))
    finish done

  create_as-OpenSpec :
      (u : Unicode) (r : Request F) (user : Bytes) (before : World F)
      → OpenSpec user before (create_as u r user before)
  create_as-OpenSpec u r user before =
      bind-step (OpenSpec user before) (decode_json assign_account zero_account r.body)
        (λ input.
          check_account (trim_space u input.name) input.type
          >> (attempt (
                insert_row (
                  insert_new_account (trim_space u input.name) input.type input.balance user r.now))
              >>= finish))
        before
        (λ input h.
          checked-OpenSpec user before (trim_space u input.name) input.type input.balance r.now
            (decode_json {F = F} assign_account zero_account r.body before).1
            (rw (decode_json-steady assign_account zero_account r.body before) (refl, refl)))
        (λ e h.
          rw (decode_json-steady assign_account zero_account r.body before)
            (inl (refl, refl, omega arith), refl))

  -- What a request to open an account does, whatever fails on the way. If it answers, exactly one
  -- account was added, with a new number and the caller as its owner, it meets the table's
  -- constraints, and the response shows it. If it fails, the tables are as they were or hold that one
  -- account more. No event is emitted.
  pub create-OpenSpec :
      (u : Unicode) (r : Request F) (before : World F)
      → OpenSpec (caller r) before (create u r before)
  unfolding create current_user subject_of
  create-OpenSpec u r before =
      bind-step (OpenSpec (caller r) before) (current_user r) (create_as u r) before
        (λ user h. rw (← caller-subject_of r user h) (create_as-OpenSpec u r user before))
        (λ e h. (inl (refl, refl, omega arith), refl))
