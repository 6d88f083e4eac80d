-- ===== src/Handlers/Transactions/Access.antt =====
-- Who may reach an account's transactions: currentUser, the number in the path and accountOwnedBy.
use mathlib.Core.List.{Memᴰ}
use maroon_ledger.Base.{◌≡◌, refl, ◌&&◌, Option, arith}
use maroon_ledger.Base.Int.{ℤ, pos_part}
use maroon_ledger.Go.Bytes.{Bytes, bytes_eq, bytes_eq_iff}
use maroon_ledger.Go.Float.{Float64}
use maroon_ledger.Database.{AccountRow, Db}
use maroon_ledger.Database.Select.{is_id, account_by}
use maroon_ledger.Database.Select.Rows.{first-where_rows, is_id-eq}
use maroon_ledger.Handlers.World.{World, Fault, ok, first_or_fault, query_row}
use maroon_ledger.Handlers.World.Rules.{Triple, Same, first_or_fault-row}
use maroon_ledger.Handlers.Http.{caller, Request, subject_of, current_user, account_owned_by}
use maroon_ledger.Handlers.Transactions.{owned_account}

-- An account of this number and type stands in the table, and belongs to the user.
pub record IsOwned (user : Bytes) (id : ℤ) (type : Bytes) (db : Db) : Type 0 where
  pub row : AccountRow
  pub stored : Memᴰ row db.accounts
  pub numbered : row.id ≡ pos_part id
  pub owner : row.user_id ≡ user
  pub typed : row.type ≡ type

module _ {F : Type 0} (before : World F) where
  first-IsOwned :
      (f : Option Fault) (id : ℤ) (user : Bytes) (a : AccountRow)
      → first_or_fault f (account_by id user before.db) ≡ ok a
      → IsOwned user id a.type before.db
  unfolding account_by
  first-IsOwned f id user a e =
      let p = λ (b : AccountRow). is_id id b.id && bytes_eq b.user_id user in
      let (rest, selected) = first_or_fault-row f (account_by id user before.db) a e in
      let (stored, kept) = first-where_rows p a rest before.db.accounts selected in
      record {
        row = a;
        stored = stored;
        numbered = is_id-eq id a.id (ground arith);
        owner = (bytes_eq_iff a.user_id user).0 (ground arith);
        typed = refl;
      }

  -- A request gets past owned_account only with the number of an account that its caller owns; and
  -- the tables and the events are then as they were, as they are if it does not.
  pub owned_account-Triple :
      ⦃fl : Float64 F⦄ (r : Request F)
      → Triple
          (Same before)
          (owned_account r)
          (λ account w. Same before w × IsOwned (caller r) account.0 account.1 before.db)
          (λ e. Same before)
  unfolding owned_account current_user subject_of account_owned_by query_row
  owned_account-Triple r w h = grind (arith, first-IsOwned)
