-- ===== src/Handlers/Accounts.antt =====
-- app/internal/handlers/accounts.go.
pub mod Open
pub mod Listed
use mathlib.Core.Option
use maroon_ledger.Base.{ℕ, ◌+◌, not, Option, none, some, List, [], map, ltb, if◌then◌else◌, length}
use maroon_ledger.Base.Int.{ℤ, pos}
use maroon_ledger.Go.Bytes.{Bytes, bytes, is_empty, trim_space, equal_fold, Unicode}
use maroon_ledger.Go.Float.{Float64}
use maroon_ledger.Go.Strconv.{atoi}
use maroon_ledger.Models.{Account}
use maroon_ledger.Database.{AccountRow, Db}
use maroon_ledger.Database.Insert.{insert_account, is_account_type}
use maroon_ledger.Database.Select.{accounts_of, account_by}
use maroon_ledger.Handlers.World.{
  Result, ok, err, at_query, at_scan, at_end, SqlError, no_rows, failed, query, query_row,
  insert_row, attempt, pure, raise, ◌>>=◌, ◌>>◌,
}
use maroon_ledger.Handlers.Http.{
  Request, Handler, HttpError, Json, http_error, some_or, current_user, decode_json, text_field,
  number_field,
}

pub record AccountBody (F : Type 0) : Type 0 where
  pub name : Bytes
  pub type : Bytes
  pub balance : F

-- The messages of a handler for a failed list: at the query, at a row, at the end.
unfoldable pub list_error : Bytes → Bytes → Bytes → SqlError → HttpError
list_error querying scanning reading no_rows = record { status = 500; message = querying }
list_error querying scanning reading (failed at_query) = record { status = 500; message = querying }
list_error querying scanning reading (failed at_scan) = record { status = 500; message = scanning }
list_error querying scanning reading (failed at_end) = record { status = 500; message = reading }

-- `sql.ErrNoRows` is reported as a missing account, anything else as a failure.
unfoldable pub account_error : SqlError → HttpError
account_error no_rows = record { status = 404; message = bytes "Account not found" }
account_error (failed f) = record { status = 500; message = bytes "Failed to query account" }

abbrev pub or_error : {F A : Type 0} → (SqlError → HttpError) → Result SqlError A → Handler F A
or_error describe (ok a) = pure a
or_error describe (err e) = raise (describe e)

-- The columns of a new account; the number is the database's to choose.
abbrev pub account_row : Bytes → Bytes → ℤ → Bytes → ℕ → AccountRow
account_row name type cents user now = record {
  id = 0;
  name = name;
  type = type;
  balance = cents;
  created_at = now;
  updated_at = now;
  user_id = user;
}

module _ {F : Type 0} ⦃fl : Float64 F⦄ where
  -- The columns scanned into a models.Account; the owner is not among them.
  unfoldable pub scan_account : AccountRow → Account F
  scan_account a = record {
    id = a.id;
    name = a.name;
    type = a.type;
    user_id = [];
    balance = fl.scan_numeric a.balance;
    created_at = a.created_at;
    updated_at = a.updated_at;
  }

  -- AccountHandler.List
  unfoldable pub list : Request F → Handler F (ℕ × List (Account F))
  list r = do
    user ← current_user r
    found ← attempt (query (accounts_of user))
    rows ←
        or_error
          (list_error (bytes "Failed to query accounts") (bytes "Failed to scan account")
            (bytes "Failed to read accounts"))
          found
    pure (200, map scan_account rows)

  -- AccountHandler.Get
  unfoldable pub get : Request F → Handler F (ℕ × Account F)
  get r = do
    user ← current_user r
    id ← some_or (atoi r.path_value) 400 (bytes "Invalid account ID")
    found ← attempt (query_row (account_by id user))
    row ← or_error account_error found
    pure (200, scan_account row)

  abbrev pub zero_account : AccountBody F
  zero_account = record { name = []; type = []; balance = fl.decimal (pos 0) 0 }

  abbrev pub assign_account : AccountBody F → Bytes → Json F → Option (AccountBody F)
  assign_account b k v =
      if equal_fold k (bytes "name")
      then Option.map (λ s. record b { name = s }) (text_field b.name v)
      else if equal_fold k (bytes "type")
      then Option.map (λ s. record b { type = s }) (text_field b.type v)
      else if equal_fold k (bytes "balance")
      then Option.map (λ x. record b { balance = x }) (number_field b.balance v)
      else none

  -- The switch of Create.
  abbrev pub check_account : Bytes → Bytes → Handler F (Unit {0})
  check_account name type =
      if is_empty name
      then http_error 400 (bytes "Name is required")
      else if ltb 255 (length name)
      then http_error 400 (bytes "Name must be 255 characters or fewer")
      else if not (is_account_type type)
      then http_error 400 (bytes "Type must be one of: checking, savings, credit, loan")
      else pure tt

  -- The row that the INSERT of Create describes; a balance that the column refuses fails it.
  unfoldable pub insert_new_account : Bytes → Bytes → F → Bytes → ℕ → Db → Option AccountRow × Db
  insert_new_account name type balance user now db = elim (fl.store_numeric balance) [
    | none ↦ (none, record db { next_account = db.next_account + 1 })
    | some cents ↦ insert_account (account_row name type cents user now) db
  ]

  -- AccountHandler.Create
  unfoldable pub create : Unicode → Request F → Handler F (ℕ × Account F)
  create u r = do
    user ← current_user r
    input ← decode_json assign_account zero_account r.body
    let name = trim_space u input.name
    check_account name input.type
    stored ← attempt (insert_row (insert_new_account name input.type input.balance user r.now))
    row ← or_error (λ e. record { status = 500; message = bytes "Failed to create account" }) stored
    pure (201, scan_account row)
