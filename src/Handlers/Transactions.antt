-- ===== src/Handlers/Transactions.antt =====
-- app/internal/handlers/transactions.go: listing an account's transactions, and the write path.
pub mod Access
pub mod Analysed
pub mod Analysis
pub mod Listed
pub mod Stored
pub mod Write
use mathlib.Core.Option
use maroon_ledger.Base.{
  ℕ, zero, suc, ◌+◌, ◌-◌, ◌*◌, ◌/◌, ◌%◌, ◌^◌, ◌≤◌, ◌<◌, String, ◌≡◌, refl, sym, ap, ◌∙◌, ◌≢◌, ◌↔◌,
  ◌⊎◌, inl, inr, Bool, true, false, not, ◌&&◌, ◌||◌, Option, none, some, List, [], ◌∷◌, ◌++◌, map,
  arith, ltb, leb, ◌==◌, if◌then◌else◌, Bool-cases, Option-cases, is_some, length,
}
use maroon_ledger.Base.Int.{ℤ, pos, pos_part}
use maroon_ledger.Go.Bytes.{
  Bytes, bytes, is_empty, trim_space, to_lower, equal_fold, concat, join, Unicode,
}
use maroon_ledger.Go.Float.{Float64}
use maroon_ledger.Go.Strconv.{atoi}
use maroon_ledger.Go.Time.{parse_date}
use maroon_ledger.Models.{Transaction}
use maroon_ledger.Ai.Category.{other, is_category, category_names}
use maroon_ledger.Ai.Types.{Provider, TransactionInput}
use maroon_ledger.Pipeline.Event.{Event}
use maroon_ledger.Database.{TransactionRow, Db}
use maroon_ledger.Database.Insert.{insert_transaction}
use maroon_ledger.Database.Select.{transactions_of}
use maroon_ledger.Handlers.World.{
  Result, ok, err, Action, World, SqlError, query, insert_row, attempt, pure, raise, emit, ◌>>=◌,
  ◌>>◌,
}
use maroon_ledger.Handlers.Http.{
  Request, Handler, HttpError, Json, http_error, http_error_if, some_or, current_user, decode_json,
  text_field, number_field, account_owned_by,
}
use maroon_ledger.Handlers.Accounts.{list_error, account_error, or_error}
use maroon_ledger.Handlers.Enrich.{Enrichment, enrich}

pub record TransactionBody (F : Type 0) : Type 0 where
  pub amount : F
  pub category : Bytes
  pub description : Bytes
  pub date : Bytes

-- deref
unfoldable pub deref : Option Bytes → Bytes
deref none = []
deref (some s) = s

-- The date of a transaction: the given one, or the time of the request.
unfoldable pub resolve_date : Bytes → ℕ → Option ℕ
resolve_date s now = if is_empty s then some now else parse_date s

-- The category that is stored, and whether the model chose it.
unfoldable pub resolve_category : Bytes → Bytes → Bytes × Bool
resolve_category given enriched =
    if is_empty given
    then (if is_empty enriched then (other, false) else (enriched, true))
    else (given, false)

unfoldable pub category_message : Bytes
category_message = bytes "Category must be one of: " ++ join category_names (bytes ", ")

-- pgx writes a timestamp in microseconds.
abbrev pub store_time : ℕ → ℕ
store_time t = t / 1000 * 1000

-- What the INSERT of Create stores.
unfoldable pub new_row : ℤ → ℤ → Bytes × Bool → Bytes → ℕ → Enrichment → ℕ → TransactionRow
new_row id cents (category, auto) description date enriched now = record {
  id = 0;
  account_id = pos_part id;
  amount = cents;
  category = category;
  description = description;
  date = store_time date;
  created_at = store_time now;
  auto_categorized = auto;
  anomaly_severity = enriched.severity;
  anomaly_reason = enriched.reason;
  ai_provider = enriched.provider;
}

module _ {F : Type 0} ⦃fl : Float64 F⦄ where
  unfoldable pub scan_transaction : TransactionRow → Transaction F
  scan_transaction t = record {
    id = t.id;
    account_id = t.account_id;
    amount = fl.scan_numeric t.amount;
    category = t.category;
    description = t.description;
    date = t.date;
    created_at = t.created_at;
    auto_categorized = t.auto_categorized;
    anomaly_severity = t.anomaly_severity;
    anomaly_reason = t.anomaly_reason;
    ai_provider = t.ai_provider;
  }

  -- The account of the path, if the caller owns it: its number and its type.
  unfoldable pub owned_account : Request F → Handler F (ℤ × Bytes)
  owned_account r = do
    user ← current_user r
    id ← some_or (atoi r.path_value) 400 (bytes "Invalid account ID")
    found ← attempt (account_owned_by id user)
    type ← or_error account_error found
    pure (id, type)

  -- TransactionHandler.ListByAccount
  unfoldable pub list_by_account : Request F → Handler F (ℕ × List (Transaction F))
  list_by_account r = do
    account ← owned_account r
    found ← attempt (query (transactions_of account.0))
    rows ←
        or_error
          (list_error (bytes "Failed to query transactions") (bytes "Failed to scan transaction")
            (bytes "Failed to read transactions"))
          found
    pure (200, map scan_transaction rows)

  abbrev pub zero_transaction : TransactionBody F
  zero_transaction = record {
    amount = fl.decimal (pos 0) 0;
    category = [];
    description = [];
    date = [];
  }

  unfoldable pub assign_transaction :
      TransactionBody F → Bytes → Json F → Option (TransactionBody F)
  assign_transaction b k v =
      if equal_fold k (bytes "amount")
      then Option.map (λ x. record b { amount = x }) (number_field b.amount v)
      else if equal_fold k (bytes "category")
      then Option.map (λ s. record b { category = s }) (text_field b.category v)
      else if equal_fold k (bytes "description")
      then Option.map (λ s. record b { description = s }) (text_field b.description v)
      else if equal_fold k (bytes "date")
      then Option.map (λ s. record b { date = s }) (text_field b.date v)
      else none

  -- An amount that the column refuses fails the statement.
  unfoldable pub insert_new :
      ℤ → F → Bytes × Bool → Bytes → ℕ → Enrichment → ℕ → Db → Option TransactionRow × Db
  insert_new id amount category description date enriched now db = elim (fl.store_numeric amount) [
    | none ↦ (none, record db { next_transaction = db.next_transaction + 1 })
    | some cents ↦ insert_transaction (new_row id cents category description date enriched now) db
  ]

  -- The event of a stored transaction.
  unfoldable pub event_of : Transaction F → Event F
  event_of t = record {
    id = t.id;
    timestamp = t.date;
    amount = t.amount;
    category = t.category;
    ai_provider = deref t.ai_provider;
    anomaly_severity = deref t.anomaly_severity;
  }

-- What Create has validated: the body, trimmed, with its date and its category in lower case.
pub record ValidInput (F : Type 0) : Type 0 where
  pub amount : F
  pub description : Bytes
  pub date : ℕ
  pub category : Bytes

module _ {F : Type 0} ⦃fl : Float64 F⦄ (u : Unicode) where
  -- The checks of Create behind the decoding.
  unfoldable pub validate : TransactionBody F → ℕ → Handler F (ValidInput F)
  validate input now = do
    http_error_if (fl.is_nan input.amount || fl.is_inf input.amount) 400
        (bytes "Amount must be a finite number")
    let description = trim_space u input.description
    http_error_if (ltb 255 (length description)) 400
        (bytes "Description must be 255 characters or fewer")
    date ← some_or (resolve_date input.date now) 400 (bytes "Invalid date format, use YYYY-MM-DD")
    let category = trim_space u (to_lower u input.category)
    http_error_if (not (is_empty category) && not (is_category category)) 400 category_message
    pure (record {
      amount = input.amount;
      description = description;
      date = date;
      category = category;
    })

module _ {F : Type 0} ⦃fl : Float64 F⦄ where
  -- The end of Create: the INSERT, then the event of the stored row.
  unfoldable pub commit : Bool → (Db → Option TransactionRow × Db) → Handler F (ℕ × Transaction F)
  commit emitting insert = do
    stored ← attempt (insert_row insert)
    row ←
        or_error (λ e. record { status = 500; message = bytes "Failed to create transaction" })
          stored
    if emitting then emit (event_of (scan_transaction row)) else pure tt
    pure (201, scan_transaction row)

  -- Enrichment, and what is stored.
  unfoldable pub store :
      Option (Provider F) → Bool → ℤ × Bytes → ValidInput F → ℕ → Handler F (ℕ × Transaction F)
  store ai emitting account v now = do
    enriched ← enrich ai account.0 (record {
      description = v.description;
      amount = v.amount;
      account_type = account.1;
      category = v.category;
    })
    commit emitting (
        insert_new account.0 v.amount (resolve_category v.category enriched.category) v.description
          v.date enriched now)

  -- Create on an account that the caller owns.
  unfoldable pub create_on :
      Unicode → Option (Provider F) → Bool → Request F → ℤ × Bytes → Handler F (ℕ × Transaction F)
  create_on u ai emitting r account = do
    input ← decode_json assign_transaction zero_transaction r.body
    v ← validate u input r.now
    store ai emitting account v r.now

  -- TransactionHandler.Create
  unfoldable pub create :
      Unicode → Option (Provider F) → Bool → Request F → Handler F (ℕ × Transaction F)
  create u ai emitting r = do account ← owned_account r; create_on u ai emitting r account
