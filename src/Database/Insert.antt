-- ===== src/Database/Insert.antt =====
-- The two INSERT statements of app/internal/handlers, with the constraints of the schema. A refused
-- row has consumed its number of the sequence.
use maroon_ledger.Base.{
  ℕ, ◌+◌, Bool, true, not, ◌&&◌, ◌||◌, Option, none, some, List, [], ◌∷◌, ◌++◌, ltb, leb, ◌==◌,
  if◌then◌else◌, is_some,
}
use maroon_ledger.Go.Bytes.{Bytes, bytes, bytes_eq, valid_utf8}
use maroon_ledger.Ai.Category.{is_category}
use maroon_ledger.Ai.Severity.{is_severity}
use maroon_ledger.Database.{AccountRow, TransactionRow, Db}

no_zero : Bytes → Bool
no_zero [] = true
no_zero (c ∷ s) = not (c == 0) && no_zero s

-- What a text column takes: valid UTF-8 with no zero byte.
unfoldable pub is_text : Bytes → Bool
unfolding no_zero
is_text s = valid_utf8 s && no_zero s

-- The characters of a text: its bytes but for continuation bytes.
unfoldable pub char_count : Bytes → ℕ
char_count [] = 0
char_count (c ∷ s) = (if leb 128 c && ltb c 192 then 0 else 1) + char_count s

-- The CHECK of the column accounts.type.
unfoldable pub is_account_type : Bytes → Bool
is_account_type s =
    bytes_eq s (bytes "checking")
    || (bytes_eq s (bytes "savings") || (bytes_eq s (bytes "credit") || bytes_eq s (bytes "loan")))

abbrev pub or_null : (Bytes → Bool) → Option Bytes → Bool
or_null test none = true
or_null test (some s) = test s

-- The row with this number; numbers are unique.
unfoldable pub find_account : ℕ → List AccountRow → Option AccountRow
find_account id [] = none
find_account id (a ∷ rest) = if a.id == id then some a else find_account id rest

unfoldable pub account_row_ok : AccountRow → Bool
account_row_ok a =
    is_text a.name && (leb (char_count a.name) 255 && (is_account_type a.type && is_text a.user_id))

-- The constraints of a transaction: its account exists, its category and its severity are in their
-- closed sets, and its texts are texts.
unfoldable pub transaction_row_ok : Db → TransactionRow → Bool
transaction_row_ok db t =
    is_some (find_account t.account_id db.accounts)
    && (is_category t.category
        && (or_null is_severity t.anomaly_severity
            && (is_text t.description
                && (leb (char_count t.description) 255
                    && (or_null is_text t.anomaly_reason && or_null is_text t.ai_provider)))))

-- INSERT INTO accounts … RETURNING
unfoldable pub insert_account : AccountRow → Db → Option AccountRow × Db
insert_account a db =
    let row = record a { id = db.next_account } in
    let used = record db { next_account = db.next_account + 1 } in
    if account_row_ok row
    then (some row, record used { accounts = db.accounts ++ row ∷ [] })
    else (none, used)

-- INSERT INTO transactions … RETURNING
unfoldable pub insert_transaction : TransactionRow → Db → Option TransactionRow × Db
insert_transaction t db =
    let row = record t { id = db.next_transaction } in
    let used = record db { next_transaction = db.next_transaction + 1 } in
    if transaction_row_ok db row
    then (some row, record used { transactions = db.transactions ++ row ∷ [] })
    else (none, used)
