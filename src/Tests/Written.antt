-- ===== src/Tests/Written.antt =====
-- A transaction that is recorded, and the list of its account behind it.
use maroon_ledger.Base.{true, arith, some, ◌+◌, ◌≡◌, refl, false, none, [], ◌∷◌}
use maroon_ledger.Base.Int.{pos, negsuc}
use maroon_ledger.Go.Bytes.{
  bytes, bytes_eq, is_empty, equal_fold, is_ascii, ascii_lower, trim_space, to_lower, valid_utf8,
}
use maroon_ledger.Go.Strconv.{atoi}
use maroon_ledger.Ai.Category.{categories, is_category}
use maroon_ledger.Database.{AccountRow, TransactionRow}
use maroon_ledger.Database.Insert.{
  insert_account, account_row_ok, is_account_type, is_text, char_count, find_account,
  transaction_row_ok, insert_transaction,
}
use maroon_ledger.Database.Select.{where_rows, account_by}
use maroon_ledger.Handlers.World.{
  World, ok, next_fault, first_or_fault, query_row, insert_outcome, insert_row,
}
use maroon_ledger.Handlers.Http.{
  Request, subject_of, current_user, account_owned_by, assign_fields, decode_body, decode_json,
}
use maroon_ledger.Handlers.Enrich.{enrich, resolved_category, assessed, enrichment_of, baseline_for}
use maroon_ledger.Ai.Severity.{is_severity}
use maroon_ledger.Ai.Types.{Provider, Reply, unavailable}
use maroon_ledger.Handlers.Transactions.Analysed.{IsAnswered, create-IsAnswered}
use maroon_ledger.Handlers.World.{query, rows_or_fault}
use maroon_ledger.Handlers.Transactions.{
  assign_transaction, resolve_date, resolve_category, new_row, scan_transaction, owned_account,
  insert_new, validate, commit, store, create_on, create,
}
use maroon_ledger.Handlers.Transactions.Listed.{IsListed, recorded_then-IsListed}
use maroon_ledger.Handlers.Accounts as Accounts
use maroon_ledger.Handlers.Accounts.Listed.{IsKnown, opened_then-IsKnown}
use maroon_ledger.Tests.Service.{savings}
use maroon_ledger.Tests.Fixtures.{
  dollars, Money, money, ascii, one_account, quiet, lunch, alice, checking,
}

abbrev lunch_row : TransactionRow
lunch_row = record {
  id = 1;
  account_id = 7;
  amount = negsuc 1199;
  category = bytes "other";
  description = bytes "Lunch at the cafe";
  date = lunch.now;
  created_at = lunch.now;
  auto_categorized = false;
  anomaly_severity = none;
  anomaly_reason = none;
  ai_provider = none;
}

abbrev fed : World Money
fed = record quiet {
  db = record one_account { transactions = lunch_row ∷ []; next_transaction = 2 };
}

lunch_recorded : create ascii none false lunch quiet ≡ (ok (201, scan_transaction lunch_row), fed)
unfolding create owned_account current_user subject_of is_empty atoi account_owned_by query_row
    next_fault first_or_fault account_by where_rows create_on decode_json decode_body assign_fields
    assign_transaction equal_fold is_ascii ascii_lower bytes bytes_eq validate trim_space to_lower
    resolve_date is_category store enrich commit insert_row insert_outcome insert_new new_row
    resolve_category insert_transaction transaction_row_ok is_text char_count find_account
    valid_utf8 categories
lunch_recorded = refl

recorded_then-IsListed_example :
    IsListed (record lunch { now = lunch.now + 1 }) quiet fed (scan_transaction lunch_row)
recorded_then-IsListed_example =
    recorded_then-IsListed ascii none false lunch (record lunch { now = lunch.now + 1 }) quiet fed
      (201, scan_transaction lunch_row) refl refl lunch_recorded

abbrev savings_row : AccountRow
savings_row = record {
  id = 8;
  name = bytes "Rainy day";
  type = bytes "savings";
  balance = pos 30000;
  created_at = savings.now;
  updated_at = savings.now;
  user_id = alice;
}

abbrev wealthy : World Money
wealthy = record quiet {
  db = record one_account { accounts = checking ∷ savings_row ∷ []; next_account = 9 };
}

savings_opened :
    Accounts.create ascii savings quiet ≡ (ok (201, Accounts.scan_account savings_row), wealthy)
unfolding Accounts.create current_user subject_of is_empty decode_json decode_body assign_fields
    equal_fold is_ascii ascii_lower bytes bytes_eq trim_space insert_row insert_outcome next_fault
    insert_account account_row_ok is_text char_count is_account_type valid_utf8
    Accounts.insert_new_account
savings_opened = refl

abbrev asked : Request Money
asked = record savings { path_value = bytes "8" }

eight-atoi : atoi asked.path_value ≡ some (pos 8)
unfolding atoi bytes
eight-atoi = refl

opened_then-IsKnown_example : IsKnown asked quiet wealthy (Accounts.scan_account savings_row)
unfolding Accounts.scan_account
opened_then-IsKnown_example =
    opened_then-IsKnown ascii savings asked quiet wealthy (201, Accounts.scan_account savings_row)
      (omega arith, tt) refl eight-atoi savings_opened

-- A provider that has one reply.
abbrev decided : Provider Money
decided = record {
  name = bytes "oracle";
  categorize = λ input.
      Reply.ok
        (record { category = bytes "dining"; confidence = dollars 1; rationale = bytes "cafe" });
  detect_anomaly = λ input history.
      Reply.ok (record { anomalous = true; severity = bytes "low"; reason = bytes "new" });
  generate_insights = λ s. Reply.err unavailable;
}

abbrev analysed_row : TransactionRow
analysed_row = record lunch_row {
  category = bytes "dining";
  auto_categorized = true;
  anomaly_severity = some (bytes "low");
  anomaly_reason = some (bytes "new");
  ai_provider = some (bytes "oracle");
}

abbrev analysed : World Money
analysed = record quiet {
  db = record one_account { transactions = analysed_row ∷ []; next_transaction = 2 };
}

lunch_analysed :
    create ascii (some decided) false lunch quiet
    ≡ (ok (201, scan_transaction analysed_row), analysed)
unfolding create owned_account current_user subject_of is_empty atoi account_owned_by query_row
    next_fault first_or_fault account_by where_rows create_on decode_json decode_body assign_fields
    assign_transaction equal_fold is_ascii ascii_lower bytes bytes_eq validate trim_space to_lower
    resolve_date is_category store enrich commit insert_row insert_outcome insert_new new_row
    resolve_category insert_transaction transaction_row_ok is_text char_count find_account
    valid_utf8 categories resolved_category assessed enrichment_of baseline_for query rows_or_fault
    is_severity
lunch_analysed = refl

create-IsAnswered_example : IsAnswered ascii decided lunch quiet (scan_transaction analysed_row)
create-IsAnswered_example =
    create-IsAnswered ascii decided false lunch quiet analysed (201, scan_transaction analysed_row)
      lunch_analysed
