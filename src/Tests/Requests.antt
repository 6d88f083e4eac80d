-- ===== src/Tests/Requests.antt =====
-- The handlers at concrete requests.
use maroon_ledger.Base.{ℕ, ◌*◌, ◌≡◌, refl, true, some, List, [], ◌∷◌}
use maroon_ledger.Base.Int.{pos}
use maroon_ledger.Go.Bytes.{Bytes, bytes, is_empty}
use maroon_ledger.Go.Time.{day_nanos}
use maroon_ledger.Ai.Types.{Provider, TransactionInput}
use maroon_ledger.Ai.Stub.{categorize, detect_anomaly}
use maroon_ledger.Ai.Stub.Insights.{generate_insights}
use maroon_ledger.Handlers.World.{World, ok, err, at_scan}
use maroon_ledger.Handlers.World.Rules.{Same, Triple}
use maroon_ledger.Handlers.Http.{caller, Request, HttpError}
use maroon_ledger.Handlers.Enrich.{Enrichment, enrich}
use maroon_ledger.Handlers.Transactions.{owned_account, create}
use maroon_ledger.Handlers.Transactions.Access.{IsOwned, owned_account-Triple}
use maroon_ledger.Handlers.Transactions.Write.{CreateSpec, create-CreateSpec}
use maroon_ledger.Handlers.Transactions.Stored.{enrich_total}
use maroon_ledger.Go.Strconv.{atoi}
use maroon_ledger.Database.Select.{Group, sum_by, outflow_by_category, cashflow_sums}
use maroon_ledger.Database.Select.Sums.{outflow_by_category-cashflow_sums}
use maroon_ledger.Handlers.World.{next_fault}
use maroon_ledger.Handlers.Http.{subject_of}
use maroon_ledger.Handlers.Accounts as Accounts
use maroon_ledger.Handlers.Transactions as Transactions
use maroon_ledger.Handlers.Missing.{HasNo, not_found, after_one, missing_account}
use maroon_ledger.Tests.Fixtures.{one_account, alice}
use maroon_ledger.Handlers.Summary as Summary
use maroon_ledger.Handlers.Summary.Aligned.{Aligned}
use maroon_ledger.Handlers.Summary.{balance_series}
use maroon_ledger.Handlers.Summary.Series.{end_of_day, balance_series_correct}
use maroon_ledger.Tests.Fixtures.{Money, money, dollars, minus_dollars, ascii, lunch, quiet}

abbrev pub stub : Provider Money
stub = record {
  name = bytes "stub";
  categorize = categorize ascii;
  detect_anomaly = detect_anomaly;
  generate_insights = generate_insights;
}

create-CreateSpec_example : CreateSpec true lunch quiet (create ascii (some stub) true lunch quiet)
create-CreateSpec_example = create-CreateSpec ascii (some stub) true lunch quiet

abbrev lunch_input : TransactionInput Money
lunch_input = record {
  description = bytes "Lunch at the cafe";
  amount = minus_dollars 12;
  account_type = bytes "checking";
  category = [];
}

-- The baseline's query fails: the transaction is still categorised.
abbrev failing : World Money
failing = record quiet { faults = some at_scan ∷ [] }

enrich_total_example :
    let (r, w) = enrich {E = HttpError} (some stub) (pos 7) lunch_input failing in
    Same failing w × ((enriched : Enrichment) × (r ≡ ok enriched))
enrich_total_example = enrich_total (some stub) (pos 7) lunch_input failing

owned_account-Triple_example :
    Triple
      (Same quiet)
      (owned_account lunch)
      (λ account w. Same quiet w × IsOwned (caller lunch) account.0 account.1 quiet.db)
      (λ e. Same quiet)
owned_account-Triple_example = owned_account-Triple quiet lunch

abbrev march : List ℕ
march = 740000 * day_nanos ∷ 740001 * day_nanos ∷ 740002 * day_nanos ∷ []

balance_series_correct_example :
    balance_series (dollars 100) (λ d. minus_dollars 5) march
    ≡ end_of_day (λ d. minus_dollars 5) (dollars 100) march
balance_series_correct_example = balance_series_correct (λ d. minus_dollars 5) (dollars 100) march

-- Bob asks for Alice's account.
abbrev bob : Bytes
bob = bytes "bob"

abbrev snooping : Request Money
snooping = record lunch { claims = some (record { subject = bob; username = bob; groups = [] }) }

bob-HasNo : HasNo bob (pos 7) quiet.db
unfolding bytes
bob-HasNo = (λ numbered e. cc, tt)

bob-subject_of : subject_of snooping.claims ≡ ok bob
unfolding subject_of is_empty bytes
bob-subject_of = refl

seven-atoi : atoi (bytes "7") ≡ some (pos 7)
unfolding atoi bytes
seven-atoi = refl

missing_account_example :
    (Accounts.get snooping quiet ≡ (err not_found, after_one quiet))
    × (Transactions.list_by_account snooping quiet ≡ (err not_found, after_one quiet))
    × (create ascii (some stub) true snooping quiet ≡ (err not_found, after_one quiet))
unfolding next_fault
missing_account_example =
    missing_account ascii (some stub) true snooping quiet bob (pos 7) bob-subject_of seven-atoi refl
      bob-HasNo

outflow_by_category-cashflow_sums_example :
    sum_by (λ (g : Group Bytes). g.sum) (outflow_by_category alice 0 100 one_account)
    ≡ (cashflow_sums alice 0 100 one_account).1
outflow_by_category-cashflow_sums_example =
    outflow_by_category-cashflow_sums alice 0 100 one_account
