-- ===== src/Tests/Providers.antt =====
-- The allowlists, the stub provider and the rate limiter at concrete inputs.
use mathlib.Core.List.{Mem}
use maroon_ledger.Base.{
  is_some, leb, ◌+◌, ℕ, suc, ◌*◌, ◌≤◌, ◌≡◌, refl, ◌↔◌, true, false, some, List, [], ◌∷◌, arith, ltb,
  ◌==◌, if◌then◌else◌,
}
use maroon_ledger.Base.Int.{◌*ℤ◌}
use maroon_ledger.Go.Bytes.{Bytes, bytes, bytes_eq, is_empty}
use maroon_ledger.Ai.Category.{categories, other, is_category, valid_category, category_names}
use maroon_ledger.Ai.Category.Allowlist.{is_category_iff_listed, valid_category_closed}
use maroon_ledger.Ai.Severity.{is_severity, valid_severity, severity_none, severity_high}
use maroon_ledger.Ai.Severity.{valid_severity_closed}
use maroon_ledger.Ai.Types.{Reply, TransactionInput, HistoricalStat, AnomalyAssessment}
use maroon_ledger.Ai.Stub.{
  categorize, detect_anomaly, assess, choose_scale, own_scale, assess_inflow, assess_outflow,
}
use maroon_ledger.Ai.Stub.Keywords.{InAllowlist, categorize-InAllowlist}
use maroon_ledger.Ai.Stub.Anomaly.{
  Consistent, rank, LtTransitive, detect_anomaly-Consistent, detect_anomaly_like_with_like,
  detect_anomaly_fallback, detect_anomaly_inflow, detect_anomaly-monotone,
}
use maroon_ledger.Ratelimit.{TokenBucket, new, middleware, allow, evict}
use maroon_ledger.Ratelimit.Eviction.{
  Op, call, sweep, answers, calls_only, FullIsFresh, eviction_unobservable,
}
use maroon_ledger.Ratelimit.Isolation.{ChargesOwn, middleware-ChargesOwn}
use maroon_ledger.Tests.Fixtures.{
  Money, cents, not_a_number, money, dollars, minus_dollars, ascii, alice, alice_claims,
}

valid_category_trims : valid_category (bytes "  Groceries ") ≡ other
unfolding valid_category categories bytes bytes_eq
valid_category_trims = refl

valid_category_closed_example :
    (is_category (valid_category (bytes "gambling")) ≡ true)
    × (is_category (bytes "gambling") ≡ true → valid_category (bytes "gambling") ≡ bytes "gambling")
    × (is_category (bytes "gambling") ≡ false → valid_category (bytes "gambling") ≡ other)
valid_category_closed_example = valid_category_closed (bytes "gambling")

dining_is_listed : (is_category (bytes "dining") ≡ true) ↔ Mem (bytes "dining") category_names
dining_is_listed = is_category_iff_listed (bytes "dining")

critical_is_none :
    (is_severity (valid_severity (bytes "critical")) ≡ true)
    × (is_severity (bytes "critical") ≡ true → valid_severity (bytes "critical") ≡ bytes "critical")
    × (is_severity (bytes "critical") ≡ false → valid_severity (bytes "critical") ≡ severity_none)
critical_is_none = valid_severity_closed (bytes "critical")

abbrev coffee : Money → TransactionInput Money
coffee amount = record {
  description = bytes "COFFEE SHOP 12";
  amount = amount;
  account_type = bytes "checking";
  category = bytes "dining";
}

abbrev history : Bytes → ℕ → HistoricalStat Money
history category mean = record {
  category = category;
  count = 4;
  total_amount = minus_dollars (4 * mean);
  mean_amount = minus_dollars mean;
  max_amount = minus_dollars (2 * mean);
}

abbrev groceries_and_dining : List (HistoricalStat Money)
groceries_and_dining = history (bytes "groceries") 90 ∷ history (bytes "dining") 10 ∷ []

coffee_is_listed : InAllowlist (categorize ascii (coffee (minus_dollars 5)))
coffee_is_listed = categorize-InAllowlist ascii (coffee (minus_dollars 5))

verdict_agrees : Consistent (detect_anomaly (coffee (minus_dollars 50)) groceries_and_dining)
verdict_agrees = detect_anomaly-Consistent (coffee (minus_dollars 50)) groceries_and_dining

abbrev severity_in : Reply AnomalyAssessment → Bytes
severity_in (Reply.ok a) = a.severity
severity_in (Reply.err e) = []

dear_coffee :
    severity_in (detect_anomaly (coffee (minus_dollars 50)) groceries_and_dining) ≡ severity_high
unfolding detect_anomaly bytes assess choose_scale is_empty own_scale bytes_eq assess_inflow
    assess_outflow ◌*ℤ◌
dear_coffee = refl

detect_anomaly_like_with_like_example :
    detect_anomaly (coffee (minus_dollars 50)) groceries_and_dining
    ≡ detect_anomaly (coffee (minus_dollars 50)) (history (bytes "dining") 10 ∷ [])
unfolding bytes bytes_eq is_empty
detect_anomaly_like_with_like_example =
    detect_anomaly_like_with_like (coffee (minus_dollars 50)) (history (bytes "groceries") 90 ∷ [])
      (history (bytes "dining") 10) [] refl (refl, tt) refl (omega arith)

no_history_falls_back :
    detect_anomaly (coffee (minus_dollars 50)) (history (bytes "groceries") 90 ∷ [])
    ≡ detect_anomaly
        (record (coffee (minus_dollars 50)) { category = [] })
        (history (bytes "groceries") 90 ∷ [])
unfolding bytes bytes_eq
no_history_falls_back =
    detect_anomaly_fallback (coffee (minus_dollars 50)) (history (bytes "groceries") 90 ∷ [])
      (refl, tt)

salary_not_flagged : rank (detect_anomaly (coffee (dollars 500)) groceries_and_dining) ≤ 1
unfolding ◌*ℤ◌
salary_not_flagged = detect_anomaly_inflow (coffee (dollars 500)) groceries_and_dining refl

money-LtTransitive : LtTransitive money
money-LtTransitive (cents a) (cents b) (cents c) h k = ground arith
money-LtTransitive not_a_number b c h k = ground arith
money-LtTransitive (cents a) not_a_number c h k = ground arith
money-LtTransitive (cents a) (cents b) not_a_number h k = ground arith

detect_anomaly-monotone_example :
    rank (detect_anomaly (coffee (minus_dollars 25)) groceries_and_dining)
    ≤ rank (detect_anomaly (coffee (minus_dollars 50)) groceries_and_dining)
unfolding ◌*ℤ◌
detect_anomaly-monotone_example =
    detect_anomaly-monotone money-LtTransitive (coffee (minus_dollars 25)) (minus_dollars 50)
      groceries_and_dining refl refl refl

-- A bucket of two tokens that never refills: the number of tokens spent.
abbrev pub two_tokens : TokenBucket ℕ
two_tokens = record {
  fresh = 0;
  allow = λ t spent. if ltb spent 2 then (true, suc spent) else (false, spent);
  is_full = λ t spent. spent == 0;
}

-- A bucket of one token, back a hundred nanoseconds after it was spent: when it will be back.
abbrev one_token : TokenBucket ℕ
one_token = record {
  fresh = 0;
  allow = λ t back. if leb back t then (true, t + 100) else (false, back);
  is_full = λ t back. leb back t;
}

one_token-FullIsFresh : FullIsFresh one_token
one_token-FullIsFresh t back h [] a = refl
one_token-FullIsFresh t back h (u ∷ ts) a =
    let here : leb back u ≡ true = ground arith in
    let fresh : leb 0 u ≡ true = ground arith in rw (here, fresh) refl

abbrev run_of_calls : List Op
run_of_calls =
    call alice 1
    ∷ sweep 600000000002
    ∷ call alice 600000000003
    ∷ sweep 600000000004
    ∷ call alice 600000000005
    ∷ []

-- The sweep finds the bucket idle and full, and drops it.
bucket_dropped :
    is_some ((evict one_token 600000000002 (allow one_token alice 1 new).1).buckets alice) ≡ false
unfolding evict allow new bytes bytes_eq
bucket_dropped = refl

eviction_unobservable_example :
    answers one_token run_of_calls new ≡ answers one_token (calls_only run_of_calls) new
eviction_unobservable_example =
    eviction_unobservable one_token one_token-FullIsFresh run_of_calls
      (omega arith, (omega arith, (omega arith, (omega arith, (omega arith, tt)))))

middleware-ChargesOwn_example :
    ChargesOwn two_tokens
      (some alice_claims)
      5
      new
      (middleware two_tokens (some alice_claims) 5 new)
middleware-ChargesOwn_example = middleware-ChargesOwn two_tokens (some alice_claims) 5 new
