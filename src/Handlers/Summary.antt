-- ===== src/Handlers/Summary.antt =====
-- app/internal/handlers/summary.go: the dashboard in one response.
pub mod Series
pub mod Aligned
use mathlib.Core.List.{reverse}
use maroon_ledger.Base.{
  ℕ, zero, suc, ◌+◌, ◌-◌, ◌*◌, ◌/◌, ◌%◌, ◌^◌, ◌≤◌, ◌<◌, String, ◌≡◌, refl, sym, ap, ◌∙◌, ◌≢◌, ◌↔◌,
  ◌⊎◌, inl, inr, Bool, true, false, not, ◌&&◌, ◌||◌, Option, none, some, List, [], ◌∷◌, ◌++◌, map,
  arith, ltb, leb, ◌==◌, if◌then◌else◌, Bool-cases, Option-cases, is_some, length,
}
use maroon_ledger.Base.Int.{ℤ, pos, negsuc}
use maroon_ledger.Go.Bytes.{Bytes, bytes, bytes_eq, is_empty}
use maroon_ledger.Go.Float.{Float64}
use maroon_ledger.Go.Strconv.{atoi}
use maroon_ledger.Go.Time.{format_date, add_days, sub_days, start_of_day}
use maroon_ledger.Models.{Account}
use maroon_ledger.Database.{Db}
use maroon_ledger.Database.Select.{Delta, Joined, accounts_of, deltas_of, alerts_of}
use maroon_ledger.Handlers.World.{Action, SqlError, query, attempt, pure, ◌>>=◌}
use maroon_ledger.Handlers.Http.{Request, Handler, HttpError, query_value, current_user, some_or}
use maroon_ledger.Handlers.Accounts.{or_error, scan_account}
use maroon_ledger.Handlers.Aggregate.{Bucket, round2, category_outflow, cashflow}

abbrev pub default_summary_days : ℕ
default_summary_days = 90

abbrev pub max_summary_days : ℕ
max_summary_days = 1095

-- accountSummary
pub record AccountSummary (F : Type 0) : Type 0 where
  pub account : Account F
  pub sparkline : List F

-- balancePoint
pub record BalancePoint (F : Type 0) : Type 0 where
  pub date : Bytes
  pub balance : F

-- anomalyHeadline
pub record Headline (F : Type 0) : Type 0 where
  pub id : ℕ
  pub account_id : ℕ
  pub account_name : Bytes
  pub description : Bytes
  pub amount : F
  pub severity : Bytes
  pub reason : Bytes
  pub date : Bytes

-- summaryResponse
pub record SummaryResponse (F : Type 0) : Type 0 where
  pub net_balance : F
  pub total_inflow : F
  pub total_outflow : F
  pub savings_rate : F
  pub period_start : Bytes
  pub period_end : Bytes
  pub accounts : List (AccountSummary F)
  pub balance_series : List (BalancePoint F)
  pub by_category : List (Bucket F)
  pub anomalies : List (Headline F)

-- The window that the parameter `days` asks for.
abbrev days_in_window : Option ℤ → Option ℕ
days_in_window none = none
days_in_window (some (negsuc n)) = none
days_in_window (some (pos n)) = if leb 1 n && leb n max_summary_days then some n else none

unfoldable pub parse_days : Bytes → Option ℕ
parse_days raw = if is_empty raw then some default_summary_days else days_in_window (atoi raw)

-- `count` days, one after the other, from `base` on.
unfoldable pub timeline_from : ℕ → ℕ → List ℕ
timeline_from base zero = []
timeline_from base (suc count) = base ∷ timeline_from (add_days base 1) count

abbrev failing : Bytes → SqlError → HttpError
failing message e = record { status = 500; message = message }

module _ {F : Type 0} ⦃fl : Float64 F⦄ where
  abbrev zero_float : F
  zero_float = fl.decimal (pos 0) 0

  -- `deltas[account][day]`: the rows of dailyDeltas have distinct keys; a missing key reads as 0.
  unfoldable pub delta_on : List Delta → ℕ → Bytes → F
  delta_on [] id day = zero_float
  delta_on (d ∷ ds) id day =
      if d.account_id == id && bytes_eq (format_date d.day) day
      then fl.scan_numeric d.amount
      else delta_on ds id day

  -- The loop of balanceSeries, over the timeline from its end: `series` holds what lies behind.
  unfoldable pub walk_back : (Bytes → F) → F → List ℕ → List F → List F
  walk_back deltas running [] series = series
  walk_back deltas running (t ∷ earlier) series =
      walk_back deltas (fl.sub running (deltas (format_date t))) earlier (round2 running ∷ series)

  -- balanceSeries
  unfoldable pub balance_series : F → (Bytes → F) → List ℕ → List F
  balance_series current deltas timeline = walk_back deltas current (reverse timeline) []

  -- aggregate[i] += v
  unfoldable pub add_series : List F → List F → List F
  add_series [] vs = []
  add_series (a ∷ rest) [] = a ∷ rest
  add_series (a ∷ rest) (v ∷ vs) = fl.add a v ∷ add_series rest vs

  -- make([]float64, n)
  unfoldable pub zeros : ℕ → List F
  zeros zero = []
  zeros (suc n) = zero_float ∷ zeros n

  unfoldable pub total_balance : F → List (Account F) → F
  total_balance sum [] = sum
  total_balance sum (a ∷ rest) = total_balance (fl.add sum a.balance) rest

  -- The loop over the accounts: the aggregate, and each account with its sparkline.
  unfoldable pub summarize_accounts :
      List Delta → List ℕ → List (Account F) → List F → List F × List (AccountSummary F)
  summarize_accounts deltas timeline [] aggregate = (aggregate, [])
  summarize_accounts deltas timeline (a ∷ rest) aggregate =
      let series = balance_series a.balance (delta_on deltas a.id) timeline in
      let (total, summaries) =
        summarize_accounts deltas timeline rest (add_series aggregate series) in
      (total, record { account = a; sparkline = series } ∷ summaries)

  unfoldable pub balance_points : List ℕ → List F → List (BalancePoint F)
  balance_points [] vs = []
  balance_points (t ∷ ts) [] = []
  balance_points (t ∷ ts) (v ∷ vs) =
      record { date = format_date t; balance = round2 v } ∷ balance_points ts vs

  -- The columns of one alert; COALESCE turns a missing reason into the empty text.
  unfoldable pub scan_headline : Joined → Headline F
  scan_headline j = record {
    id = j.t.id;
    account_id = j.t.account_id;
    account_name = j.a.name;
    description = j.t.description;
    amount = fl.scan_numeric j.t.amount;
    severity = elim j.t.anomaly_severity [ none ↦ [] | some s ↦ s ];
    reason = elim j.t.anomaly_reason [ none ↦ [] | some s ↦ s ];
    date = format_date j.t.date;
  }

  -- Only against income is the rate meaningful.
  unfoldable pub savings_rate : F × F → F
  savings_rate (inflow, outflow) =
      if fl.lt zero_float inflow
      then round2 (fl.mul (fl.div (fl.sub inflow outflow) inflow) (fl.decimal (pos 100) 0))
      else zero_float

  -- The response, from what the queries found.
  unfoldable pub respond :
      ℕ
      → ℕ
      → List (Account F)
      → List Delta
      → List (Bucket F)
      → F × F
      → List Joined
      → SummaryResponse F
  respond now days accounts deltas categories flow alerts =
      let start = sub_days now days in
      let timeline = timeline_from (start_of_day start) (days + 1) in
      let (aggregate, summaries) = summarize_accounts deltas timeline accounts (zeros (days + 1)) in
      record {
        net_balance = round2 (total_balance zero_float accounts);
        total_inflow = flow.0;
        total_outflow = flow.1;
        savings_rate = savings_rate flow;
        period_start = format_date start;
        period_end = format_date now;
        accounts = summaries;
        balance_series = balance_points timeline aggregate;
        by_category = categories;
        anomalies = map scan_headline alerts;
      }

  -- Get behind the choice of the window: the queries in their order.
  unfoldable pub load : Bytes → ℕ → ℕ → Handler F (ℕ × SummaryResponse F)
  load user now days = do
    let start = sub_days now days
    found_accounts ← attempt (query (accounts_of user))
    rows ← or_error (failing (bytes "Failed to load accounts")) found_accounts
    found_deltas ← attempt (query (deltas_of user start))
    deltas ← or_error (failing (bytes "Failed to load activity")) found_deltas
    found_categories ← attempt (category_outflow user start now)
    categories ← or_error (failing (bytes "Failed to summarize categories")) found_categories
    found_flow ← attempt (cashflow user start now)
    flow ← or_error (failing (bytes "Failed to summarize cash flow")) found_flow
    found_alerts ← attempt (query (alerts_of user start))
    alerts ← or_error (failing (bytes "Failed to load anomalies")) found_alerts
    pure (200, respond now days (map scan_account rows) deltas categories flow alerts)

  -- SummaryHandler.Get
  unfoldable pub get : Request F → Handler F (ℕ × SummaryResponse F)
  get r = do
    user ← current_user r
    days ←
        some_or (parse_days (query_value (bytes "days") r.query_values)) 400
          (bytes "days must be between 1 and 1095")
    load user r.now days
