-- ===== src/Handlers/Insights.antt =====
-- app/internal/handlers/insights.go: spending insights, and the caller's own identity.
use maroon_ledger.Base.{ℕ, not, Option, some, List, map, ltb, if◌then◌else◌}
use maroon_ledger.Go.Bytes.{Bytes, bytes, is_empty}
use maroon_ledger.Go.Float.{Float64}
use maroon_ledger.Go.Time.{parse_date, format_date, sub_days}
use maroon_ledger.Ai.Types.{
  Provider, Reply, ProviderError, unavailable, unexpected, SpendingSummary, CategorySpend,
}
use maroon_ledger.Auth.Claims.{Claims}
use maroon_ledger.Handlers.World.{Action, SqlError, attempt, pure, raise, ◌>>=◌, ◌>>◌}
use maroon_ledger.Handlers.Http.{
  Request, Handler, HttpError, http_error_if, query_value, current_user, some_or,
}
use maroon_ledger.Handlers.Accounts.{or_error}
use maroon_ledger.Handlers.Aggregate.{Bucket, category_outflow, cashflow}

-- insightsResponse
pub record InsightsResponse (F : Type 0) : Type 0 where
  pub summary : Bytes
  pub observations : List Bytes
  pub recommendations : List Bytes
  pub provider : Bytes
  pub period_start : Bytes
  pub period_end : Bytes
  pub total_inflow : F
  pub total_outflow : F
  pub by_category : List (Bucket F)

-- A date parameter: absent, it leaves the default.
unfoldable pub date_param : Bytes → ℕ → Option ℕ
date_param raw fallback = if is_empty raw then some fallback else parse_date raw

unfoldable pub insights_error : ProviderError → HttpError
insights_error unavailable = record {
  status = 503;
  message = bytes "Insight generation is temporarily unavailable";
}
insights_error unexpected = record { status = 500; message = bytes "Failed to generate insights" }

abbrev pub reply_or_error : {F A : Type 0} → Reply A → Handler F A
reply_or_error (Reply.ok a) = pure a
reply_or_error (Reply.err e) = raise (insights_error e)

module _ {F : Type 0} ⦃fl : Float64 F⦄ where
  unfoldable pub spend_of : Bucket F → CategorySpend F
  spend_of b = record { category = b.category; count = b.count; total = b.total }

  -- summarize
  unfoldable pub summarize : Bytes → ℕ → ℕ → Action F SqlError (SpendingSummary F × List (Bucket F))
  summarize user start end = do
    breakout ← category_outflow user start end
    flow ← cashflow user start end
    pure (
      record {
        period_start = start;
        period_end = end;
        currency = bytes "USD";
        total_inflow = flow.0;
        total_outflow = flow.1;
        by_category = map spend_of breakout;
      },
      breakout,
    )

  -- InsightsHandler.Generate
  unfoldable pub generate : Provider F → Request F → Handler F (ℕ × InsightsResponse F)
  generate ai r = do
    user ← current_user r
    start ←
        some_or (date_param (query_value (bytes "from") r.query_values) (sub_days r.now 90)) 400
          (bytes "Invalid 'from' date, use YYYY-MM-DD")
    end ←
        some_or (date_param (query_value (bytes "to") r.query_values) r.now) 400
          (bytes "Invalid 'to' date, use YYYY-MM-DD")
    http_error_if (not (ltb start end)) 400 (bytes "'from' must be earlier than 'to'")
    found ← attempt (summarize user start end)
    totals ←
        or_error (λ e. record { status = 500; message = bytes "Failed to summarize spending" })
          found
    result ← reply_or_error (ai.generate_insights totals.0)
    pure (
      200,
      record {
        summary = result.summary;
        observations = result.observations;
        recommendations = result.recommendations;
        provider = ai.name;
        period_start = format_date start;
        period_end = format_date end;
        total_inflow = totals.0.total_inflow;
        total_outflow = totals.0.total_outflow;
        by_category = totals.1;
      },
    )

-- Me
unfoldable pub me : {F : Type 0} → Request F → Handler F (ℕ × Claims)
me r = do claims ← some_or r.claims 500 (bytes "Internal server error"); pure (200, claims)
