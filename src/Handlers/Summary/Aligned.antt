-- ===== src/Handlers/Summary/Aligned.antt =====
-- The dashboard's series: one entry for each day of the window, under its date.
use maroon_ledger.Base.{ℕ, ◌+◌, ◌≤◌, ◌≡◌, map, length, All}
use maroon_ledger.Go.Bytes.{Bytes}
use maroon_ledger.Go.Float.{Float64}
use maroon_ledger.Go.Time.{format_date, sub_days, start_of_day}
use maroon_ledger.Handlers.World.{World, Result, ok, err}
use maroon_ledger.Handlers.Http.{Handler, HttpError}
use maroon_ledger.Handlers.Summary.{
  AccountSummary, BalancePoint, SummaryResponse, max_summary_days, timeline_from, balance_series,
}

module _ {F : Type 0} ⦃fl : Float64 F⦄ where
  -- The window of the response, day by day.
  abbrev pub IsAligned : ℕ → SummaryResponse F → Type 0
  IsAligned now resp =
      (days : ℕ) × ((1 ≤ days)
        × (days ≤ max_summary_days)
        × (map (λ (p : BalancePoint F). p.date) resp.balance_series
            ≡ map format_date (timeline_from (start_of_day (sub_days now days)) (days + 1)))
        × All (λ (s : AccountSummary F). length s.sparkline ≡ days + 1) resp.accounts)

  abbrev pub AlignedSpec : ℕ → Result HttpError (ℕ × SummaryResponse F) × World F → Type 0
  AlignedSpec now (ok (status, resp), w) = (status ≡ 200) × IsAligned now resp
  AlignedSpec now (err e, w) = Unit

  pub record Aligned (now : ℕ) (h : Handler F (ℕ × SummaryResponse F)) : Type 0 where
    pub from : (w : World F) → AlignedSpec now (h w)
