-- ===== src/Handlers/Enrich.antt =====
-- enrich and baselineFor of app/internal/handlers/transactions.go: what the model adds to a
-- transaction. Both steps are best-effort, so the action has no error.
use maroon_ledger.Base.{Option, none, some, List, [], map, if◌then◌else◌}
use maroon_ledger.Base.Int.{ℤ, pos}
use maroon_ledger.Go.Bytes.{Bytes, is_empty}
use maroon_ledger.Go.Float.{Float64}
use maroon_ledger.Ai.Types.{Provider, Reply, TransactionInput, HistoricalStat, AnomalyAssessment}
use maroon_ledger.Database.Select.{Group, baseline_of}
use maroon_ledger.Handlers.World.{Result, ok, err, Action, SqlError, query, attempt, pure, ◌>>=◌}

-- `enrichment`: an empty category, or `none`, means that the analysis was skipped or failed.
pub record Enrichment : Type 0 where
  pub category : Bytes
  pub severity : Option Bytes
  pub reason : Option Bytes
  pub provider : Option Bytes

abbrev pub not_enriched : Enrichment
not_enriched = record { category = []; severity = none; reason = none; provider = none }

module _ {F : Type 0} ⦃fl : Float64 F⦄ where
  -- The columns of one group scanned into an ai.HistoricalStat.
  unfoldable pub scan_stat : Group Bytes → HistoricalStat F
  scan_stat g = record {
    category = g.key;
    count = g.count;
    total_amount = fl.scan_numeric (pos g.sum);
    mean_amount = fl.scan_average (pos g.sum) g.count;
    max_amount = fl.scan_numeric (pos g.max);
  }

  -- baselineFor
  unfoldable pub baseline_for : ℤ → Action F SqlError (List (HistoricalStat F))
  baseline_for id = do rows ← query (baseline_of id); pure (map scan_stat rows)

-- The first step of enrich: the category that the model gives, or the empty one.
unfoldable pub resolved_category : {F : Type 0} → Provider F → TransactionInput F → Bytes
resolved_category ai input =
    if is_empty input.category
    then elim (ai.categorize input) [ Reply.ok c ↦ c.category | Reply.err e ↦ [] ]
    else []

-- The second step: the assessment, if the baseline could be read and the model answered.
unfoldable pub assessed :
    {F : Type 0}
    → Provider F
    → TransactionInput F
    → Result SqlError (List (HistoricalStat F))
    → Option AnomalyAssessment
assessed ai input (err e) = none
assessed ai input (ok baseline) = elim (ai.detect_anomaly input baseline) [
  | Reply.ok a ↦ some a
  | Reply.err e ↦ none
]

-- What enrich returns, given the category found and the assessment.
unfoldable pub enrichment_of : Bytes → Bytes → Option AnomalyAssessment → Enrichment
enrichment_of name category none = record {
  category = category;
  severity = none;
  reason = none;
  provider = (if is_empty category then none else some name);
}
enrichment_of name category (some a) = record {
  category = category;
  severity = some a.severity;
  reason = some a.reason;
  provider = some name;
}

module _ {F E : Type 0} ⦃fl : Float64 F⦄ where
  abbrev enrich_with : Provider F → ℤ → TransactionInput F → Action F E Enrichment
  enrich_with ai id input = do
    let category = resolved_category ai input
    let known = if is_empty input.category then category else input.category
    baseline ← attempt (baseline_for id)
    pure (enrichment_of ai.name category (assessed ai (record input { category = known }) baseline))

  -- enrich
  unfoldable pub enrich : Option (Provider F) → ℤ → TransactionInput F → Action F E Enrichment
  enrich none id input = pure not_enriched
  enrich (some ai) id input = enrich_with ai id input
