-- ===== src/Handlers/Aggregate.antt =====
-- app/internal/handlers/aggregate.go, and round2 of summary.go: spending by category, and money in
-- and out, over a period [start, end).
use maroon_ledger.Base.{ℕ, List, [], ◌∷◌, map}
use maroon_ledger.Base.Int.{pos}
use maroon_ledger.Go.Bytes.{Bytes}
use maroon_ledger.Go.Float.{Float64}
use maroon_ledger.Database.Select.{Group, outflow_by_category, cashflow_sums}
use maroon_ledger.Handlers.World.{Action, SqlError, query, query_row, pure, ◌>>=◌}

-- categoryBucket
pub record Bucket (F : Type 0) : Type 0 where
  pub category : Bytes
  pub count : ℕ
  pub total : F

module _ {F : Type 0} ⦃fl : Float64 F⦄ where
  -- round2
  unfoldable pub round2 : F → F
  round2 f = fl.div (fl.round (fl.mul f (fl.decimal (pos 100) 0))) (fl.decimal (pos 100) 0)

  unfoldable pub scan_bucket : Group Bytes → Bucket F
  scan_bucket g = record {
    category = g.key;
    count = g.count;
    total = round2 (fl.scan_numeric (pos g.sum));
  }

  -- categoryOutflow
  unfoldable pub category_outflow : Bytes → ℕ → ℕ → Action F SqlError (List (Bucket F))
  category_outflow user start end = do
    groups ← query (outflow_by_category user start end)
    pure (map scan_bucket groups)

  -- The sums of cashflow, scanned and rounded: inflow, outflow.
  unfoldable pub scan_sums : ℕ × ℕ → F × F
  scan_sums (inflow, outflow) =
      (round2 (fl.scan_numeric (pos inflow)), round2 (fl.scan_numeric (pos outflow)))

  -- cashflow: an aggregate without GROUP BY has exactly one row.
  unfoldable pub cashflow : Bytes → ℕ → ℕ → Action F SqlError (F × F)
  cashflow user start end = do
    sums ← query_row (λ db. cashflow_sums user start end db ∷ [])
    pure (scan_sums sums)
