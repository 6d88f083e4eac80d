-- ===== src/Pipeline/Event.antt =====
-- Event of app/internal/pipeline/pipeline.go: one transaction as the lake sees it.
use maroon_ledger.Base.{ℕ}
use maroon_ledger.Go.Bytes.{Bytes}

pub record Event (F : Type 0) : Type 0 where
  pub id : ℕ
  pub timestamp : ℕ
  pub amount : F
  pub category : Bytes
  pub ai_provider : Bytes
  pub anomaly_severity : Bytes
