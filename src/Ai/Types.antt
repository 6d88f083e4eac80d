-- ===== src/Ai/Types.antt =====
-- The data that passes between the handlers and a provider (app/internal/ai/ai.go), and the
-- provider interface. Errors are `ErrUnavailable`, or any other error.
use maroon_ledger.Base.{ℕ, Bool, List, leb, if◌then◌else◌, length, take}
use maroon_ledger.Go.Bytes.{Bytes}

pub data ProviderError : Type 0 where
  unavailable unexpected : ProviderError

pub data Reply (A : Type 0) : Type 0 where
  ok : A → Reply A
  err : ProviderError → Reply A

pub record TransactionInput (F : Type 0) : Type 0 where
  pub description : Bytes
  pub amount : F
  pub account_type : Bytes
  pub category : Bytes

pub record HistoricalStat (F : Type 0) : Type 0 where
  pub category : Bytes
  pub count : ℕ
  pub total_amount : F
  pub mean_amount : F
  pub max_amount : F

pub record CategorySpend (F : Type 0) : Type 0 where
  pub category : Bytes
  pub count : ℕ
  pub total : F

pub record SpendingSummary (F : Type 0) : Type 0 where
  pub period_start : ℕ
  pub period_end : ℕ
  pub currency : Bytes
  pub total_inflow : F
  pub total_outflow : F
  pub by_category : List (CategorySpend F)

pub record Categorization (F : Type 0) : Type 0 where
  pub category : Bytes
  pub confidence : F
  pub rationale : Bytes

pub record AnomalyAssessment : Type 0 where
  pub anomalous : Bool
  pub severity : Bytes
  pub reason : Bytes

pub record Insights : Type 0 where
  pub summary : Bytes
  pub observations : List Bytes
  pub recommendations : List Bytes

-- A provider answers each request by a value or an error; a deadline that passes is an error.
pub record Provider (F : Type 0) : Type 0 where
  pub name : Bytes
  pub categorize : TransactionInput F → Reply (Categorization F)
  pub detect_anomaly : TransactionInput F → List (HistoricalStat F) → Reply AnomalyAssessment
  pub generate_insights : SpendingSummary F → Reply Insights

-- truncate
unfoldable pub truncate : Bytes → ℕ → Bytes
truncate s max = if leb (length s) max then s else take max s

abbrev pub max_description_len : ℕ
max_description_len = 200
