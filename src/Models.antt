-- ===== src/Models.antt =====
-- app/internal/models/models.go: the rows as the API renders them.
use maroon_ledger.Base.{ℕ, Bool, Option}
use maroon_ledger.Go.Bytes.{Bytes}

-- `user_id` is never serialized (json:"-").
pub record Account (F : Type 0) : Type 0 where
  pub id : ℕ
  pub name : Bytes
  pub type : Bytes
  pub user_id : Bytes
  pub balance : F
  pub created_at : ℕ
  pub updated_at : ℕ

pub record Transaction (F : Type 0) : Type 0 where
  pub id : ℕ
  pub account_id : ℕ
  pub amount : F
  pub category : Bytes
  pub description : Bytes
  pub date : ℕ
  pub created_at : ℕ
  pub auto_categorized : Bool
  pub anomaly_severity : Option Bytes
  pub anomaly_reason : Option Bytes
  pub ai_provider : Option Bytes
