-- ===== src/Database.antt =====
-- The tables of app/internal/database/migrations as they stand after the last migration, in whole
-- cents and times as in Go.Time, and the SQL that the handlers send. Indexes are left out.
pub mod Select
pub mod Insert
pub mod Connect
pub mod Migrate
use maroon_ledger.Base.{
  ℕ, zero, suc, ◌+◌, ◌-◌, ◌*◌, ◌/◌, ◌%◌, ◌^◌, ◌≤◌, ◌<◌, String, ◌≡◌, refl, sym, ap, ◌∙◌, ◌≢◌, ◌↔◌,
  ◌⊎◌, inl, inr, Bool, true, false, not, ◌&&◌, ◌||◌, Option, none, some, List, [], ◌∷◌, ◌++◌, map,
  arith, ltb, leb, ◌==◌, if◌then◌else◌, Bool-cases, Option-cases, is_some, length,
}
use maroon_ledger.Base.Int.{ℤ}
use maroon_ledger.Go.Bytes.{Bytes}

pub record AccountRow : Type 0 where
  pub id : ℕ
  pub name : Bytes
  pub type : Bytes
  pub balance : ℤ
  pub created_at : ℕ
  pub updated_at : ℕ
  pub user_id : Bytes

-- `description` is nullable in the schema; every row is written with one.
pub record TransactionRow : Type 0 where
  pub id : ℕ
  pub account_id : ℕ
  pub amount : ℤ
  pub category : Bytes
  pub description : Bytes
  pub date : ℕ
  pub created_at : ℕ
  pub auto_categorized : Bool
  pub anomaly_severity : Option Bytes
  pub anomaly_reason : Option Bytes
  pub ai_provider : Option Bytes

-- The two tables, in the order of insertion, and the sequences behind their SERIAL columns.
pub record Db : Type 0 where
  pub accounts : List AccountRow
  pub transactions : List TransactionRow
  pub next_account : ℕ
  pub next_transaction : ℕ
