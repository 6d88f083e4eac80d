-- ===== src/Go/Float.antt =====
-- float64. The language's arithmetic is not re-implemented: its operations, the conversions that
-- the program makes and those at the database's boundary are a parameter, an instance over the
-- type `F` of floats. Theorems that need a law of it name it as a hypothesis.
use maroon_ledger.Base.{ℕ, Bool, Option}
use maroon_ledger.Base.Int.{ℤ}
use maroon_ledger.Go.Bytes.{Bytes}

pub record Float64 (F : Type 0) : Type 0 where
  -- the literal n / 10 ^ k, and float64(n) at k = 0
  pub decimal : ℤ → ℕ → F
  pub add : F → F → F
  pub sub : F → F → F
  pub mul : F → F → F
  pub div : F → F → F
  -- math.Abs, math.Round, math.Max
  pub abs : F → F
  pub round : F → F
  pub max : F → F → F
  -- `<` and `==`, false where an operand is NaN
  pub lt : F → F → Bool
  pub eq : F → F → Bool
  pub is_nan : F → Bool
  pub is_inf : F → Bool
  -- int64(f)
  pub to_int : F → ℤ
  -- fmt's %.1f, %.2f and %.0f: the digits behind the point, then the number
  pub format : ℕ → F → Bytes
  -- a DECIMAL(12,2) column: whole cents as PostgreSQL rounds them, `none` if it refuses the value;
  -- reading cents back; reading an average of n such values
  pub store_numeric : F → Option ℤ
  pub scan_numeric : ℤ → F
  pub scan_average : ℤ → ℕ → F
