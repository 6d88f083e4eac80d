-- ===== src/Auth/Claims.antt =====
-- Claims of app/internal/auth/auth.go: what the application acts on of a token.
use maroon_ledger.Base.{List}
use maroon_ledger.Go.Bytes.{Bytes}

pub record Claims : Type 0 where
  pub subject : Bytes
  pub username : Bytes
  pub groups : List Bytes
