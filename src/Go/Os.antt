-- ===== src/Go/Os.antt =====
-- os.Getenv, and getEnv of app/cmd/server/main.go, which app/cmd/devidp/main.go declares alike.
use maroon_ledger.Base.{if◌then◌else◌}
use maroon_ledger.Go.Bytes.{Bytes, is_empty}

-- The value of a variable; a variable that is not set reads as empty.
abbrev pub Environment : Type 0
Environment = Bytes → Bytes

unfoldable pub get_env : Environment → Bytes → Bytes → Bytes
get_env env key fallback = if is_empty (env key) then fallback else env key
