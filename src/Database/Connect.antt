-- ===== src/Database/Connect.antt =====
-- Connect of app/internal/database/database.go: the connection string, and the pool's settings. The
-- driver is a parameter.
pub mod Conninfo
use maroon_ledger.Base.{
  ℕ, zero, suc, ◌+◌, ◌-◌, ◌*◌, ◌/◌, ◌%◌, ◌^◌, ◌≤◌, ◌<◌, String, ◌≡◌, refl, sym, ap, ◌∙◌, ◌≢◌, ◌↔◌,
  ◌⊎◌, inl, inr, Bool, true, false, not, ◌&&◌, ◌||◌, Option, none, some, List, [], ◌∷◌, ◌++◌, map,
  append-nil, append_assoc, arith, ltb, leb, ◌==◌, if◌then◌else◌, Bool-cases, Option-cases, is_some,
  length, length-append, All, All-append,
}
use maroon_ledger.Go.Bytes.{Bytes, bytes, concat}

-- The arguments of Connect.
pub record Target : Type 0 where
  pub host : Bytes
  pub port : Bytes
  pub user : Bytes
  pub password : Bytes
  pub dbname : Bytes
  pub sslmode : Bytes

-- connStr
unfoldable pub conn_str : Target → Bytes
conn_str t = concat (
    bytes "host="
    ∷ t.host
    ∷ bytes " port="
    ∷ t.port
    ∷ bytes " user="
    ∷ t.user
    ∷ bytes " password="
    ∷ t.password
    ∷ bytes " dbname="
    ∷ t.dbname
    ∷ bytes " sslmode="
    ∷ t.sslmode
    ∷ [])

-- sql.Open and Ping.
pub record Driver : Type 0 where
  pub opens : Bytes → Bool
  pub pings : Bytes → Bool

pub data ConnectError : Type 0 where
  open_failed ping_failed : ConnectError

-- The pool: its connection string and limits; the lifetime of a connection is in seconds.
pub record Pool : Type 0 where
  pub conninfo : Bytes
  pub max_open : ℕ
  pub max_idle : ℕ
  pub max_lifetime : ℕ

unfoldable pub connect : Driver → Target → ConnectError ⊎ Pool
connect driver t =
    let conninfo = conn_str t in
    if not (driver.opens conninfo)
    then inl open_failed
    else if not (driver.pings conninfo)
    then inl ping_failed
    else inr (record { conninfo = conninfo; max_open = 25; max_idle = 5; max_lifetime = 300 })
