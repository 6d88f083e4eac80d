-- ===== src/Tests/Startups.antt =====
-- The server's start in a concrete environment.
use maroon_ledger.Base.{ℕ, ◌+◌, ◌≡◌, refl, true, none, some, List, [], ◌∷◌, arith, if◌then◌else◌}
use maroon_ledger.Go.Bytes.{Bytes, bytes, bytes_eq, is_empty, concat, ascii_space}
use maroon_ledger.Go.Os.{Environment, get_env}
use maroon_ledger.Auth.Verifier.{new_verifier}
use maroon_ledger.Database.Connect.{Target, conn_str, connect}
use maroon_ledger.Database.Connect.Conninfo.{
  IsBare, AllBare, entries, read_byte, read_from, read_conninfo, read_conninfo-conn_str,
}
use maroon_ledger.Database.Migrate.{Schema, migrate, migrate_all}
use maroon_ledger.Handlers.World.{ok, err}
use maroon_ledger.Server.Setup.{
  Fatal, missing_variable, config_error, must_env, database_target, connect_database,
  build_verifier, build_ai_provider, build_emitter,
}
use maroon_ledger.Server.Setup as Setup
use maroon_ledger.Server.Startup.{Outside, Started, build, start}
use maroon_ledger.Server.Startup.Guarded.{IsGuarded, start-IsGuarded}
use maroon_ledger.Tests.Fixtures.{Money}
use maroon_ledger.Tests.Tokens.{parser}

-- Variables by name.
abbrev lookup : List (Bytes × Bytes) → Environment
lookup [] key = []
lookup ((k, v) ∷ rest) key = if bytes_eq k key then v else lookup rest key

abbrev auth_only : Environment
auth_only = lookup (
    (bytes "AUTH_ISSUER", bytes "pool")
    ∷ (bytes "AUTH_JWKS_URL", bytes "https://pool/jwks.json")
    ∷ (bytes "AUTH_CLIENT_ID", bytes "app")
    ∷ [])

abbrev outside : Outside Money ℕ
outside = record {
  decode = λ s. none;
  driver = record { opens = λ s. true; pings = λ s. true };
  script = λ version n. some (n + 1);
  version_table = true;
  migrations = [];
  keys_at = λ url. some parser;
  clients = record {
    mantle = λ region. none;
    runtime = λ region. none;
    unmarshal = record { categorization = λ s. none; assessment = λ s. none; insights = λ s. none };
  };
  aws_loads = λ region. true;
}

abbrev empty_schema : Schema ℕ
empty_schema = record { tables = 0; versions = [] }

abbrev defaults : Target
defaults = record {
  host = bytes "localhost";
  port = bytes "5432";
  user = bytes "postgres";
  password = bytes "postgres";
  dbname = bytes "maroonledger";
  sslmode = bytes "disable";
}

-- Without a variable for the database its defaults are taken.
default_target : database_target outside.decode auth_only ≡ ok defaults
unfolding database_target get_env is_empty bytes bytes_eq
default_target = refl

-- Without one for the verifier there is no server.
no_issuer :
    build_verifier outside.keys_at (lookup []) ≡ err (missing_variable (bytes "AUTH_ISSUER"))
unfolding build_verifier must_env is_empty
no_issuer = refl

started : Started Money
started = record {
  pool = record { conninfo = conn_str defaults; max_open = 25; max_idle = 5; max_lifetime = 300 };
  verifier = record {
    cfg = record {
      issuer = bytes "pool";
      jwks_url = bytes "https://pool/jwks.json";
      client_id = bytes "app";
    };
    parse = parser;
  };
  backend = Setup.stub;
  emitter = none;
  addr = bytes ":3000";
}

comes_up : start outside auth_only empty_schema ≡ (ok started, empty_schema)
unfolding started start build connect_database database_target connect conn_str build_verifier
    must_env new_verifier build_ai_provider build_emitter get_env is_empty bytes bytes_eq migrate
    migrate_all
comes_up = refl

start-IsGuarded_example : IsGuarded outside auth_only empty_schema empty_schema started
start-IsGuarded_example =
    start-IsGuarded outside auth_only empty_schema empty_schema started comes_up

-- The secret's settings with a word of two parts as password: the second part gets lost.
abbrev spaced : Target
spaced = record defaults { password = bytes "two words" }

spaced_misread : read_conninfo (conn_str spaced) ≡ none
unfolding read_conninfo read_from read_byte conn_str concat bytes ascii_space
spaced_misread = refl

-- Without a user name in the secret the word behind it is taken for the user.
abbrev nameless : Target
nameless = record defaults { user = [] }

nameless_misread :
    read_conninfo (conn_str nameless)
    ≡ some (
        (bytes "host", nameless.host)
        ∷ (bytes "port", nameless.port)
        ∷ (bytes "user", bytes "password=postgres")
        ∷ (bytes "dbname", nameless.dbname)
        ∷ (bytes "sslmode", nameless.sslmode)
        ∷ [])
unfolding read_conninfo read_from read_byte conn_str concat bytes ascii_space
nameless_misread = refl

words-IsBare :
    IsBare (bytes "localhost")
    × IsBare (bytes "5432")
    × IsBare (bytes "postgres")
    × IsBare (bytes "maroonledger")
    × IsBare (bytes "disable")
unfolding bytes ascii_space
words-IsBare = (
  record { some_byte = λ h. cc (h); all_plain = ground arith },
  record { some_byte = λ h. cc (h); all_plain = ground arith },
  record { some_byte = λ h. cc (h); all_plain = ground arith },
  record { some_byte = λ h. cc (h); all_plain = ground arith },
  record { some_byte = λ h. cc (h); all_plain = ground arith },
)

defaults-AllBare : AllBare defaults
defaults-AllBare =
    let (host, port, user, dbname, sslmode) = words-IsBare in
    record {
      host = host;
      port = port;
      user = user;
      password = user;
      dbname = dbname;
      sslmode = sslmode;
    }

read_conninfo-conn_str_example : read_conninfo (conn_str defaults) ≡ some (entries defaults)
read_conninfo-conn_str_example = read_conninfo-conn_str defaults defaults-AllBare
