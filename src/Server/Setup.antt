-- ===== src/Server/Setup.antt =====
-- The configuration of app/cmd/server/main.go: what the environment's variables choose. The decoding
-- of the database's secret, the clients of AWS and the keys of the issuer are parameters.
pub mod OptIn
use maroon_ledger.Base.{
  ℕ, zero, suc, ◌+◌, ◌-◌, ◌*◌, ◌/◌, ◌%◌, ◌^◌, ◌≤◌, ◌<◌, String, ◌≡◌, refl, sym, ap, ◌∙◌, ◌≢◌, ◌↔◌,
  ◌⊎◌, inl, inr, Bool, true, false, not, ◌&&◌, ◌||◌, Option, none, some, List, [], ◌∷◌, ◌++◌, map,
  append-nil, append_assoc, arith, ltb, leb, ◌==◌, if◌then◌else◌, Bool-cases, Option-cases, is_some,
  length, length-append, All, All-append,
}
use maroon_ledger.Base.Int.{ℤ, pos, negsuc}
use maroon_ledger.Go.Bytes.{Bytes, bytes, bytes_eq, is_empty}
use maroon_ledger.Go.Os.{Environment, get_env}
use maroon_ledger.Go.Strconv.{itoa}
use maroon_ledger.Ai.Bedrock.{Bedrock, MessageService, Unmarshal, new_bedrock}
use maroon_ledger.Pipeline.Firehose.Open.{FirehoseConfig, Opened, new_firehose}
use maroon_ledger.Auth.Verifier.{Parser, Verifier, new_verifier}
use maroon_ledger.Database.Connect.{Target, Driver, ConnectError, Pool, connect}
use maroon_ledger.Handlers.World.{Result, ok, err}

-- Why the process stops: a variable that is required is missing, a configError with its message, or
-- an error of what it calls.
pub data Fatal : Type 0 where
  missing_variable : Bytes → Fatal
  config_error : Bytes → Fatal
  cannot_connect : ConnectError → Fatal
  cannot_migrate cannot_authenticate cannot_infer cannot_deliver : Fatal

abbrev pub then_ : {A B : Type 0} → Result Fatal A → (A → Result Fatal B) → Result Fatal B
then_ (ok a) f = f a
then_ (err e) f = err e

abbrev pub or_fatal : {A : Type 0} → Fatal → Option A → Result Fatal A
or_fatal e none = err e
or_fatal e (some a) = ok a

-- mustEnv
unfoldable pub must_env : Environment → Bytes → Result Fatal Bytes
must_env env key = if is_empty (env key) then err (missing_variable key) else ok (env key)

-- firstNonEmpty
unfoldable pub first_non_empty : List Bytes → Bytes
first_non_empty [] = []
first_non_empty (v ∷ vs) = let rest = first_non_empty vs in if is_empty v then rest else v

abbrev is_zero : ℤ → Bool
is_zero (pos n) = n == 0
is_zero (negsuc n) = false

-- nonZero
unfoldable pub non_zero : ℤ → Bytes
non_zero n = if is_zero n then [] else itoa n

-- What the secret is decoded into; a field that it lacks is empty, or 0.
pub record Secret : Type 0 where
  pub host : Bytes
  pub port : ℤ
  pub username : Bytes
  pub password : Bytes
  pub dbname : Bytes

abbrev checked : Target → Result Fatal Target
checked t =
    if is_empty t.host || is_empty t.dbname
    then err (config_error (bytes "DB_HOST and DB_NAME must be set when DB_CREDENTIALS omits them"))
    else ok t

abbrev of_secret : Environment → Option Secret → Result Fatal Target
of_secret env none = err (config_error (bytes "DB_CREDENTIALS is not valid JSON"))
of_secret env (some parsed) = checked (record {
  host = first_non_empty (parsed.host ∷ env (bytes "DB_HOST") ∷ []);
  port = first_non_empty (non_zero parsed.port ∷ get_env env (bytes "DB_PORT") (bytes "5432") ∷ []);
  user = parsed.username;
  password = parsed.password;
  dbname = first_non_empty (parsed.dbname ∷ env (bytes "DB_NAME") ∷ []);
  sslmode = get_env env (bytes "DB_SSLMODE") (bytes "require");
})

-- connectDatabase, up to the call of Connect.
unfoldable pub database_target : (Bytes → Option Secret) → Environment → Result Fatal Target
database_target decode env =
    if not (is_empty (env (bytes "DB_CREDENTIALS")))
    then of_secret env (decode (env (bytes "DB_CREDENTIALS")))
    else ok (record {
      host = get_env env (bytes "DB_HOST") (bytes "localhost");
      port = get_env env (bytes "DB_PORT") (bytes "5432");
      user = get_env env (bytes "DB_USER") (bytes "postgres");
      password = get_env env (bytes "DB_PASSWORD") (bytes "postgres");
      dbname = get_env env (bytes "DB_NAME") (bytes "maroonledger");
      sslmode = get_env env (bytes "DB_SSLMODE") (bytes "disable");
    })

abbrev of_connect : ConnectError ⊎ Pool → Result Fatal Pool
of_connect (inl e) = err (cannot_connect e)
of_connect (inr pool) = ok pool

unfoldable pub connect_database : (Bytes → Option Secret) → Driver → Environment → Result Fatal Pool
connect_database decode driver env =
    then_ (database_target decode env) (λ t. of_connect (connect driver t))

pub data Backend (F : Type 0) : Type 0 where
  stub : Backend F
  bedrock : Bedrock F → Backend F

-- The clients of Bedrock for a region, each of which may not be built.
pub record BedrockClients (F : Type 0) : Type 0 where
  pub mantle : Bytes → Option MessageService
  pub runtime : Bytes → Option MessageService
  pub unmarshal : Unmarshal F

abbrev region_of : Environment → Bytes
region_of env = get_env env (bytes "AWS_REGION") (bytes "us-east-2")

module _ {F : Type 0} where
  -- buildAIProvider
  unfoldable pub build_ai_provider : BedrockClients F → Environment → Result Fatal (Backend F)
  build_ai_provider clients env =
      let provider = get_env env (bytes "AI_PROVIDER") (bytes "stub") in
      let region = region_of env in
      if bytes_eq provider (bytes "stub")
      then ok stub
      else if bytes_eq provider (bytes "bedrock")
      then then_
          (or_fatal cannot_infer (
            new_bedrock (clients.mantle region) (clients.runtime region) clients.unmarshal region
              (env (bytes "BEDROCK_MODEL")) (get_env env (bytes "BEDROCK_API") (bytes "mantle"))))
          (λ b. ok (bedrock b))
      else err (config_error (bytes "AI_PROVIDER must be 'stub' or 'bedrock', got " ++ provider))

  -- buildEmitter: `none` is Disabled, which takes events and does nothing.
  unfoldable pub build_emitter : (Bytes → Bool) → Environment → Result Fatal (Option (Opened F))
  build_emitter aws_loads env =
      let mode = get_env env (bytes "DATA_PIPELINE") (bytes "off") in
      if bytes_eq mode (bytes "off")
      then ok none
      else if bytes_eq mode (bytes "firehose")
      then then_ (must_env env (bytes "DATA_PIPELINE_STREAM")) (λ stream.
        then_
          (or_fatal cannot_deliver (
            new_firehose aws_loads (record {
              stream_name = stream;
              region = region_of env;
              buffer_size = pos 0;
              flush_interval = pos 0;
            })))
          (λ opened. ok (some opened)))
      else err (config_error (bytes "DATA_PIPELINE must be 'off' or 'firehose', got " ++ mode))

-- The verifier that main builds: its three variables are required.
unfoldable pub build_verifier : (Bytes → Option Parser) → Environment → Result Fatal Verifier
build_verifier keys_at env = then_ (must_env env (bytes "AUTH_ISSUER")) (λ issuer.
    then_ (must_env env (bytes "AUTH_JWKS_URL")) (λ jwks_url.
      then_ (must_env env (bytes "AUTH_CLIENT_ID")) (λ client_id. or_fatal cannot_authenticate (
        new_verifier keys_at
          (record { issuer = issuer; jwks_url = jwks_url; client_id = client_id })))))
