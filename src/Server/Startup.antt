-- ===== src/Server/Startup.antt =====
-- The start of app/cmd/server/main.go: the database first, then its migrations, the verifier, the
-- provider and the emitter; the first failure stops the process.
pub mod Guarded
use maroon_ledger.Base.{
  ℕ, zero, suc, ◌+◌, ◌-◌, ◌*◌, ◌/◌, ◌%◌, ◌^◌, ◌≤◌, ◌<◌, String, ◌≡◌, refl, sym, ap, ◌∙◌, ◌≢◌, ◌↔◌,
  ◌⊎◌, inl, inr, Bool, true, false, not, ◌&&◌, ◌||◌, Option, none, some, List, [], ◌∷◌, ◌++◌, map,
  append-nil, append_assoc, arith, ltb, leb, ◌==◌, if◌then◌else◌, Bool-cases, Option-cases, is_some,
  length, length-append, All, All-append,
}
use maroon_ledger.Go.Bytes.{Bytes, bytes, Unicode}
use maroon_ledger.Go.Float.{Float64}
use maroon_ledger.Go.Os.{Environment, get_env}
use maroon_ledger.Ai.Types.{Provider}
use maroon_ledger.Ai.Bedrock.{bedrock_provider}
use maroon_ledger.Ai.Stub as Stub
use maroon_ledger.Ai.Stub.Insights.{generate_insights}
use maroon_ledger.Auth.Verifier.{Parser, Verifier}
use maroon_ledger.Database.Connect.{Driver, Pool}
use maroon_ledger.Database.Migrate.{Schema, MigrateFault, migrate}
use maroon_ledger.Pipeline.Firehose.Open.{Opened}
use maroon_ledger.Ratelimit.{TokenBucket, new}
use maroon_ledger.Handlers.World.{World, Result, ok, err}
use maroon_ledger.Server.{Services, State}
use maroon_ledger.Server.Setup.{
  Fatal, cannot_migrate, then_, Secret, Backend, stub, bedrock, BedrockClients, connect_database,
  build_verifier, build_ai_provider, build_emitter,
}

-- What the start finds outside of the process.
pub record Outside (F S : Type 0) : Type 0 where
  pub decode : Bytes → Option Secret
  pub driver : Driver
  pub script : Bytes → S → Option S
  pub version_table : Bool
  pub migrations : List (Bytes × Option MigrateFault)
  pub keys_at : Bytes → Option Parser
  pub clients : BedrockClients F
  pub aws_loads : Bytes → Bool

-- What main has built before it listens.
pub record Started (F : Type 0) : Type 0 where
  pub pool : Pool
  pub verifier : Verifier
  pub backend : Backend F
  pub emitter : Option (Opened F)
  pub addr : Bytes

module _ {F S : Type 0} (outside : Outside F S) (env : Environment) where
  -- The part of main behind the migrations.
  unfoldable pub build : Pool → Result Fatal (Started F)
  build pool = then_ (build_verifier outside.keys_at env) (λ verifier.
      then_ (build_ai_provider outside.clients env) (λ backend.
        then_ (build_emitter outside.aws_loads env) (λ emitter. ok (record {
          pool = pool;
          verifier = verifier;
          backend = backend;
          emitter = emitter;
          addr = b':' ∷ get_env env (bytes "PORT") (bytes "3000");
        }))))

  abbrev pub build_if : Bool → Pool → Result Fatal (Started F)
  build_if true pool = build pool
  build_if false pool = err cannot_migrate

  abbrev pub on_database : Result Fatal Pool → Schema S → Result Fatal (Started F) × Schema S
  on_database (err e) schema = (err e, schema)
  on_database (ok pool) schema =
      let (migrated, schema') =
        migrate outside.script outside.version_table outside.migrations schema in
      (build_if migrated pool, schema')

  -- main, up to ListenAndServe, and the database's schema behind it.
  unfoldable pub start : Schema S → Result Fatal (Started F) × Schema S
  start schema = on_database (connect_database outside.decode outside.driver env) schema

module _ {F : Type 0} ⦃fl : Float64 F⦄ where
  unfoldable pub provider_of : Unicode → Backend F → Provider F
  provider_of u stub = record {
    name = bytes "stub";
    categorize = Stub.categorize u;
    detect_anomaly = Stub.detect_anomaly;
    generate_insights = generate_insights;
  }
  provider_of u (bedrock b) = bedrock_provider b

  -- What the routes are built with: ten inferences a minute and three at once, sixty writes and
  -- fifteen at once.
  unfoldable pub services_of :
      {L : Type 0} → Unicode → (ℕ → ℕ → TokenBucket L) → Started F → Services F L
  services_of u budget s = record {
    unicode = u;
    provider = provider_of u s.backend;
    emitting = is_some s.emitter;
    issuer = s.verifier.cfg;
    parser = s.verifier.parse;
    inference_budget = budget 10 3;
    write_budget = budget 60 15;
  }

unfoldable pub first_state : {F L : Type 0} → World F → State F L
first_state w = record { world = w; inference = new; writes = new }
