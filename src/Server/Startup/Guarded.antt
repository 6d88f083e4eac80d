-- ===== src/Server/Startup/Guarded.antt =====
-- Under which environment the server comes up, and with what.
use maroon_ledger.Base.{◌≡◌, refl, ap, ◌≢◌, ◌⊎◌, Bool, true, false, none, some, [], arith}
use maroon_ledger.Go.Bytes.{bytes}
use maroon_ledger.Go.Os.{Environment}
use maroon_ledger.Database.Connect.{Pool}
use maroon_ledger.Database.Migrate.{Schema, migrate}
use maroon_ledger.Pipeline.Firehose.Open.{Opened}
use maroon_ledger.Handlers.World.{Result, ok, err}
use maroon_ledger.Server.Setup.{
  Fatal, stub, connect_database, build_verifier, build_ai_provider, build_emitter,
}
use maroon_ledger.Server.Setup.OptIn.{
  then_-ok, ok_inj, IsFromEnv, build_verifier-IsFromEnv, build_ai_provider-OptIn,
  build_emitter-OptIn,
}
use maroon_ledger.Server.Startup.{Outside, Started, build, build_if, on_database, start}

module _ {F S : Type 0} (outside : Outside F S) (env : Environment) where
  -- What must have gone well, and what the environment must have said.
  pub record IsGuarded (schema schema' : Schema S) (s : Started F) : Type 0 where
    pub connected : connect_database outside.decode outside.driver env ≡ ok s.pool
    pub migrated :
        migrate outside.script outside.version_table outside.migrations schema ≡ (true, schema')
    pub verifier : IsFromEnv outside.keys_at env s.verifier
    pub backend : (s.backend ≡ stub) ⊎ (env (bytes "AI_PROVIDER") ≡ bytes "bedrock")
    pub emitter :
        (s.emitter ≡ none)
        ⊎ ((opened : Opened F) × (s.emitter ≡ some opened)
            × (env (bytes "DATA_PIPELINE") ≡ bytes "firehose")
            × (opened.stream ≡ env (bytes "DATA_PIPELINE_STREAM"))
            × (env (bytes "DATA_PIPELINE_STREAM") ≢ []))

  -- What `build` gives is built of these parts.
  record IsBuilt (pool : Pool) (s : Started F) : Type 0 where
    pub pool_is : s.pool ≡ pool
    pub verifier_is : build_verifier outside.keys_at env ≡ ok s.verifier
    pub backend_is : build_ai_provider outside.clients env ≡ ok s.backend
    pub emitter_is : build_emitter outside.aws_loads env ≡ ok s.emitter

  build-IsBuilt : (pool : Pool) (s : Started F) → build outside env pool ≡ ok s → IsBuilt pool s
  unfolding build
  build-IsBuilt pool s h =
      let (verifier, (v, h1)) = then_-ok (build_verifier outside.keys_at env) _ s h in
      let (backend, (b, h2)) = then_-ok (build_ai_provider outside.clients env) _ s h1 in
      let (emitter, (e, h3)) = then_-ok (build_emitter outside.aws_loads env) _ s h2 in
      let same = ok_inj _ s h3 in
      record {
        pool_is = rw (← same) refl;
        verifier_is = rw (← same) v;
        backend_is = rw (← same) b;
        emitter_is = rw (← same) e;
      }

  build_if-ok :
      (migrated : Bool) (pool : Pool) (s : Started F)
      → build_if outside env migrated pool ≡ ok s
      → (migrated ≡ true) × (build outside env pool ≡ ok s)
  build_if-ok true pool s h = (refl, h)
  build_if-ok false pool s h = absurd (ground arith)

  on_database-ok :
      (r : Result Fatal Pool) (schema schema' : Schema S) (s : Started F)
      → on_database outside env r schema ≡ (ok s, schema')
      → (pool : Pool) × (r ≡ ok pool)
        × (migrate outside.script outside.version_table outside.migrations schema ≡ (true, schema'))
        × (build outside env pool ≡ ok s)
  on_database-ok (err e) schema schema' s h = absurd (ground arith)
  on_database-ok (ok pool) schema schema' s h =
      let m = migrate outside.script outside.version_table outside.migrations schema in
      let (migrated, built) = build_if-ok m.0 pool s (ap (λ p. p.0) h) in
      (pool, refl, rw (← migrated, ← ap (λ p. p.1) h) refl, built)

  -- The server never comes up half configured. If main gets as far as listening, the database was
  -- reached and every migration that it has not yet recorded ran; issuer, client and JWKS URL are
  -- all set in the environment, the verifier is of exactly these and of the keys found there; the
  -- provider is the stub unless AI_PROVIDER is `bedrock`; and there is no pipeline unless
  -- DATA_PIPELINE is `firehose` and its stream is named, which then is the one that is used.
  pub start-IsGuarded :
      (schema schema' : Schema S) (s : Started F)
      → start outside env schema ≡ (ok s, schema')
      → IsGuarded schema schema' s
  unfolding start
  start-IsGuarded schema schema' s h =
      let (pool, connected, migrated, built) =
        on_database-ok (connect_database outside.decode outside.driver env) schema schema' s h in
      let parts = build-IsBuilt pool s built in
      record {
        connected = rw parts.pool_is connected;
        migrated = migrated;
        verifier = build_verifier-IsFromEnv outside.keys_at env s.verifier parts.verifier_is;
        backend = build_ai_provider-OptIn outside.clients env s.backend parts.backend_is;
        emitter = build_emitter-OptIn outside.aws_loads env s.emitter parts.emitter_is;
      }
