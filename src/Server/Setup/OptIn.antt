-- ===== src/Server/Setup/OptIn.antt =====
-- What the environment must say before a backend that costs money, or a server without its
-- authentication, could be built.
use maroon_ledger.Base.{
  ◌≡◌, refl, sym, ◌∙◌, ◌≢◌, ◌⊎◌, inl, inr, Bool, Option, none, some, [], arith, Bool-cases,
  Option-cases,
}
use maroon_ledger.Base.Int.{pos}
use maroon_ledger.Go.Bytes.{Bytes, bytes, bytes_eq, bytes_eq_iff, is_empty_iff}
use maroon_ledger.Go.Os.{Environment, get_env}
use maroon_ledger.Auth.Verifier.{Parser, Verifier, Config, new_verifier}
use maroon_ledger.Pipeline.Firehose.Open.{FirehoseConfig, Opened, new_firehose}
use maroon_ledger.Handlers.World.{Result, ok, err}
use maroon_ledger.Server.Setup.{
  Fatal, cannot_deliver, then_, or_fatal, must_env, Backend, stub, BedrockClients, build_verifier,
  build_ai_provider, build_emitter,
}

pub ok_inj : {A : Type 0} (a b : A) → ◌≡◌ {A = Result Fatal A} (ok a) (ok b) → a ≡ b
ok_inj a b h = ground arith

-- What goes well in two steps has gone well in each.
pub then_-ok :
    {A B : Type 0} (m : Result Fatal A) (f : A → Result Fatal B) (b : B)
    → then_ m f ≡ ok b
    → (a : A) × ((m ≡ ok a) × (f a ≡ ok b))
then_-ok (ok a) f b h = (a, (refl, h))
then_-ok (err e) f b h = absurd (ground arith)

or_fatal-ok : {A : Type 0} (e : Fatal) (m : Option A) (a : A) → or_fatal e m ≡ ok a → m ≡ some a
or_fatal-ok e none a h = absurd (ground arith)
or_fatal-ok e (some b) a h = ground arith

-- A required variable is set.
must_env-ok :
    (env : Environment) (key v : Bytes) → must_env env key ≡ ok v → (v ≡ env key) × (env key ≢ [])
unfolding must_env
must_env-ok env key v h = ground (arith, is_empty_iff (env key))

-- A value that is not the fallback was set.
get_env-set :
    (env : Environment) (key fallback v : Bytes)
    → get_env env key fallback ≡ v
    → fallback ≢ v
    → env key ≡ v
unfolding get_env
get_env-set env key fallback v h other = ground arith

-- The verifier of the three variables, with the keys found at the URL.
pub record IsFromEnv (keys_at : Bytes → Option Parser) (env : Environment) (v : Verifier)
    : Type 0 where
  pub issuer_set : env (bytes "AUTH_ISSUER") ≢ []
  pub jwks_url_set : env (bytes "AUTH_JWKS_URL") ≢ []
  pub client_id_set : env (bytes "AUTH_CLIENT_ID") ≢ []
  pub issuer_is : v.cfg.issuer ≡ env (bytes "AUTH_ISSUER")
  pub client_id_is : v.cfg.client_id ≡ env (bytes "AUTH_CLIENT_ID")
  pub keys_are : keys_at (env (bytes "AUTH_JWKS_URL")) ≡ some v.parse

new_verifier-ok :
    (keys_at : Bytes → Option Parser) (cfg : Config) (v : Verifier)
    → new_verifier keys_at cfg ≡ some v
    → (v.cfg ≡ cfg) × (keys_at cfg.jwks_url ≡ some v.parse)
unfolding new_verifier
new_verifier-ok keys_at cfg v h = elim (Option-cases (keys_at cfg.jwks_url)) [
  | inl unreachable ↦ absurd (ground arith)
  | inr (parse, found) ↦ ground arith
]

pub build_verifier-IsFromEnv :
    (keys_at : Bytes → Option Parser) (env : Environment) (v : Verifier)
    → build_verifier keys_at env ≡ ok v
    → IsFromEnv keys_at env v
unfolding build_verifier
build_verifier-IsFromEnv keys_at env v h =
    let (issuer, (i, h1)) = then_-ok (must_env env (bytes "AUTH_ISSUER")) _ v h in
    let (url, (j, h2)) = then_-ok (must_env env (bytes "AUTH_JWKS_URL")) _ v h1 in
    let (client, (c, h3)) = then_-ok (must_env env (bytes "AUTH_CLIENT_ID")) _ v h2 in
    let (same_cfg, keys) = new_verifier-ok keys_at _ v (or_fatal-ok _ _ v h3) in
    let (issuer_is, issuer_set) = must_env-ok env (bytes "AUTH_ISSUER") issuer i in
    let (url_is, url_set) = must_env-ok env (bytes "AUTH_JWKS_URL") url j in
    let (client_is, client_set) = must_env-ok env (bytes "AUTH_CLIENT_ID") client c in
    record {
      issuer_set = issuer_set;
      jwks_url_set = url_set;
      client_id_set = client_set;
      issuer_is = rw same_cfg issuer_is;
      client_id_is = rw same_cfg client_is;
      keys_are = rw (← url_is) keys;
    }

not_stub : bytes "stub" ≢ bytes "bedrock"
unfolding bytes
not_stub h = ground arith

not_off : bytes "off" ≢ bytes "firehose"
unfolding bytes
not_off h = ground arith

module _ {F : Type 0} where
  -- The provider is the stub, which asks nobody, unless AI_PROVIDER says `bedrock`.
  pub build_ai_provider-OptIn :
      (clients : BedrockClients F) (env : Environment) (backend : Backend F)
      → build_ai_provider clients env ≡ ok backend
      → (backend ≡ stub) ⊎ (env (bytes "AI_PROVIDER") ≡ bytes "bedrock")
  unfolding build_ai_provider
  build_ai_provider-OptIn clients env backend h =
      let choice = get_env env (bytes "AI_PROVIDER") (bytes "stub") in
      let is_stub = bytes_eq_iff choice (bytes "stub") in
      elim (Bool-cases (bytes_eq choice (bytes "stub"))) [
        | inl stubbed ↦ inl (ground arith)
        | inr other ↦ elim (Bool-cases (bytes_eq choice (bytes "bedrock"))) [
          | inl asked ↦ inr (
              get_env-set env (bytes "AI_PROVIDER") (bytes "stub") (bytes "bedrock")
                ((bytes_eq_iff choice (bytes "bedrock")).0 asked) not_stub)
          | inr unknown ↦ absurd (ground arith)
        ]
      ]

  new_firehose-ok :
      (aws_loads : Bytes → Bool) (cfg : FirehoseConfig) (opened : Opened F)
      → new_firehose aws_loads cfg ≡ some opened
      → opened.stream ≡ cfg.stream_name
  unfolding new_firehose
  new_firehose-ok aws_loads cfg opened h = ground arith

  -- There is no pipeline unless DATA_PIPELINE says `firehose` and names its stream.
  pub build_emitter-OptIn :
      (aws_loads : Bytes → Bool) (env : Environment) (emitter : Option (Opened F))
      → build_emitter aws_loads env ≡ ok emitter
      → (emitter ≡ none)
        ⊎ ((opened : Opened F) × (emitter ≡ some opened)
            × (env (bytes "DATA_PIPELINE") ≡ bytes "firehose")
            × (opened.stream ≡ env (bytes "DATA_PIPELINE_STREAM"))
            × (env (bytes "DATA_PIPELINE_STREAM") ≢ []))
  unfolding build_emitter
  build_emitter-OptIn aws_loads env emitter h =
      let mode = get_env env (bytes "DATA_PIPELINE") (bytes "off") in
      elim (Bool-cases (bytes_eq mode (bytes "off"))) [
        | inl off ↦ inl (ground arith)
        | inr other ↦ elim (Bool-cases (bytes_eq mode (bytes "firehose"))) [
          | inl asked ↦
              let (stream, (set, h1)) =
                then_-ok (must_env env (bytes "DATA_PIPELINE_STREAM")) _ emitter
                  (rw (other, asked) at h) in
              let cfg : FirehoseConfig = record {
                stream_name = stream;
                region = get_env env (bytes "AWS_REGION") (bytes "us-east-2");
                buffer_size = pos 0;
                flush_interval = pos 0;
              } in
              let (opened, (built, h2)) =
                then_-ok (or_fatal cannot_deliver (new_firehose aws_loads cfg)) _ emitter h1 in
              let (stream_is, stream_set) =
                must_env-ok env (bytes "DATA_PIPELINE_STREAM") stream set in
              inr (
                opened,
                sym (ok_inj (some opened) emitter h2),
                get_env-set env (bytes "DATA_PIPELINE") (bytes "off") (bytes "firehose")
                    ((bytes_eq_iff mode (bytes "firehose")).0 asked) not_off,
                new_firehose-ok aws_loads cfg opened
                      (or_fatal-ok cannot_deliver (new_firehose aws_loads cfg) opened built)
                    ∙ stream_is,
                stream_set,
              )
          | inr unknown ↦ absurd (ground arith)
        ]
      ]
