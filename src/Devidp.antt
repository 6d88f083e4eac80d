-- ===== src/Devidp.antt =====
-- app/cmd/devidp/main.go: the issuer of tokens that stands in for Cognito in development. SHA-256
-- and the signature under the process's key are parameters.
pub mod Keys
pub mod Minted
pub mod Admitted
pub mod Serve
use maroon_ledger.Base.{
  ℕ, zero, suc, ◌+◌, ◌-◌, ◌*◌, ◌/◌, ◌%◌, ◌^◌, ◌≤◌, ◌<◌, String, ◌≡◌, refl, sym, ap, ◌∙◌, ◌≢◌, ◌↔◌,
  ◌⊎◌, inl, inr, Bool, true, false, not, ◌&&◌, ◌||◌, Option, none, some, List, [], ◌∷◌, ◌++◌, map,
  append-nil, append_assoc, arith, ltb, leb, ◌==◌, if◌then◌else◌, Bool-cases, Option-cases, is_some,
  length, length-append, All, All-append, take, drop,
}
use maroon_ledger.Go.Bytes.{Bytes, bytes, bytes_eq, is_empty, concat}
use maroon_ledger.Go.Encoding.{hex}
use maroon_ledger.Go.Os.{Environment, get_env}
use maroon_ledger.Go.Strconv.{itoa_nat}
use maroon_ledger.Go.Time.{unix, unix_nano}
use maroon_ledger.Auth.Verifier.{MapClaims, text, number}
use maroon_ledger.Handlers.World.{Result, ok, err}
use maroon_ledger.Handlers.Http.{HttpError}

-- What main reads from the environment.
pub record Settings : Type 0 where
  pub issuer : Bytes
  pub client_id : Bytes
  pub addr : Bytes

unfoldable pub settings : Environment → Settings
settings env = record {
  issuer = get_env env (bytes "DEVIDP_ISSUER") (bytes "http://localhost:9000");
  client_id = get_env env (bytes "DEVIDP_CLIENT_ID") (bytes "maroonledger-local");
  addr = b':' ∷ get_env env (bytes "DEVIDP_PORT") (bytes "9000");
}

-- sha256.Sum256
abbrev pub Digest : Type 0
Digest = Bytes → Bytes

abbrev pub slice : Bytes → ℕ → ℕ → Bytes
slice s from to = take (to - from) (drop from s)

-- stableSubject
unfoldable pub stable_subject : Digest → Bytes → Bytes
stable_subject sha256 username =
    let sum = sha256 (bytes "maroonledger-dev:" ++ username) in
    hex (slice sum 0 4)
    ++ b'-'
      ∷ (hex (slice sum 4 6)
          ++ b'-'
            ∷ (hex (slice sum 6 8)
                ++ b'-' ∷ (hex (slice sum 8 10) ++ b'-' ∷ hex (slice sum 10 16))))

abbrev pub lifetime : ℕ
lifetime = 3600

-- The claims of a token that is issued at a time.
unfoldable pub token_claims : Digest → Settings → Bytes → ℕ → MapClaims
token_claims sha256 s username now =
    (bytes "sub", text (stable_subject sha256 username))
    ∷ (bytes "token_use", text (bytes "access"))
    ∷ (bytes "client_id", text s.client_id)
    ∷ (bytes "username", text username)
    ∷ (bytes "scope", text (bytes "openid profile"))
    ∷ (bytes "iss", text s.issuer)
    ∷ (bytes "iat", number (unix now))
    ∷ (bytes "exp", number (unix now + lifetime))
    ∷ (bytes "jti", text (itoa_nat (unix_nano now)))
    ∷ []

-- SignedString under the key, with RS256 and the key's ID in the header: `none` is an error.
abbrev pub Signer : Type 0
Signer = MapClaims → Option Bytes

pub record TokenResponse : Type 0 where
  pub access_token : Bytes
  pub token_type : Bytes
  pub expires_in : ℕ
  pub username : Bytes

-- What a request for a token names: the form's username, and what decoding the body leaves in the
-- struct.
pub record TokenRequest : Type 0 where
  pub form_username : Bytes
  pub body_username : Bytes

unfoldable pub requested : TokenRequest → Bytes
requested r = if is_empty r.form_username then r.body_username else r.form_username

abbrev issue : Bytes → Option Bytes → Result HttpError TokenResponse
issue username none = err (record { status = 500; message = bytes "failed to sign token" })
issue username (some signed) = ok (record {
  access_token = signed;
  token_type = bytes "Bearer";
  expires_in = lifetime;
  username = username;
})

-- The handler of POST /token.
unfoldable pub token :
    Digest → Signer → Settings → TokenRequest → ℕ → Result HttpError TokenResponse
token sha256 sign s r now =
    let username = requested r in
    if is_empty username
    then err (record { status = 400; message = bytes "username is required" })
    else issue username (sign (token_claims sha256 s username now))

-- The discovery document.
pub record Discovery : Type 0 where
  pub issuer : Bytes
  pub jwks_uri : Bytes
  pub token_endpoint : Bytes
  pub id_token_signing_alg_values_supported : List Bytes

unfoldable pub discovery : Settings → Discovery
discovery s = record {
  issuer = s.issuer;
  jwks_uri = s.issuer ++ bytes "/.well-known/jwks.json";
  token_endpoint = s.issuer ++ bytes "/token";
  id_token_signing_alg_values_supported = bytes "RS256" ∷ [];
}
