-- ===== src/Devidp/Admitted.antt =====
-- A token of the development issuer, presented to the middleware of app/internal/auth.
use mathlib.Core.List.{Memᴰ}
use maroon_ledger.Base.{ℕ, ◌+◌, ◌^◌, ◌<◌, ◌≡◌, refl, ap, ◌∙◌, ◌≢◌, true, none, some, [], ◌++◌, All}
use maroon_ledger.Go.Bytes.{
  Bytes, bytes, bytes_eq, is_ascii, Unicode, cut, trim_space, equal_fold, ascii_lower,
}
use maroon_ledger.Go.Encoding.Decoded.{IsByte}
use maroon_ledger.Go.Time.{unix}
use maroon_ledger.Auth.Verifier.{
  Config, number, MapClaims, ParserOptions, Parser, parser_options, claim, text_claim, claims_of,
  verify, authenticate,
}
use maroon_ledger.Auth.Verifier.Accepts.{MeantForUs, verify_accepts, is_empty-named}
use maroon_ledger.Handlers.World.{ok}
use maroon_ledger.Devidp.{
  discovery, Settings, Digest, Signer, stable_subject, lifetime, token_claims, TokenRequest,
  requested, token,
}
use maroon_ledger.Devidp.Minted.{AllPlain, stable_subject-nonempty, minted-claims, minted-AllPlain}

-- The parser has the signer's key: a token signed with RS256 that names the expected issuer, has an
-- expiration that has not passed by more than the leeway, and no time before which it is not valid,
-- is found valid, and its claims are read as they were signed.
abbrev pub ReadsBack : Parser → Signer → Type 0
ReadsBack parse sign =
    (o : ParserOptions) (now end : ℕ) (claims : MapClaims) (raw : Bytes)
    → sign claims ≡ some raw
    → AllPlain claims
    → Memᴰ (bytes "RS256") o.valid_methods
    → text_claim (bytes "iss") claims ≡ o.issuer
    → claim (bytes "exp") claims ≡ some (number end)
    → now < end + o.leeway
    → claim (bytes "nbf") claims ≡ none
    → (parsed : MapClaims) × ((parse o now raw ≡ some parsed)
        × ((key : Bytes) → claim key parsed ≡ claim key claims))

-- The server's configuration for this issuer.
abbrev pub config_of : Settings → Config
config_of s = record {
  issuer = s.issuer;
  jwks_url = (discovery s).jwks_uri;
  client_id = s.client_id;
}

claims_of-minted :
    (sha256 : Digest) (s : Settings) (username : Bytes) (now : ℕ) (parsed : MapClaims)
    → ((key : Bytes) → claim key parsed ≡ claim key (token_claims sha256 s username now))
    → MeantForUs (config_of s) parsed
      × (claims_of parsed
          ≡ record { subject = stable_subject sha256 username; username = username; groups = [] })
unfolding text_claim
claims_of-minted sha256 s username now parsed same =
    let (sub, use_access, client, name, iss, exp, nbf, groups) =
      minted-claims sha256 s username now in
    (
      (
        rw (same (bytes "token_use"), use_access) refl,
        rw (same (bytes "client_id"), client) refl,
        rw (same (bytes "sub"), sub) (stable_subject-nonempty sha256 username),
      ),
      rw
          (
            same (bytes "sub"),
            same (bytes "username"),
            same (bytes "cognito:groups"),
            sub,
            name,
            groups,
          )
          refl,
    )

admitted_by_verify :
    (parse : Parser) (sign : Signer) (sha256 : Digest) (s : Settings) (username raw : Bytes)
    (issued_at now : ℕ)
    → ReadsBack parse sign
    → AllPlain (token_claims sha256 s username issued_at)
    → sign (token_claims sha256 s username issued_at) ≡ some raw
    → now < unix issued_at + lifetime + 30
    → verify (config_of s) parse now raw
      ≡ some (record { subject = stable_subject sha256 username; username = username; groups = [] })
unfolding parser_options text_claim
admitted_by_verify parse sign sha256 s username raw issued_at now reads plain signed fresh =
    let cfg : Config = config_of s in
    let (sub, use_access, client, name, iss, exp, nbf, groups) =
      minted-claims sha256 s username issued_at in
    let (parsed, (found, same)) =
      reads (parser_options cfg) now (unix issued_at + lifetime)
        (token_claims sha256 s username issued_at) raw signed plain (Memᴰ.head refl) (rw iss refl)
        exp fresh nbf in
    let (ours, read) = claims_of-minted sha256 s username issued_at parsed same in
    (verify_accepts cfg parse now raw).1 parsed found ours ∙ ap some read

authenticate-bearer :
    (u : Unicode) (cfg : Config) (parse : Parser) (now : ℕ) (raw : Bytes)
    → trim_space u raw ≡ raw
    → authenticate u cfg parse now (bytes "Bearer " ++ raw) ≡ verify cfg parse now raw
unfolding authenticate bytes cut equal_fold ascii_lower bytes_eq
authenticate-bearer u cfg parse now raw trimmed = rw trimmed refl

-- Signing in with the development issuer works. A request that names a user gets the signed token,
-- and the server of the same issuer and client, shown that token as `Bearer` until 30 seconds
-- behind its hour, admits the request as that user: of the subject that the name always has, and of
-- no group. The parser is to read back what is signed under the issuer's key; issuer, client and
-- name are ASCII, the digest is made of bytes, the clock is before 2^53 seconds, and a token has no
-- blank at its ends.
pub token-admitted :
    (u : Unicode) (parse : Parser) (sign : Signer) (sha256 : Digest) (s : Settings)
    (r : TokenRequest) (issued_at now : ℕ) (raw : Bytes)
    → ReadsBack parse sign
    → ((t : Bytes) → All IsByte (sha256 t))
    → is_ascii s.issuer ≡ true
    → is_ascii s.client_id ≡ true
    → is_ascii (requested r) ≡ true
    → requested r ≢ []
    → unix issued_at + lifetime < 2 ^ 53
    → sign (token_claims sha256 s (requested r) issued_at) ≡ some raw
    → trim_space u raw ≡ raw
    → now < unix issued_at + lifetime + 30
    → (token sha256 sign s r issued_at
        ≡ ok (record {
          access_token = raw;
          token_type = bytes "Bearer";
          expires_in = lifetime;
          username = requested r;
        }))
      × (authenticate u (config_of s) parse now (bytes "Bearer " ++ raw)
          ≡ some (record {
            subject = stable_subject sha256 (requested r);
            username = requested r;
            groups = [];
          }))
unfolding token
token-admitted u parse sign sha256 s r issued_at now raw reads digest issuer client named asked
      early signed trimmed fresh =
    let cfg : Config = config_of s in
    let plain = minted-AllPlain sha256 s (requested r) issued_at digest issuer client named early in
    (
      rw (is_empty-named (requested r) asked, signed) refl,
      authenticate-bearer u cfg parse now raw trimmed
          ∙ admitted_by_verify parse sign sha256 s (requested r) raw issued_at now reads plain
              signed fresh,
    )
