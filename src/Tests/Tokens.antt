-- ===== src/Tests/Tokens.antt =====
-- Tokens at concrete inputs: a parser whose tokens are their issuer's name and expire at 1000.
use mathlib.Core.List.{Memᴰ}
use maroon_ledger.Base.{
  ℕ, ◌+◌, ◌<◌, ◌≡◌, refl, true, ◌&&◌, Option, none, some, List, [], ◌∷◌, arith, ltb, if◌then◌else◌,
}
use maroon_ledger.Go.Bytes.{
  Bytes, bytes, bytes_eq, bytes_eq_iff, cut, equal_fold, trim_space, ascii_lower, is_ascii,
  is_empty,
}
use maroon_ledger.Auth.Claims.{Claims}
use maroon_ledger.Auth.Verifier.{
  Config, MapClaims, Parser, text, parser_options, text_claim, claim, claims_of, accept_claims,
  verify, authenticate,
}
use maroon_ledger.Auth.Verifier.Accepts.{
  MeantForUs, TokenFacts, Documented, verify_accepts, authenticate_sound,
}
use maroon_ledger.Handlers.World.{ok}
use maroon_ledger.Handlers.Http.{subject_of}
use maroon_ledger.Tests.Fixtures.{ascii, alice}

abbrev pub pool : Config
pool = record {
  issuer = bytes "pool";
  jwks_url = bytes "https://pool/jwks.json";
  client_id = bytes "app";
}

abbrev pub alice_token : MapClaims
alice_token =
    (bytes "token_use", text (bytes "access"))
    ∷ (bytes "client_id", text (bytes "app"))
    ∷ (bytes "sub", text alice)
    ∷ []

abbrev parse_with : List Bytes → Bytes → ℕ → Bytes → Option MapClaims
parse_with [] issuer now raw = none
parse_with (method ∷ methods) issuer now raw =
    if bytes_eq (bytes "RS256") method && (bytes_eq raw issuer && ltb now 1000)
    then some alice_token
    else none

abbrev pub parser : Parser
parser o now raw = parse_with o.valid_methods o.issuer now raw

abbrev facts : TokenFacts
facts = record {
  algorithm = λ raw. bytes "RS256";
  signed = λ raw. true;
  issuer = λ raw. raw;
  expires = λ raw. some 1000;
}

parse_with-documented :
    (methods : List Bytes) (issuer : Bytes) (now : ℕ) (raw : Bytes) (claims : MapClaims)
    → parse_with methods issuer now raw ≡ some claims
    → Memᴰ (bytes "RS256") methods × ((raw ≡ issuer) × (now < 1000))
parse_with-documented [] issuer now raw claims h = absurd (ground arith)
parse_with-documented (method ∷ methods) issuer now raw claims h = (
  Memᴰ.head ((bytes_eq_iff (bytes "RS256") method).0 (ground arith)),
  ((bytes_eq_iff raw issuer).0 (ground arith), ground arith),
)

parser-Documented : Documented parser facts
parser-Documented o now raw claims h =
    let (listed, (issued, fresh)) =
      parse_with-documented o.valid_methods o.issuer now raw claims h in
    (listed, refl, issued, λ required. (1000, refl, omega arith))

verify_accepts_example :
    ((c : Claims)
      → verify pool parser 990 (bytes "pool") ≡ some c
      → (claims : MapClaims) × ((parser (parser_options pool) 990 (bytes "pool") ≡ some claims)
          × (MeantForUs pool claims × (c ≡ claims_of claims))))
    × ((claims : MapClaims)
        → parser (parser_options pool) 990 (bytes "pool") ≡ some claims
        → MeantForUs pool claims
        → verify pool parser 990 (bytes "pool") ≡ some (claims_of claims))
verify_accepts_example = verify_accepts pool parser 990 (bytes "pool")

pub alice_accepted :
    authenticate ascii pool parser 990 (bytes "bearer pool") ≡ some (claims_of alice_token)
unfolding authenticate verify parser_options accept_claims text_claim claim bytes bytes_eq cut
    equal_fold ascii_lower is_ascii trim_space is_empty
alice_accepted = refl

authenticate_sound_example :
    (subject_of (some (claims_of alice_token)) ≡ ok (claims_of alice_token).subject)
    × ((scheme : Bytes) × (token : Bytes) × (cut (bytes "bearer pool") b' ' ≡ some (scheme, token))
        × (equal_fold scheme (bytes "Bearer") ≡ true)
        × (let raw = trim_space ascii token in
            (facts.algorithm raw ≡ bytes "RS256")
            × (facts.signed raw ≡ true)
            × (facts.issuer raw ≡ pool.issuer)
            × ((end : ℕ) × (facts.expires raw ≡ some end) × (990 < end + 30))))
authenticate_sound_example =
    authenticate_sound ascii pool parser facts parser-Documented 990 (bytes "bearer pool")
      (claims_of alice_token) alice_accepted
