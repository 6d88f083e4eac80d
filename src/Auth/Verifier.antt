-- ===== src/Auth/Verifier.antt =====
-- Verify and Middleware of app/internal/auth/auth.go. The parser of tokens (golang-jwt, with the
-- issuer's published keys) is a parameter.
pub mod Accepts
use maroon_ledger.Base.{
  ℕ, zero, suc, ◌+◌, ◌-◌, ◌*◌, ◌/◌, ◌%◌, ◌^◌, ◌≤◌, ◌<◌, String, ◌≡◌, refl, sym, ap, ◌∙◌, ◌≢◌, ◌↔◌,
  ◌⊎◌, inl, inr, Bool, true, false, not, ◌&&◌, ◌||◌, Option, none, some, List, [], ◌∷◌, ◌++◌, map,
  append-nil, append_assoc, arith, ltb, leb, ◌==◌, if◌then◌else◌, Bool-cases, Option-cases, is_some,
  length, length-append, All, All-append,
}
use maroon_ledger.Go.Bytes.{Bytes, bytes, bytes_eq, is_empty, cut, equal_fold, trim_space, Unicode}
use maroon_ledger.Auth.Claims.{Claims}

pub record Config : Type 0 where
  pub issuer : Bytes
  pub jwks_url : Bytes
  pub client_id : Bytes

-- A value of a token's claims: a text, a number, a list (of which the elements that are no texts are
-- `none`), or another value.
pub data ClaimValue : Type 0 where
  text : Bytes → ClaimValue
  number : ℕ → ClaimValue
  values : List (Option Bytes) → ClaimValue
  other_value : ClaimValue

abbrev pub MapClaims : Type 0
MapClaims = List (Bytes × ClaimValue)

-- The options of jwt.Parse that Verify sets; the leeway is in seconds.
pub record ParserOptions : Type 0 where
  pub valid_methods : List Bytes
  pub issuer : Bytes
  pub expiration_required : Bool
  pub leeway : ℕ

-- jwt.Parse: the claims of a token that it finds valid at a time.
abbrev pub Parser : Type 0
Parser = ParserOptions → ℕ → Bytes → Option MapClaims

pub record Verifier : Type 0 where
  pub cfg : Config
  pub parse : Parser

abbrev with_keys : Config → Option Parser → Option Verifier
with_keys cfg none = none
with_keys cfg (some parse) = some (record { cfg = cfg; parse = parse })

-- NewVerifier: the keys that a URL serves make the parser, `none` if the first fetch fails.
unfoldable pub new_verifier : (Bytes → Option Parser) → Config → Option Verifier
new_verifier keys_at cfg =
    if is_empty cfg.issuer || (is_empty cfg.jwks_url || is_empty cfg.client_id)
    then none
    else with_keys cfg (keys_at cfg.jwks_url)

unfoldable pub parser_options : Config → ParserOptions
parser_options cfg = record {
  valid_methods = bytes "RS256" ∷ [];
  issuer = cfg.issuer;
  expiration_required = true;
  leeway = 30;
}

-- claims[key]
unfoldable pub claim : Bytes → MapClaims → Option ClaimValue
claim key [] = none
claim key ((k, v) ∷ rest) = if bytes_eq k key then some v else claim key rest

-- `x, _ := claims[key].(string)`
abbrev pub text_of : Option ClaimValue → Bytes
text_of (some (text s)) = s
text_of (some (number n)) = []
text_of (some (values vs)) = []
text_of (some other_value) = []
text_of none = []

unfoldable pub text_claim : Bytes → MapClaims → Bytes
text_claim key claims = text_of (claim key claims)

unfoldable pub texts : List (Option Bytes) → List Bytes
texts [] = []
texts (some s ∷ rest) = s ∷ texts rest
texts (none ∷ rest) = texts rest

abbrev groups_of : Option ClaimValue → List Bytes
groups_of (some (values vs)) = texts vs
groups_of (some (text s)) = []
groups_of (some (number n)) = []
groups_of (some other_value) = []
groups_of none = []

abbrev pub claims_of : MapClaims → Claims
claims_of claims = record {
  subject = text_claim (bytes "sub") claims;
  username = text_claim (bytes "username") claims;
  groups = groups_of (claim (bytes "cognito:groups") claims);
}

-- The checks behind the parser.
unfoldable pub accept_claims : Config → MapClaims → Option Claims
accept_claims cfg claims =
    if not (bytes_eq (text_claim (bytes "token_use") claims) (bytes "access"))
    then none
    else if not (bytes_eq (text_claim (bytes "client_id") claims) cfg.client_id)
    then none
    else if is_empty (text_claim (bytes "sub") claims)
    then none
    else some (claims_of claims)

-- Verify: `none` is ErrUnauthorized.
unfoldable pub verify : Config → Parser → ℕ → Bytes → Option Claims
verify cfg parse now raw = elim (parse (parser_options cfg) now raw) [
  | none ↦ none
  | some claims ↦ accept_claims cfg claims
]

-- Middleware: the claims that are attached to the request, `none` for 401.
unfoldable pub authenticate : Unicode → Config → Parser → ℕ → Bytes → Option Claims
authenticate u cfg parse now header = elim (cut header b' ') [
  | none ↦ none
  | some (scheme, token) ↦
      if equal_fold scheme (bytes "Bearer") then verify cfg parse now (trim_space u token) else none
]
