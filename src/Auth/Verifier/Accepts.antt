-- ===== src/Auth/Verifier/Accepts.antt =====
-- Which tokens Verify accepts, and what a request behind Middleware carries.
use mathlib.Core.List.{Memᴰ}
use maroon_ledger.Base.{
  ℕ, ◌+◌, ◌<◌, ◌≡◌, refl, ◌≢◌, inl, inr, Bool, true, false, Option, some, [], ◌∷◌, arith,
  Option-cases,
}
use maroon_ledger.Go.Bytes.{
  Bytes, bytes, bytes_eq_iff, is_empty, is_empty_iff, Unicode, cut, trim_space, equal_fold,
}
use maroon_ledger.Auth.Claims.{Claims}
use maroon_ledger.Auth.Verifier.{
  Config, MapClaims, ParserOptions, Parser, parser_options, text_claim, claims_of, accept_claims,
  verify, authenticate,
}
use maroon_ledger.Handlers.World.{ok}
use maroon_ledger.Handlers.Http.{subject_of}

-- What a token must show behind the parser: an access token, for this client, of some user.
abbrev pub MeantForUs : Config → MapClaims → Type 0
MeantForUs cfg claims =
    (text_claim (bytes "token_use") claims ≡ bytes "access")
    × (text_claim (bytes "client_id") claims ≡ cfg.client_id)
    × (text_claim (bytes "sub") claims ≢ [])

accept_claims_sound :
    (cfg : Config) (claims : MapClaims) (c : Claims)
    → accept_claims cfg claims ≡ some c
    → MeantForUs cfg claims × (c ≡ claims_of claims)
unfolding accept_claims
accept_claims_sound cfg claims c h = ground (
  arith,
  bytes_eq_iff (text_claim (bytes "token_use") claims) (bytes "access"),
  bytes_eq_iff (text_claim (bytes "client_id") claims) cfg.client_id,
  is_empty_iff (text_claim (bytes "sub") claims),
)

pub is_empty-named : (s : Bytes) → s ≢ [] → is_empty s ≡ false
unfolding is_empty
is_empty-named [] h = absurd (h refl)
is_empty-named (c ∷ s) h = refl

accept_claims_complete :
    (cfg : Config) (claims : MapClaims)
    → MeantForUs cfg claims
    → accept_claims cfg claims ≡ some (claims_of claims)
unfolding accept_claims
accept_claims_complete cfg claims (use_access, ours, named) = rw (
  (bytes_eq_iff (text_claim (bytes "token_use") claims) (bytes "access")).1 use_access,
  (bytes_eq_iff (text_claim (bytes "client_id") claims) cfg.client_id).1 ours,
  is_empty-named (text_claim (bytes "sub") claims) named,
)

-- Verify accepts exactly the tokens that the parser finds valid and that are access tokens, for
-- this client, of a named subject; and it returns what such a token claims.
pub verify_accepts :
    (cfg : Config) (parse : Parser) (now : ℕ) (raw : Bytes)
    → ((c : Claims)
        → verify cfg parse now raw ≡ some c
        → (claims : MapClaims) × ((parse (parser_options cfg) now raw ≡ some claims)
            × (MeantForUs cfg claims × (c ≡ claims_of claims))))
      × ((claims : MapClaims)
          → parse (parser_options cfg) now raw ≡ some claims
          → MeantForUs cfg claims
          → verify cfg parse now raw ≡ some (claims_of claims))
unfolding verify
verify_accepts cfg parse now raw = (
  λ c h. elim (Option-cases (parse (parser_options cfg) now raw)) [
    | inl refused ↦ absurd (ground arith)
    | inr (parsed, e) ↦ (parsed, (e, accept_claims_sound cfg parsed c (ground arith)))
  ],
  λ claims h ours. ground (arith, accept_claims_complete cfg claims ours),
)

-- What a token is, apart from its claims: how it says it is signed, whether the signature checks
-- under the issuer's published key, its issuer, and when it expires.
pub record TokenFacts : Type 0 where
  pub algorithm : Bytes → Bytes
  pub signed : Bytes → Bool
  pub issuer : Bytes → Bytes
  pub expires : Bytes → Option ℕ

-- The parser as documented: it takes a token only if it is signed, by one of the valid methods, if
-- the issuer is the expected one, and, where an expiration is required, if there is one that has
-- not passed by more than the leeway.
abbrev pub Documented : Parser → TokenFacts → Type 0
Documented parse facts =
    (o : ParserOptions) (now : ℕ) (raw : Bytes) (claims : MapClaims)
    → parse o now raw ≡ some claims
    → Memᴰ (facts.algorithm raw) o.valid_methods
      × (facts.signed raw ≡ true)
      × (facts.issuer raw ≡ o.issuer)
      × (o.expiration_required ≡ true
          → (end : ℕ) × (facts.expires raw ≡ some end) × (now < end + o.leeway))

authenticate-verify :
    (u : Unicode) (cfg : Config) (parse : Parser) (now : ℕ) (header : Bytes) (c : Claims)
    → authenticate u cfg parse now header ≡ some c
    → (scheme : Bytes) × ((token : Bytes) × ((cut header b' ' ≡ some (scheme, token))
          × ((equal_fold scheme (bytes "Bearer") ≡ true)
              × (verify cfg parse now (trim_space u token) ≡ some c))))
unfolding authenticate
authenticate-verify u cfg parse now header c h = elim (Option-cases (cut header b' ')) [
  | inl uncut ↦ absurd (ground arith)
  | inr ((scheme, token), e) ↦ (scheme, (token, (e, (ground arith, ground arith))))
]

claims_of-subject :
    (cfg : Config) (claims : MapClaims)
    → MeantForUs cfg claims
    → subject_of (some (claims_of claims)) ≡ ok (text_claim (bytes "sub") claims)
unfolding subject_of
claims_of-subject cfg claims (use_access, ours, named) =
    rw (is_empty-named (text_claim (bytes "sub") claims) named)

mem-one : (s t : Bytes) → Memᴰ s (t ∷ []) → s ≡ t
mem-one s t (Memᴰ.head e) = e
mem-one s t (Memᴰ.tail m) = elim m [ ]

-- With a parser that does what it documents, a request gets past the middleware only with a header
-- `Bearer <token>`, in any case of letters, whose token is signed with RS256 under the issuer's key,
-- issued by the configured issuer and expired by less than 30 seconds; and the handlers behind it
-- find a user.
pub authenticate_sound :
    (u : Unicode) (cfg : Config) (parse : Parser) (facts : TokenFacts)
    → Documented parse facts
    → (now : ℕ) (header : Bytes) (c : Claims) → authenticate u cfg parse now header ≡ some c
    → (subject_of (some c) ≡ ok c.subject)
      × ((scheme : Bytes) × (token : Bytes) × (cut header b' ' ≡ some (scheme, token))
          × (equal_fold scheme (bytes "Bearer") ≡ true)
          × (let raw = trim_space u token in
              (facts.algorithm raw ≡ bytes "RS256")
              × (facts.signed raw ≡ true)
              × (facts.issuer raw ≡ cfg.issuer)
              × ((end : ℕ) × (facts.expires raw ≡ some end) × (now < end + 30))))
unfolding parser_options
authenticate_sound u cfg parse facts documented now header c h =
    let (scheme, (token, (split, (bearer, verified)))) =
      authenticate-verify u cfg parse now header c h in
    let raw = trim_space u token in
    let (claims, (parsed, (ours, same))) = (verify_accepts cfg parse now raw).0 c verified in
    let (method, signed, issued, expiring) =
      documented (parser_options cfg) now raw claims parsed in
    (
      rw same (claims_of-subject cfg claims ours),
      (
        scheme,
        token,
        split,
        bearer,
        (mem-one (facts.algorithm raw) (bytes "RS256") method, signed, issued, expiring refl),
      ),
    )
