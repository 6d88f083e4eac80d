-- ===== src/Devidp/Minted.antt =====
-- The claims that app/cmd/devidp/main.go puts into a token: what they are, and that they are plain.
use maroon_ledger.Base.{
  ℕ, zero, suc, ◌+◌, ◌-◌, ◌/◌, ◌%◌, ◌^◌, ◌<◌, ◌≡◌, refl, ◌≢◌, true, none, some, List, [], ◌∷◌, ◌++◌,
  arith, All, take, drop,
}
use maroon_ledger.Go.Bytes.{Bytes, bytes, bytes_eq, is_ascii}
use maroon_ledger.Go.Encoding.{hex}
use maroon_ledger.Go.Encoding.Decoded.{IsByte}
use maroon_ledger.Go.Strconv.{itoa_nat, digits_from}
use maroon_ledger.Go.Time.{unix, unix_nano}
use maroon_ledger.Auth.Verifier.{ClaimValue, text, number, MapClaims, claim}
use maroon_ledger.Devidp.{Settings, Digest, stable_subject, slice, lifetime, token_claims}

-- A value that JSON gives back as it was: ASCII text, or a number that a float64 holds.
pub data IsPlain : ClaimValue → Type 0 where
  plain_text : {s : Bytes} → is_ascii s ≡ true → IsPlain (text s)
  plain_number : {n : ℕ} → n < 2 ^ 53 → IsPlain (number n)

abbrev pub AllPlain : MapClaims → Type 0
AllPlain = All (λ (entry : Bytes × ClaimValue). IsPlain entry.1)

is_ascii-append : (s t : Bytes) → is_ascii s ≡ true → is_ascii t ≡ true → is_ascii (s ++ t) ≡ true
unfolding is_ascii
is_ascii-append [] t hs ht = ht
is_ascii-append (c ∷ s) t hs ht = ground (arith, is_ascii-append s t)

is_ascii-hex : (s : Bytes) → All IsByte s → is_ascii (hex s) ≡ true
unfolding is_ascii hex
is_ascii-hex [] h = refl
is_ascii-hex (b ∷ s) h = ground (arith, is_ascii-hex s)

is_ascii-digits_from :
    (fuel n : ℕ) (acc : Bytes)
    → n < fuel
    → is_ascii acc ≡ true
    → is_ascii (digits_from fuel n acc) ≡ true
unfolding is_ascii digits_from
is_ascii-digits_from zero n acc h ha = absurd (omega arith)
is_ascii-digits_from (suc fuel) n acc h ha =
    ground (arith, is_ascii-digits_from fuel (n / 10) ((b'0' + n % 10) ∷ acc))

is_ascii-itoa_nat : (n : ℕ) → is_ascii (itoa_nat n) ≡ true
unfolding itoa_nat is_ascii
is_ascii-itoa_nat n = is_ascii-digits_from (suc n) n [] (omega arith) refl

All-take {ℓ κ} : {A : Type ℓ} (P : A → Type κ) (n : ℕ) (xs : List A) → All P xs → All P (take n xs)
All-take P zero xs h = tt
All-take P (suc n) [] h = tt
All-take P (suc n) (x ∷ xs) h = (h.0, All-take P n xs h.1)

All-drop {ℓ κ} : {A : Type ℓ} (P : A → Type κ) (n : ℕ) (xs : List A) → All P xs → All P (drop n xs)
All-drop P zero xs h = h
All-drop P (suc n) [] h = tt
All-drop P (suc n) (x ∷ xs) h = All-drop P n xs h.1

is_ascii-group : (s : Bytes) (from to : ℕ) → All IsByte s → is_ascii (hex (slice s from to)) ≡ true
is_ascii-group s from to h =
    is_ascii-hex (slice s from to)
      (All-take IsByte (to - from) (drop from s) (All-drop IsByte from s h))

is_ascii-dash :
    (s t : Bytes) → is_ascii s ≡ true → is_ascii t ≡ true → is_ascii (s ++ b'-' ∷ t) ≡ true
unfolding is_ascii
is_ascii-dash s t hs ht = is_ascii-append s (b'-' ∷ t) hs ht

is_ascii-stable_subject :
    (sha256 : Digest) (username : Bytes)
    → ((s : Bytes) → All IsByte (sha256 s))
    → is_ascii (stable_subject sha256 username) ≡ true
unfolding stable_subject
is_ascii-stable_subject sha256 username digest =
    let sum = sha256 (bytes "maroonledger-dev:" ++ username) in
    let group = λ (from : ℕ) (to : ℕ). is_ascii-group sum from to (digest _) in
    is_ascii-dash _ _ (group 0 4) (
      is_ascii-dash _ _ (group 4 6)
        (is_ascii-dash _ _ (group 6 8) (is_ascii-dash _ _ (group 8 10) (group 10 16))))

dash-nonempty : (s t : Bytes) → s ++ b'-' ∷ t ≢ []
dash-nonempty [] t h = cc (h)
dash-nonempty (c ∷ s) t h = cc (h)

-- A subject is never empty, whatever the digest.
pub stable_subject-nonempty :
    (sha256 : Digest) (username : Bytes) → stable_subject sha256 username ≢ []
unfolding stable_subject
stable_subject-nonempty sha256 username = dash-nonempty _ _

ascii_literals : (is_ascii (bytes "access") ≡ true) × (is_ascii (bytes "openid profile") ≡ true)
unfolding is_ascii bytes
ascii_literals = (refl, refl)

module _ (sha256 : Digest) (s : Settings) (username : Bytes) (now : ℕ) where
  abbrev minted : MapClaims
  minted = token_claims sha256 s username now

  pub minted-claims :
      (claim (bytes "sub") minted ≡ some (text (stable_subject sha256 username)))
      × (claim (bytes "token_use") minted ≡ some (text (bytes "access")))
      × (claim (bytes "client_id") minted ≡ some (text s.client_id))
      × (claim (bytes "username") minted ≡ some (text username))
      × (claim (bytes "iss") minted ≡ some (text s.issuer))
      × (claim (bytes "exp") minted ≡ some (number (unix now + lifetime)))
      × (claim (bytes "nbf") minted ≡ none)
      × (claim (bytes "cognito:groups") minted ≡ none)
  unfolding token_claims claim bytes bytes_eq
  minted-claims = (refl, refl, refl, refl, refl, refl, refl, refl)

  pub minted-AllPlain :
      ((t : Bytes) → All IsByte (sha256 t))
      → is_ascii s.issuer ≡ true
      → is_ascii s.client_id ≡ true
      → is_ascii username ≡ true
      → unix now + lifetime < 2 ^ 53
      → AllPlain minted
  unfolding token_claims
  minted-AllPlain digest issuer client named early = (
    plain_text (is_ascii-stable_subject sha256 username digest),
    (
      plain_text ascii_literals.0,
      (
        plain_text client,
        (
          plain_text named,
          (
            plain_text ascii_literals.1,
            (
              plain_text issuer,
              (
                plain_number (omega arith),
                (plain_number early, (plain_text (is_ascii-itoa_nat (unix_nano now)), tt)),
              ),
            ),
          ),
        ),
      ),
    ),
  )
