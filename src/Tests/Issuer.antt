-- ===== src/Tests/Issuer.antt =====
-- The development issuer at a concrete key, and a token of it: a signer that signs the claims of one
-- token, and a parser that knows it.
use maroon_ledger.Base.{
  ℕ, ◌+◌, ◌*◌, ◌<◌, ◌≡◌, refl, sym, ap, ◌∙◌, ◌≢◌, inl, inr, Bool, true, false, ◌&&◌, none, some, [],
  ◌∷◌, ◌++◌, arith, ltb, ◌==◌, if◌then◌else◌, Bool-cases, All,
}
use maroon_ledger.Go.Bytes.{
  Bytes, bytes, bytes_eq, bytes_eq_iff, bytes_eq_refl, is_empty, is_ascii, trim_space, trim_left,
  trim_right,
}
use maroon_ledger.Go.Encoding.Decoded.{IsByte}
use maroon_ledger.Go.Encoding.{hex, base64, int_bytes, bytes_from, put_uint64, set_bytes, letter}
use maroon_ledger.Go.Strconv.{itoa_nat, digits_from}
use maroon_ledger.Go.Time.{day_nanos}
use maroon_ledger.Auth.Verifier.{
  ClaimValue, text, number, values, other_value, MapClaims, Parser, claim, text_claim, authenticate,
}
use maroon_ledger.Handlers.World.{ok}
use maroon_ledger.Devidp.{
  Settings, Digest, Signer, TokenRequest, stable_subject, token_claims, requested, token, lifetime,
}
use maroon_ledger.Devidp.Keys.{PublicKey, big_endian, jwk, key_of, key_of-jwk}
use maroon_ledger.Devidp.Admitted.{ReadsBack, config_of, token-admitted}
use maroon_ledger.Tests.Fixtures.{ascii}

abbrev zeros : Digest
zeros s = 0 ∷ 1 ∷ 2 ∷ 3 ∷ 4 ∷ 5 ∷ 6 ∷ 7 ∷ 8 ∷ 9 ∷ 10 ∷ 11 ∷ 12 ∷ 13 ∷ 14 ∷ 15 ∷ []

zeros-bytes : (s : Bytes) → All IsByte (zeros s)
zeros-bytes s = omega arith

abbrev local : Settings
local = record { issuer = bytes "idp"; client_id = bytes "app"; addr = bytes ":9000" }

abbrev asks : TokenRequest
asks = record { form_username = []; body_username = bytes "alice" }

abbrev epoch : ℕ
epoch = 719528 * day_nanos

abbrev of_alice : MapClaims
of_alice = token_claims zeros local (bytes "alice") epoch

value_eq : ClaimValue → ClaimValue → Bool
value_eq (text s) (text t) = bytes_eq s t
value_eq (number m) (number n) = m == n
value_eq _ _ = false

value_eq_sound : (v w : ClaimValue) → value_eq v w ≡ true → v ≡ w
unfolding value_eq
value_eq_sound (text s) (text t) h = ap text ((bytes_eq_iff s t).0 h)
value_eq_sound (number m) (number n) h = ground arith
value_eq_sound (text s) (number n) h = absurd (ground arith)
value_eq_sound (text s) (values n) h = absurd (ground arith)
value_eq_sound (text s) other_value h = absurd (ground arith)
value_eq_sound (number m) (text n) h = absurd (ground arith)
value_eq_sound (number m) (values n) h = absurd (ground arith)
value_eq_sound (number m) other_value h = absurd (ground arith)
value_eq_sound (values m) w h = absurd (ground arith)
value_eq_sound other_value w h = absurd (ground arith)

claims_eq : MapClaims → MapClaims → Bool
claims_eq [] [] = true
claims_eq ((k, v) ∷ c) ((l, w) ∷ d) = bytes_eq k l && (value_eq v w && claims_eq c d)
claims_eq _ _ = false

claims_eq_sound : (c d : MapClaims) → claims_eq c d ≡ true → c ≡ d
unfolding claims_eq
claims_eq_sound [] [] h = refl
claims_eq_sound [] (e ∷ d) h = absurd (ground arith)
claims_eq_sound (e ∷ c) [] h = absurd (ground arith)
claims_eq_sound ((k, v) ∷ c) ((l, w) ∷ d) h =
    let keys = (bytes_eq_iff k l).0 (ground arith) in
    let vals = value_eq_sound v w (ground arith) in
    let rest = claims_eq_sound c d (ground arith) in rw (keys, vals, rest) refl

abbrev signer : Signer
signer claims = if claims_eq claims of_alice then some (bytes "signed") else none

abbrev knows : Parser
knows o now raw =
    if bytes_eq raw (bytes "signed")
      && (bytes_eq o.issuer (bytes "idp") && ltb now (3600 + o.leeway))
    then some of_alice
    else none

of_alice_facts :
    (text_claim (bytes "iss") of_alice ≡ bytes "idp")
    × (claim (bytes "exp") of_alice ≡ some (number 3600))
unfolding token_claims claim text_claim bytes bytes_eq
of_alice_facts = (refl, refl)

signed_by :
    (claims : MapClaims) (raw : Bytes)
    → signer claims ≡ some raw
    → (claims ≡ of_alice) × (raw ≡ bytes "signed")
signed_by claims raw h = elim (Bool-cases (claims_eq claims of_alice)) [
  | inl same ↦ (claims_eq_sound claims of_alice same, ground arith)
  | inr other ↦ absurd (ground arith)
]

text_inj : (m n : ℕ) → some (number m) ≡ some (number n) → m ≡ n
text_inj m n h = ground arith

knows-ReadsBack : ReadsBack knows signer
knows-ReadsBack o now end claims raw signed plain listed issued expires fresh nbf =
    let (same, named) = signed_by claims raw signed in
    let (iss, exp) = of_alice_facts in
    let issuer : o.issuer ≡ bytes "idp" = sym (rw same at issued) ∙ iss in
    let ends : 3600 ≡ end = text_inj 3600 end (sym exp ∙ (rw same at expires)) in
    let in_time : now < 3600 + o.leeway = omega (arith, fresh, ends) in
    (
      of_alice,
      (
        rw (named, issuer, bytes_eq_refl (bytes "signed"), bytes_eq_refl (bytes "idp"))
            (ground arith),
        λ key. rw same refl,
      ),
    )

alice_asked :
    (requested asks ≡ bytes "alice")
    × (signer (token_claims zeros local (requested asks) epoch) ≡ some (bytes "signed"))
unfolding requested token_claims claims_eq value_eq bytes bytes_eq is_empty itoa_nat digits_from
    stable_subject hex
alice_asked = (refl, refl)

plain_names :
    (is_ascii (bytes "idp") ≡ true)
    × (is_ascii (bytes "app") ≡ true)
    × (is_ascii (bytes "alice") ≡ true)
    × (trim_space ascii (bytes "signed") ≡ bytes "signed")
    × (requested asks ≢ [])
unfolding is_ascii bytes trim_space trim_left trim_right requested is_empty
plain_names = (refl, refl, refl, refl, λ h. cc (h))

token-admitted_example :
    (token zeros signer local asks epoch
      ≡ ok (record {
        access_token = bytes "signed";
        token_type = bytes "Bearer";
        expires_in = lifetime;
        username = requested asks;
      }))
    × (authenticate ascii (config_of local) knows 3629 (bytes "Bearer " ++ bytes "signed")
        ≡ some (record {
          subject = stable_subject zeros (requested asks);
          username = requested asks;
          groups = [];
        }))
token-admitted_example =
    let (issuer, client, name, trimmed, asked) = plain_names in
    token-admitted ascii knows signer zeros local asks epoch 3629 (bytes "signed") knows-ReadsBack
      zeros-bytes issuer client (rw alice_asked.0 name) asked (omega arith) alice_asked.1 trimmed
      (omega arith)

abbrev small_key : PublicKey
small_key = record { modulus = 3233; exponent = 65537 }

key_of-jwk_example : key_of (jwk zeros small_key) ≡ some small_key
key_of-jwk_example = key_of-jwk zeros small_key (omega arith)

-- The text of a common exponent.
exponent_text : (jwk zeros small_key).e ≡ bytes "AQAB"
unfolding jwk big_endian base64 int_bytes bytes_from put_uint64 set_bytes letter bytes
exponent_text = refl
