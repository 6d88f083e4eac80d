-- ===== src/Devidp/Keys.antt =====
-- The keys that app/cmd/devidp/main.go publishes, and how a verifier reads them.
use maroon_ledger.Base.{
  ℕ, zero, suc, ◌/◌, ◌%◌, ◌^◌, ◌≤◌, ◌<◌, ◌≡◌, refl, inl, inr, Bool, true, Option, none, some, [],
  ◌∷◌, arith, ltb, ◌==◌, if◌then◌else◌, Bool-cases, take,
}
use maroon_ledger.Go.Bytes.{Bytes, bytes}
use maroon_ledger.Go.Encoding.{put_uint64, set_bytes, bytes_from, int_bytes, base64}
use maroon_ledger.Go.Encoding.Decoded.{
  set_bytes-int_bytes, set_bytes-put_uint64, int_bytes-AllBytes, unbase64, unbase64-base64,
}
use maroon_ledger.Devidp.{Digest}

-- rsa.PublicKey: the modulus and the exponent.
pub record PublicKey : Type 0 where
  pub modulus : ℕ
  pub exponent : ℕ

-- bigEndian, of a uint64
unfoldable pub big_endian : ℕ → Bytes
big_endian v = int_bytes (set_bytes 0 (put_uint64 v))

-- keyIDFor
unfoldable pub key_id_for : Digest → PublicKey → Bytes
key_id_for sha256 key = base64 (take 8 (sha256 (int_bytes key.modulus)))

-- A key of the JWKS document.
pub record Jwk : Type 0 where
  pub kty : Bytes
  pub public_use : Bytes
  pub alg : Bytes
  pub kid : Bytes
  pub n : Bytes
  pub e : Bytes

unfoldable pub jwk : Digest → PublicKey → Jwk
jwk sha256 key = record {
  kty = bytes "RSA";
  public_use = bytes "sig";
  alg = bytes "RS256";
  kid = key_id_for sha256 key;
  n = base64 (int_bytes key.modulus);
  e = base64 (big_endian key.exponent);
}

-- A number as RFC 7518 has it: the base64url text of its big-endian bytes, of which the first is not
-- zero.
abbrev leads : Bytes → Bool
leads [] = true
leads (b ∷ s) = ltb 0 b

abbrev number_of : Option Bytes → Option ℕ
number_of none = none
number_of (some s) = if leads s then some (set_bytes 0 s) else none

abbrev both : Option ℕ → Option ℕ → Option PublicKey
both (some n) (some e) = some (record { modulus = n; exponent = e })
both _ _ = none

-- The key that a verifier reads from a JWK by RFC 7518.
unfoldable pub key_of : Jwk → Option PublicKey
key_of k = both (number_of (unbase64 k.n)) (number_of (unbase64 k.e))

bytes_from_zero : (fuel : ℕ) (behind : Bytes) → bytes_from fuel 0 behind ≡ behind
unfolding bytes_from
bytes_from_zero zero behind = refl
bytes_from_zero (suc fuel) behind = refl

leads-bytes_from :
    (fuel n : ℕ) (behind : Bytes) → 0 < n → n ≤ fuel → leads (bytes_from fuel n behind) ≡ true
unfolding bytes_from
leads-bytes_from zero n behind h le = absurd (omega arith)
leads-bytes_from (suc fuel) n behind h le = elim (Bool-cases (n / 256 == 0)) [
  | inl last ↦ ground (arith, bytes_from_zero fuel (n % 256 ∷ behind))
  | inr more ↦ ground (arith, leads-bytes_from fuel (n / 256) (n % 256 ∷ behind))
]

-- No zero stands in front of a number's bytes.
leads-int_bytes : (n : ℕ) → leads (int_bytes n) ≡ true
unfolding int_bytes bytes_from
leads-int_bytes zero = refl
leads-int_bytes (suc n) = leads-bytes_from (suc n) (suc n) [] (omega arith) (omega arith)

number_of-encoded : (n : ℕ) → number_of (unbase64 (base64 (int_bytes n))) ≡ some n
number_of-encoded n =
    rw
      (
        unbase64-base64 (int_bytes n) (int_bytes-AllBytes n),
        leads-int_bytes n,
        set_bytes-int_bytes n,
      )
      refl

big_endian-int_bytes : (v : ℕ) → v < 2 ^ 64 → big_endian v ≡ int_bytes v
unfolding big_endian
big_endian-int_bytes v h =
    let same : v % 2 ^ 64 ≡ v = omega arith in rw (set_bytes-put_uint64 v, same) refl

-- The published key is the signing key: whoever reads the JWK as RFC 7518 has it, as unpadded
-- base64url of big-endian bytes without a leading zero, gets back the key's modulus, of any size,
-- and its exponent, if that fits 64 bits.
pub key_of-jwk :
    (sha256 : Digest) (key : PublicKey) → key.exponent < 2 ^ 64 → key_of (jwk sha256 key) ≡ some key
unfolding key_of jwk
key_of-jwk sha256 key h =
    rw
      (
        big_endian-int_bytes key.exponent h,
        number_of-encoded key.modulus,
        number_of-encoded key.exponent,
      )
      refl
