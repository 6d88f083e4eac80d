-- ===== src/Go/Encoding.antt =====
-- Numbers as big-endian bytes (encoding/binary, math/big) and bytes as unpadded base64url text
-- (encoding/base64, RawURLEncoding) or hexadecimal text (`%x`).
pub mod Decoded
use maroon_ledger.Base.{
  ℕ, zero, suc, ◌+◌, ◌-◌, ◌*◌, ◌/◌, ◌%◌, ◌^◌, [], ◌∷◌, ◌++◌, ltb, ◌==◌, if◌then◌else◌,
}
use maroon_ledger.Go.Bytes.{Bytes}

-- binary.BigEndian.PutUint64
unfoldable pub put_uint64 : ℕ → Bytes
put_uint64 v =
    v / 2 ^ 56 % 256
    ∷ v / 2 ^ 48 % 256
    ∷ v / 2 ^ 40 % 256
    ∷ v / 2 ^ 32 % 256
    ∷ v / 2 ^ 24 % 256
    ∷ v / 2 ^ 16 % 256
    ∷ v / 2 ^ 8 % 256
    ∷ v % 256
    ∷ []

-- big.Int's SetBytes, onto the value of the bytes before.
unfoldable pub set_bytes : ℕ → Bytes → ℕ
set_bytes before [] = before
set_bytes before (b ∷ s) = set_bytes (before * 256 + b) s

-- The bytes of `n`, most significant first, onto `behind`; `fuel` at least the number of bytes.
unfoldable pub bytes_from : ℕ → ℕ → Bytes → Bytes
bytes_from zero n behind = behind
bytes_from (suc fuel) n behind =
    let rest = bytes_from fuel (n / 256) (n % 256 ∷ behind) in if n == 0 then behind else rest

-- big.Int's Bytes: no zero in front, and none at all for 0.
unfoldable pub int_bytes : ℕ → Bytes
unfolding bytes_from
int_bytes n = bytes_from n n []

-- The alphabet of base64url.
unfoldable pub letter : ℕ → ℕ
letter d =
    if ltb d 26
    then b'A' + d
    else if ltb d 52
    then b'a' + (d - 26)
    else if ltb d 62
    then b'0' + (d - 52)
    else if d == 62
    then b'-'
    else b'_'

-- RawURLEncoding.EncodeToString
unfoldable pub base64 : Bytes → Bytes
unfolding letter
base64 [] = []
base64 (a ∷ []) = letter (a / 4) ∷ letter (a % 4 * 16) ∷ []
base64 (a ∷ b ∷ []) = letter (a / 4) ∷ letter (a % 4 * 16 + b / 16) ∷ letter (b % 16 * 4) ∷ []
base64 (a ∷ b ∷ c ∷ s) =
    letter (a / 4)
    ∷ letter (a % 4 * 16 + b / 16)
    ∷ letter (b % 16 * 4 + c / 64)
    ∷ letter (c % 64)
    ∷ base64 s

abbrev hex_digit : ℕ → ℕ
hex_digit d = if ltb d 10 then b'0' + d else b'a' + (d - 10)

-- `%x` of a byte slice
unfoldable pub hex : Bytes → Bytes
hex [] = []
hex (b ∷ s) = hex_digit (b / 16) ∷ hex_digit (b % 16) ∷ hex s
