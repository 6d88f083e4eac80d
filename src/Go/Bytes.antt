-- ===== src/Go/Bytes.antt =====
-- Go strings: sequences of bytes. `==`, `len`, slicing, and what the program uses of the package
-- `strings`. Go's own fast path for ASCII is written out; a string that leaves it goes to the
-- Unicode tables, which are a parameter.
use Prim.Native.Char.{code}
use maroon_ledger.Base.{
  ℕ, zero, suc, ◌+◌, String, ◌≡◌, refl, ◌↔◌, Bool, true, false, ◌&&◌, ◌||◌, Option, none, some,
  List, [], ◌∷◌, ◌++◌, map, arith, ltb, leb, ◌==◌, if◌then◌else◌,
}

abbrev pub Bytes : Type 0
Bytes = List ℕ

codes : String → Bytes
codes String.[] = []
codes (String.◌∷◌ c s) = code c ∷ codes s

-- A string literal, all of which are ASCII here.
unfoldable pub bytes : String → Bytes
unfolding codes
bytes s = codes s

unfoldable pub bytes_eq : Bytes → Bytes → Bool
bytes_eq [] [] = true
bytes_eq (a ∷ s) (b ∷ t) = a == b && bytes_eq s t
bytes_eq _ _ = false

pub bytes_eq_iff : (s t : Bytes) → (bytes_eq s t ≡ true) ↔ (s ≡ t)
unfolding bytes_eq
bytes_eq_iff [] [] = ground arith
bytes_eq_iff [] (b ∷ t) = ground arith
bytes_eq_iff (a ∷ s) [] = ground arith
bytes_eq_iff (a ∷ s) (b ∷ t) = ground (arith, bytes_eq_iff s t)

pub bytes_eq_refl : (s : Bytes) → bytes_eq s s ≡ true
bytes_eq_refl s = (bytes_eq_iff s s).1 refl

unfoldable pub is_empty : Bytes → Bool
is_empty [] = true
is_empty (c ∷ s) = false

pub is_empty_iff : (s : Bytes) → (is_empty s ≡ true) ↔ (s ≡ [])
unfolding is_empty
is_empty_iff [] = ground arith
is_empty_iff (c ∷ s) = ground arith

-- strings.HasPrefix
unfoldable pub has_prefix : Bytes → Bytes → Bool
has_prefix s [] = true
has_prefix [] (b ∷ t) = false
has_prefix (a ∷ s) (b ∷ t) = a == b && has_prefix s t

-- strings.Contains
unfoldable pub contains : Bytes → Bytes → Bool
unfolding has_prefix
contains [] t = has_prefix [] t
contains (a ∷ s) t = has_prefix (a ∷ s) t || contains s t

-- strings.Join
unfoldable pub join : List Bytes → Bytes → Bytes
join [] sep = []
join (s ∷ []) sep = s
join (s ∷ t ∷ ss) sep = s ++ (sep ++ join (t ∷ ss) sep)

-- What the package `unicode` does with text beyond ASCII.
pub record Unicode : Type 0 where
  pub lower : Bytes → Bytes
  pub trim : Bytes → Bytes

unfoldable pub is_ascii : Bytes → Bool
is_ascii [] = true
is_ascii (c ∷ s) = ltb c 128 && is_ascii s

unfoldable pub ascii_lower : ℕ → ℕ
ascii_lower c = if leb b'A' c && leb c b'Z' then c + 32 else c

-- strings.ToLower
unfoldable pub to_lower : Unicode → Bytes → Bytes
unfolding is_ascii ascii_lower
to_lower u s = if is_ascii s then map ascii_lower s else u.lower s

-- asciiSpace: tab, newline, vertical tab, form feed, carriage return, space
unfoldable pub ascii_space : ℕ → Bool
ascii_space c = c == 32 || (leb 9 c && leb c 13)

unfoldable pub trim_left : Bytes → Bytes
unfolding ascii_space
trim_left [] = []
trim_left (c ∷ s) = if ascii_space c then trim_left s else c ∷ s

-- Drops the spaces at the end, given that the front has none to drop.
unfoldable pub trim_right : Bytes → Bytes
unfolding ascii_space
trim_right [] = []
trim_right (c ∷ s) =
    let rest = trim_right s in
    elim rest [ [] ↦ if ascii_space c then [] else c ∷ [] | d ∷ t ↦ c ∷ d ∷ t ]

-- strings.TrimSpace
unfoldable pub trim_space : Unicode → Bytes → Bytes
unfolding is_ascii trim_left trim_right
trim_space u s = if is_ascii s then trim_right (trim_left s) else u.trim s

-- strings.Cut at the first occurrence of one byte: what stands before it, and behind it.
unfoldable pub cut : Bytes → ℕ → Option (Bytes × Bytes)
cut [] sep = none
cut (c ∷ s) sep =
    let rest = cut s sep in
    if c == sep then some ([], s) else elim rest [ none ↦ none | some (a, b) ↦ some (c ∷ a, b) ]

-- strings.EqualFold, by the ASCII letters; the two letters outside ASCII that fold to `k` and `s`
-- are left out.
unfoldable pub equal_fold : Bytes → Bytes → Bool
unfolding ascii_lower bytes_eq
equal_fold s t = bytes_eq (map ascii_lower s) (map ascii_lower t)

-- A continuation byte of UTF-8.
abbrev is_continuation : ℕ → Bool
is_continuation c = leb 128 c && ltb c 192

-- utf8.ValidString: `need` continuation bytes must still follow. (Overlong forms and surrogates,
-- which also are invalid, do not arise by cutting valid text.)
utf8_from : ℕ → Bytes → Bool
utf8_from zero [] = true
utf8_from (suc need) [] = false
utf8_from zero (c ∷ s) =
    if ltb c 128
    then utf8_from 0 s
    else if ltb c 194
    then false
    else if ltb c 224
    then utf8_from 1 s
    else if ltb c 240
    then utf8_from 2 s
    else if ltb c 245
    then utf8_from 3 s
    else false
utf8_from (suc need) (c ∷ s) = is_continuation c && utf8_from need s

unfoldable pub valid_utf8 : Bytes → Bool
unfolding utf8_from
valid_utf8 s = utf8_from 0 s

-- fmt.Sprintf and strings.Builder: the pieces, one behind the other.
unfoldable pub concat : List Bytes → Bytes
concat [] = []
concat (s ∷ ss) = s ++ concat ss
