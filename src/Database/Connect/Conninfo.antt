-- ===== src/Database/Connect/Conninfo.antt =====
-- What the driver reads from the connection string, by libpq's keyword/value format: values are bare
-- or quoted, and a backslash takes the next byte as it is.
use maroon_ledger.Base.{
  ℕ, ◌≡◌, refl, ◌≢◌, Bool, true, not, ◌||◌, Option, none, some, List, [], ◌∷◌, ◌++◌, append-nil,
  append_assoc, arith, ◌==◌, if◌then◌else◌, All,
}
use maroon_ledger.Go.Bytes.{Bytes, bytes, concat, ascii_space}
use maroon_ledger.Database.Connect.{Target, conn_str}

-- Where the reader stands; the keyword and the value so far.
pub data Reading : Type 0 where
  between failed : Reading
  keyword : Bytes → Reading
  value_due : Bytes → Reading
  bare bare_escape quoted quoted_escape : Bytes → Bytes → Reading

abbrev pub Entry : Type 0
Entry = Bytes × Bytes

-- The state behind one byte, and the entry that it completes.
unfoldable pub read_byte : Reading → ℕ → Reading × Option Entry
unfolding ascii_space
read_byte between c =
    if ascii_space c
    then (between, none)
    else if c == b'='
    then (failed, none)
    else (keyword (c ∷ []), none)
read_byte failed c = (failed, none)
read_byte (keyword k) c =
    if c == b'='
    then (value_due k, none)
    else if ascii_space c
    then (failed, none)
    else (keyword (k ++ c ∷ []), none)
read_byte (value_due k) c =
    if ascii_space c
    then (value_due k, none)
    else if c == b'\''
    then (quoted k [], none)
    else if c == b'\\'
    then (bare_escape k [], none)
    else (bare k (c ∷ []), none)
read_byte (bare k v) c =
    if ascii_space c
    then (between, some (k, v))
    else if c == b'\\'
    then (bare_escape k v, none)
    else (bare k (v ++ c ∷ []), none)
read_byte (bare_escape k v) c = (bare k (v ++ c ∷ []), none)
read_byte (quoted k v) c =
    if c == b'\''
    then (between, some (k, v))
    else if c == b'\\'
    then (quoted_escape k v, none)
    else (quoted k (v ++ c ∷ []), none)
read_byte (quoted_escape k v) c = (quoted k (v ++ c ∷ []), none)

abbrev at_end : Reading → Option (List Entry)
at_end between = some []
at_end failed = none
at_end (keyword k) = none
at_end (value_due k) = some ((k, []) ∷ [])
at_end (bare k v) = some ((k, v) ∷ [])
at_end (bare_escape k v) = none
at_end (quoted k v) = none
at_end (quoted_escape k v) = none

abbrev entry_onto : Option Entry → Option (List Entry) → Option (List Entry)
entry_onto none rest = rest
entry_onto (some e) none = none
entry_onto (some e) (some es) = some (e ∷ es)

unfoldable pub read_from : Reading → Bytes → Option (List Entry)
unfolding read_byte
read_from r [] = at_end r
read_from r (c ∷ s) = let (r', done) = read_byte r c in entry_onto done (read_from r' s)

unfoldable pub read_conninfo : Bytes → Option (List Entry)
unfolding read_from
read_conninfo s = read_from between s

-- A byte that stands for itself in a bare value.
abbrev pub plain : ℕ → Bool
plain c = not (ascii_space c || (c == b'\'' || c == b'\\'))

-- A value that needs no quotes.
pub record IsBare (s : Bytes) : Type 0 where
  pub some_byte : s ≢ []
  pub all_plain : All (λ c. plain c ≡ true) s

read_from-bare :
    (k v w s : Bytes)
    → All (λ c. plain c ≡ true) w
    → read_from (bare k v) (w ++ b' ' ∷ s) ≡ entry_onto (some (k, v ++ w)) (read_from between s)
unfolding read_from read_byte ascii_space
read_from-bare k v [] s h = rw append-nil refl
read_from-bare k v (c ∷ w) s h =
    let rest = read_from-bare k (v ++ c ∷ []) w s h.1 in
    let joined = append_assoc v (c ∷ []) w in ground arith

read_from-value :
    (k w s : Bytes)
    → IsBare w
    → read_from (value_due k) (w ++ b' ' ∷ s) ≡ entry_onto (some (k, w)) (read_from between s)
unfolding read_from read_byte ascii_space
read_from-value k [] s h = absurd (h.some_byte refl)
read_from-value k (c ∷ w) s h =
    let rest = read_from-bare k (c ∷ []) w s h.all_plain.1 in
    let first = h.all_plain.0 in ground arith

read_from-last :
    (k v w : Bytes) → All (λ c. plain c ≡ true) w → read_from (bare k v) w ≡ some ((k, v ++ w) ∷ [])
unfolding read_from read_byte ascii_space
read_from-last k v [] h = rw append-nil refl
read_from-last k v (c ∷ w) h =
    let rest = read_from-last k (v ++ c ∷ []) w h.1 in
    let joined = append_assoc v (c ∷ []) w in ground arith

read_from-last_value : (k w : Bytes) → IsBare w → read_from (value_due k) w ≡ some ((k, w) ∷ [])
unfolding read_from read_byte ascii_space
read_from-last_value k [] h = absurd (h.some_byte refl)
read_from-last_value k (c ∷ w) h =
    let rest = read_from-last k (c ∷ []) w h.all_plain.1 in
    let first = h.all_plain.0 in ground arith

-- The keywords that Connect writes, each up to its value.
read_from-keywords :
    (s : Bytes)
    → (read_from between (bytes "host=" ++ s) ≡ read_from (value_due (bytes "host")) s)
      × (read_from between (bytes "port=" ++ s) ≡ read_from (value_due (bytes "port")) s)
      × (read_from between (bytes "user=" ++ s) ≡ read_from (value_due (bytes "user")) s)
      × (read_from between (bytes "password=" ++ s) ≡ read_from (value_due (bytes "password")) s)
      × (read_from between (bytes "dbname=" ++ s) ≡ read_from (value_due (bytes "dbname")) s)
      × (read_from between (bytes "sslmode=" ++ s) ≡ read_from (value_due (bytes "sslmode")) s)
unfolding read_from read_byte ascii_space bytes
read_from-keywords s = (refl, refl, refl, refl, refl, refl)

pub record AllBare (t : Target) : Type 0 where
  pub host : IsBare t.host
  pub port : IsBare t.port
  pub user : IsBare t.user
  pub password : IsBare t.password
  pub dbname : IsBare t.dbname
  pub sslmode : IsBare t.sslmode

conn_str-pieces :
    (t : Target)
    → conn_str t
      ≡ bytes "host="
        ++ (t.host
            ++ b' '
              ∷ (bytes "port="
                  ++ (t.port
                      ++ b' '
                        ∷ (bytes "user="
                            ++ (t.user
                                ++ b' '
                                  ∷ (bytes "password="
                                      ++ (t.password
                                          ++ b' '
                                            ∷ (bytes "dbname="
                                                ++ (t.dbname
                                                    ++ b' '
                                                      ∷ (bytes "sslmode=" ++ t.sslmode))))))))))
unfolding conn_str concat bytes
conn_str-pieces t = rw append-nil refl

abbrev pub entries : Target → List Entry
entries t =
    (bytes "host", t.host)
    ∷ (bytes "port", t.port)
    ∷ (bytes "user", t.user)
    ∷ (bytes "password", t.password)
    ∷ (bytes "dbname", t.dbname)
    ∷ (bytes "sslmode", t.sslmode)
    ∷ []

-- The driver reads from the connection string the six settings that Connect was given and no other,
-- if each of them is neither empty nor has a blank, a quote or a backslash.
pub read_conninfo-conn_str :
    (t : Target) → AllBare t → read_conninfo (conn_str t) ≡ some (entries t)
unfolding read_conninfo
read_conninfo-conn_str t h =
    rw
      (
        conn_str-pieces t,
        (read_from-keywords _).0,
        read_from-value (bytes "host") t.host _ h.host,
        (read_from-keywords _).1,
        read_from-value (bytes "port") t.port _ h.port,
        (read_from-keywords _).2,
        read_from-value (bytes "user") t.user _ h.user,
        (read_from-keywords _).3,
        read_from-value (bytes "password") t.password _ h.password,
        (read_from-keywords _).4,
        read_from-value (bytes "dbname") t.dbname _ h.dbname,
        (read_from-keywords _).5,
        read_from-last_value (bytes "sslmode") t.sslmode h.sslmode,
      )
      refl
