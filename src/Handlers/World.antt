-- ===== src/Handlers/World.antt =====
-- What a handler acts on: the database, what the database will fail at, and the events handed to
-- the emitter so far. An action ends in a value or an error, and returns the world in both cases.
pub mod Rules
use maroon_ledger.Base.{
  ℕ, zero, suc, ◌+◌, ◌-◌, ◌*◌, ◌/◌, ◌%◌, ◌^◌, ◌≤◌, ◌<◌, String, ◌≡◌, refl, sym, ap, ◌∙◌, ◌≢◌, ◌↔◌,
  ◌⊎◌, inl, inr, Bool, true, false, not, ◌&&◌, ◌||◌, Option, none, some, List, [], ◌∷◌, ◌++◌, map,
  arith, ltb, leb, ◌==◌, if◌then◌else◌, Bool-cases, Option-cases, is_some, length,
}
use maroon_ledger.Go.Bytes.{Bytes}
use maroon_ledger.Database.{Db}
use maroon_ledger.Pipeline.Event.{Event}

-- How a statement can fail: before it ran, at reading a row of its result, at the end of the rows.
pub data Fault : Type 0 where
  at_query at_scan at_end : Fault

-- An error of database/sql: `sql.ErrNoRows`, or another.
pub data SqlError : Type 0 where
  no_rows : SqlError
  failed : Fault → SqlError

-- `faults` says, statement by statement, what will go wrong; beyond its end nothing does.
pub record World (F : Type 0) : Type 0 where
  pub db : Db
  pub faults : List (Option Fault)
  pub emitted : List (Event F)

pub data Result (E A : Type 0) : Type 0 where
  ok : A → Result E A
  err : E → Result E A

abbrev pub Action : Type 0 → Type 0 → Type 0 → Type 0
Action F E A = World F → Result E A × World F

infixl 5 ◌>>=◌ ◌>>◌
abbrev pub ◌>>=◌ : {F E A B : Type 0} → Action F E A → (A → Action F E B) → Action F E B
◌>>=◌ m f w = let (r, w') = m w in elim r [ ok a ↦ f a w' | err e ↦ (err e, w') ]

abbrev pub ◌>>◌ : {F E A B : Type 0} → Action F E A → Action F E B → Action F E B
m >> k = m >>= λ _. k

module _ {F E A : Type 0} where
  abbrev pub pure : A → Action F E A
  pure a w = (ok a, w)

  abbrev pub raise : E → Action F E A
  raise e w = (err e, w)

  abbrev pub of_result : Result E A → Action F E A
  of_result r w = (r, w)

-- The Go idiom `x, err := f()`: the error becomes a value.
abbrev pub attempt : {F E D A : Type 0} → Action F E A → Action F D (Result E A)
attempt m w = let (r, w') = m w in (ok r, w')

-- What goes wrong with the next statement.
unfoldable pub next_fault : List (Option Fault) → Option Fault × List (Option Fault)
next_fault [] = (none, [])
next_fault (f ∷ fs) = (f, fs)

-- The outcome of a query for rows: with no row there is none to scan.
unfoldable pub rows_or_fault : {A : Type 0} → Option Fault → List A → Result SqlError (List A)
rows_or_fault none rows = ok rows
rows_or_fault (some at_scan) [] = ok []
rows_or_fault (some f) rows = err (failed f)

-- DB.Query, the loop over the rows, rows.Err.
unfoldable pub query : {F A : Type 0} → (Db → List A) → Action F SqlError (List A)
query select w =
    let (fault, rest) = next_fault w.faults in
    (rows_or_fault fault (select w.db), record w { faults = rest })

-- DB.QueryRow(…).Scan: the first row, or `sql.ErrNoRows`.
unfoldable pub first_or_fault : {A : Type 0} → Option Fault → List A → Result SqlError A
first_or_fault none [] = err no_rows
first_or_fault none (a ∷ rest) = ok a
first_or_fault (some f) rows = err (failed f)

unfoldable pub query_row : {F A : Type 0} → (Db → List A) → Action F SqlError A
query_row select w =
    let (fault, rest) = next_fault w.faults in
    (first_or_fault fault (select w.db), record w { faults = rest })

-- INSERT … RETURNING through QueryRow: a fault at the query means that nothing was stored; one at
-- the scan, or later, that the row was stored and the reply lost.
unfoldable pub insert_outcome :
    {A : Type 0} → Option Fault → Option A × Db → Db → Result SqlError A × Db
insert_outcome (some at_query) done db = (err (failed at_query), db)
insert_outcome fault (none, db') db = (err (failed at_query), db')
insert_outcome none (some a, db') db = (ok a, db')
insert_outcome (some f) (some a, db') db = (err (failed f), db')

unfoldable pub insert_row : {F A : Type 0} → (Db → Option A × Db) → Action F SqlError A
insert_row insert w =
    let (fault, rest) = next_fault w.faults in
    let (r, db') = insert_outcome fault (insert w.db) w.db in
    (r, record w { faults = rest; db = db' })

-- Emitter.Emit
unfoldable pub emit : {F E : Type 0} → Event F → Action F E (Unit {0})
emit event w = (ok tt, record w { emitted = w.emitted ++ event ∷ [] })
