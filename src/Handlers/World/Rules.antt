-- ===== src/Handlers/World/Rules.antt =====
-- Pre- and postconditions of actions, and what each kind of statement does to the world.
use maroon_ledger.Base.{◌≤◌, ◌≡◌, refl, ◌∙◌, Option, none, some, List, [], ◌∷◌}
use maroon_ledger.Database.{Db}
use maroon_ledger.Handlers.World.{
  World, Fault, at_query, at_scan, at_end, SqlError, Result, ok, err, Action, ◌>>=◌, rows_or_fault,
  query, first_or_fault, query_row, next_fault, insert_outcome, insert_row,
}

-- What holds of a result and the world behind it: `R` of a value, `X` of an error.
abbrev pub Outcome :
    {F E A : Type 0}
    → (A → World F → Type 0)
    → (E → World F → Type 0)
    → Result E A
    → World F
    → Type 0
Outcome R X (ok a) w = R a w
Outcome R X (err e) w = X e w

-- From a world with `P`, a value comes with `R` and an error with `X`.
abbrev pub Triple :
    {F E A : Type 0}
    → (World F → Type 0)
    → Action F E A
    → (A → World F → Type 0)
    → (E → World F → Type 0)
    → Type 0
Triple {F} P m R X = (w : World F) → P w → Outcome R X (m w).0 (m w).1

-- An action that changes neither the tables nor the events.
abbrev pub Same : {F : Type 0} → World F → World F → Type 0
Same before w = (w.db ≡ before.db) × (w.emitted ≡ before.emitted)

-- The two tables hold what they held, and no number of an account comes back.
abbrev pub SameTables : Db → Db → Type 0
SameTables db db' =
    (db'.transactions ≡ db.transactions)
    × (db'.accounts ≡ db.accounts)
    × (db.next_account ≤ db'.next_account)

abbrev pub IsReading : {F E A : Type 0} → Action F E A → Type 0
IsReading {F} m = (w : World F) → Same w (m w).1

pub Same-trans : {F : Type 0} (u v w : World F) → Same u v → Same v w → Same u w
Same-trans u v w h k = (k.0 ∙ h.0, k.1 ∙ h.1)

module _ {F A : Type 0} where
  pub query-IsReading : (select : Db → List A) → IsReading (query {F = F} select)
  unfolding query
  query-IsReading select w = (refl, refl)

  pub query_row-IsReading : (select : Db → List A) → IsReading (query_row {F = F} select)
  unfolding query_row
  query_row-IsReading select w = (refl, refl)

module _ {A : Type 0} where
  -- The rows of a query that succeeds are those that it selects.
  pub rows_or_fault-rows :
      (f : Option Fault) (selected rows : List A)
      → rows_or_fault f selected ≡ ok rows
      → rows ≡ selected
  unfolding rows_or_fault
  rows_or_fault-rows none selected rows h = cc
  rows_or_fault-rows (some at_query) selected rows h = cc
  rows_or_fault-rows (some at_end) selected rows h = cc
  rows_or_fault-rows (some at_scan) [] rows h = cc
  rows_or_fault-rows (some at_scan) (a ∷ rest) rows h = cc

  -- A single row that is found is the first of those selected.
  pub first_or_fault-row :
      (f : Option Fault) (selected : List A) (a : A)
      → first_or_fault f selected ≡ ok a
      → (rest : List A) × (selected ≡ a ∷ rest)
  unfolding first_or_fault
  first_or_fault-row none [] a h = cc
  first_or_fault-row none (b ∷ rest) a h = (rest, cc)
  first_or_fault-row (some f) selected a h = cc

-- What an INSERT that did not answer has done: nothing, used up a number, or stored the row.
pub data IsLost {A : Type 0} (done : Option A × Db) (db : Db) (db' : Db) : Type 0 where
  not_run : db' ≡ db → IsLost done db db'
  refused : done ≡ (none, db') → IsLost done db db'
  stored : (a : A) → done ≡ (some a, db') → IsLost done db db'

-- An INSERT that answers has stored the row that it returns.
abbrev pub Inserted : {A : Type 0} → Option A × Db → Db → Result SqlError A × Db → Type 0
Inserted done db (ok a, db') = done ≡ (some a, db')
Inserted done db (err e, db') = IsLost done db db'

insert_outcome-Inserted :
    {A : Type 0} (f : Option Fault) (done : Option A × Db) (db : Db)
    → Inserted done db (insert_outcome f done db)
unfolding insert_outcome
insert_outcome-Inserted (some at_query) done db = not_run refl
insert_outcome-Inserted none (none, db') db = refused refl
insert_outcome-Inserted (some at_scan) (none, db') db = refused refl
insert_outcome-Inserted (some at_end) (none, db') db = refused refl
insert_outcome-Inserted none (some a, db') db = refl
insert_outcome-Inserted (some at_scan) (some a, db') db = stored a refl
insert_outcome-Inserted (some at_end) (some a, db') db = stored a refl

pub insert_row-Inserted :
    {F A : Type 0} (insert : Db → Option A × Db) (w : World F)
    → let (r, w') = insert_row insert w in
      Inserted (insert w.db) w.db (r, w'.db) × (w'.emitted ≡ w.emitted)
unfolding insert_row
insert_row-Inserted insert w =
    (insert_outcome-Inserted (next_fault w.faults).0 (insert w.db) w.db, refl)

-- To prove a property of a sequence, prove it where the first step fails, and of the second step
-- where the first succeeds.
pub bind-step :
    {F E A B : Type 0} (Post : Result E B × World F → Type 0) (m : Action F E A)
    (f : A → Action F E B) (w : World F)
    → ((a : A) → (m w).0 ≡ ok a → Post (f a (m w).1))
    → ((e : E) → (m w).0 ≡ err e → Post (err e, (m w).1))
    → Post ((m >>= f) w)
bind-step {F} {E} {A} {B} Post m f w succeeds fails = cases (m w).0 refl
  where
    cases :
        (r : Result E A)
        → (m w).0 ≡ r
        → Post (elim r [ ok a ↦ f a (m w).1 | err e ↦ (err e, (m w).1) ])
    cases (ok a) h = succeeds a h
    cases (err e) h = fails e h

-- A world with no failure to come.
abbrev pub unhindered : {F : Type 0} → World F → World F
unhindered w = record w { faults = [] }
