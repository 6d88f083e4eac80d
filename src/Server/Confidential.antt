-- ===== src/Server/Confidential.antt =====
-- What an action tells its user: nothing that is not in the user's own rows. Two worlds are alike to
-- a user if the queries scoped to the user find the same and the same statements will fail.
pub mod OwnRows
pub mod Queries
pub mod Readers
pub mod Answers
use maroon_ledger.Base.{
  ℕ, zero, suc, ◌+◌, ◌-◌, ◌*◌, ◌/◌, ◌%◌, ◌^◌, ◌≤◌, ◌<◌, String, ◌≡◌, refl, sym, ap, ◌∙◌, ◌≢◌, ◌↔◌,
  ◌⊎◌, inl, inr, Bool, true, false, not, ◌&&◌, ◌||◌, Option, none, some, List, [], ◌∷◌, ◌++◌, map,
  append-nil, append_assoc, arith, ltb, leb, ◌==◌, if◌then◌else◌, Bool-cases, Option-cases, is_some,
  length, length-append, All, All-append,
}
use maroon_ledger.Go.Bytes.{Bytes}
use maroon_ledger.Database.{Db}
use maroon_ledger.Handlers.World.{
  World, Result, ok, err, Action, SqlError, query, query_row, rows_or_fault, first_or_fault,
  next_fault, attempt, of_result, pure, ◌>>=◌,
}
use maroon_ledger.Server.Change.Isolation.{SameView}

pub record Alike {F : Type 0} (u : Bytes) (w w' : World F) : Type 0 where
  pub view : SameView u w.db w'.db
  pub faults : w'.faults ≡ w.faults

-- From worlds that are alike, one result, and worlds that are alike.
abbrev pub Agree : {F E A : Type 0} → Bytes → Result E A × World F → Result E A × World F → Type 0
Agree u (r, w) (r', w') = (r' ≡ r) × Alike u w w'

pub record Confined {F E A : Type 0} (u : Bytes) (m : Action F E A) : Type 0 where
  pub apply : (w w' : World F) → Alike u w w' → Agree u (m w) (m w')

module _ {F : Type 0} (u : Bytes) where
  -- What stands behind a step, by what the step has come to.
  abbrev behind :
      {E A B : Type 0} → (A → Action F E B) → Result E A → World F → Result E B × World F
  behind f r w = elim r [ ok a ↦ f a w | err e ↦ (err e, w) ]

  behind-Agree :
      {E A B : Type 0} (f : A → Action F E B) (r r' : Result E A) (w w' : World F)
      → ((a : A) → r ≡ ok a → Agree u (f a w) (f a w'))
      → r' ≡ r
      → Alike u w w'
      → Agree u (behind f r w) (behind f r' w')
  behind-Agree f (ok a) r' w w' agree same alike = rw same (agree a refl)
  behind-Agree f (err e) r' w w' agree same alike = rw same (refl, alike)

  -- A sequence is confined if what stands behind is, in the worlds that the first step may leave.
  pub bind_knowing-Confined :
      {E A B : Type 0} (m : Action F E A) (f : A → Action F E B)
      → Confined u m
      → ((w w' : World F) (a : A)
          → (m w).0 ≡ ok a
          → Alike u (m w).1 (m w').1
          → Agree u (f a (m w).1) (f a (m w').1))
      → Confined u (m >>= f)
  bind_knowing-Confined m f c k = record {
    apply = λ w w' alike.
        let (same, after) = c.apply w w' alike in
        behind-Agree f (m w).0 (m w').0 (m w).1 (m w').1 (λ a e. k w w' a e after) same after;
  }

  pub bind-Confined :
      {E A B : Type 0} (m : Action F E A) (f : A → Action F E B)
      → Confined u m
      → ((a : A) → Confined u (f a))
      → Confined u (m >>= f)
  bind-Confined m f c k =
      bind_knowing-Confined m f c (λ w w' a e alike. (k a).apply (m w).1 (m w').1 alike)

  -- In two given worlds.
  pub bind-Agree :
      {E A B : Type 0} (m : Action F E A) (f : A → Action F E B) (w w' : World F)
      → Agree u (m w) (m w')
      → ((a : A) → Confined u (f a))
      → Agree u ((m >>= f) w) ((m >>= f) w')
  bind-Agree m f w w' (same, after) k =
      behind-Agree f (m w).0 (m w').0 (m w).1 (m w').1 (λ a e. (k a).apply (m w).1 (m w').1 after)
        same after

  pub query-Agree :
      {A : Type 0} (select : Db → List A) (w w' : World F)
      → select w'.db ≡ select w.db
      → Alike u w w'
      → Agree u (query select w) (query select w')
  unfolding query
  query-Agree select w w' same alike =
      (rw (alike.faults, same) refl, record { view = alike.view; faults = rw alike.faults refl })

  pub attempt-Confined :
      {E A : Type 0} (D : Type 0) (m : Action F E A) → Confined u m → Confined u (attempt {D = D} m)
  attempt-Confined D m c = record {
    apply = λ w w' alike. let (same, after) = c.apply w w' alike in (ap ok same, after);
  }

  -- An action that does not look at the world.
  pub steady-Confined : {E A : Type 0} (r : Result E A) → Confined u (of_result {F = F} r)
  steady-Confined r = record { apply = λ w w' alike. (refl, alike) }

  pub query-Confined :
      {A : Type 0} (select : Db → List A)
      → ((db db' : Db) → SameView u db db' → select db' ≡ select db)
      → Confined u (query {F = F} select)
  query-Confined select same = record {
    apply = λ w w' alike. query-Agree select w w' (same w.db w'.db alike.view) alike;
  }

  pub query_row-Confined :
      {A : Type 0} (select : Db → List A)
      → ((db db' : Db) → SameView u db db' → select db' ≡ select db)
      → Confined u (query_row {F = F} select)
  unfolding query_row
  query_row-Confined select same = record {
    apply = λ w w' alike. (
      rw (alike.faults, same w.db w'.db alike.view) refl,
      record { view = alike.view; faults = rw alike.faults refl },
    );
  }
