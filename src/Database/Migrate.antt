-- ===== src/Database/Migrate.antt =====
-- Migrate of app/internal/database/migrate.go. What a script does to the tables is a parameter:
-- `run version tables`, `none` if a statement of it fails.
pub mod Runs
use mathlib.Core.Path.{subst}
use maroon_ledger.Base.{
  ℕ, zero, suc, ◌+◌, ◌-◌, ◌*◌, ◌/◌, ◌%◌, ◌^◌, ◌≤◌, ◌<◌, String, ◌≡◌, refl, sym, ap, ◌∙◌, ◌≢◌, ◌↔◌,
  ◌⊎◌, inl, inr, Bool, true, false, not, ◌&&◌, ◌||◌, Option, none, some, List, [], ◌∷◌, ◌++◌, map,
  append-nil, append_assoc, arith, ltb, leb, ◌==◌, if◌then◌else◌, Bool-cases, Option-cases, is_some,
  length, length-append, All, All-append,
}
use maroon_ledger.Go.Bytes.{Bytes, bytes_eq, bytes_eq_iff, bytes_eq_refl}

-- The tables, and the versions in schema_migrations, in the order in which they were recorded.
pub record Schema (S : Type 0) : Type 0 where
  pub tables : S
  pub versions : List Bytes

-- What goes wrong with one migration: the check whether it is applied; something behind the check and
-- ahead of the commit; or the commit, which may have taken effect all the same.
pub data MigrateFault : Type 0 where
  at_check ahead_of_commit : MigrateFault
  at_commit : Bool → MigrateFault

-- The query whether a version is applied fails.
unfoldable pub check_fails : Option MigrateFault → Bool
check_fails none = false
check_fails (some at_check) = true
check_fails (some ahead_of_commit) = false
check_fails (some (at_commit taken)) = false

-- SELECT EXISTS(… WHERE version = $1)
unfoldable pub is_applied : Bytes → List Bytes → Bool
is_applied v [] = false
is_applied v (u ∷ us) = bytes_eq u v || is_applied v us

module _ {S : Type 0} (run : Bytes → S → Option S) where
  abbrev pub recorded : Bytes → S → Schema S → Schema S
  recorded version tables s = record { tables = tables; versions = s.versions ++ version ∷ [] }

  -- The transaction of a script and its record, and the error if there is one.
  abbrev pub commit_script : Bytes → Option MigrateFault → Option S → Schema S → Bool × Schema S
  commit_script version fault none s = (false, s)
  commit_script version none (some tables) s = (true, recorded version tables s)
  commit_script version (some at_check) (some tables) s = (false, s)
  commit_script version (some ahead_of_commit) (some tables) s = (false, s)
  commit_script version (some (at_commit false)) (some tables) s = (false, s)
  commit_script version (some (at_commit true)) (some tables) s = (false, recorded version tables s)

  -- One turn of the loop; the result says whether it goes on.
  unfoldable pub migrate_one : Bytes → Option MigrateFault → Schema S → Bool × Schema S
  migrate_one version fault s =
      if check_fails fault
      then (false, s)
      else if is_applied version s.versions
      then (true, s)
      else commit_script version fault (run version s.tables) s

  -- The loop, over the versions in the order of their file names, each with what will go wrong.
  unfoldable pub migrate_all : List (Bytes × Option MigrateFault) → Schema S → Bool × Schema S
  migrate_all [] s = (true, s)
  migrate_all ((version, fault) ∷ rest) s =
      let (goes_on, s') = migrate_one version fault s in
      let behind = migrate_all rest s' in if goes_on then behind else (false, s')

  -- Migrate; `prepared` says whether CREATE TABLE IF NOT EXISTS succeeds, which leaves the versions
  -- of a table that is there, and finds none in one that is new.
  unfoldable pub migrate : Bool → List (Bytes × Option MigrateFault) → Schema S → Bool × Schema S
  migrate prepared files s = if prepared then migrate_all files s else (false, s)
