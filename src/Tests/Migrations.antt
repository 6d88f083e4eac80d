-- ===== src/Tests/Migrations.antt =====
-- Migrations at concrete files: a script adds its version's length to a number.
use maroon_ledger.Base.{ℕ, ◌+◌, ◌≡◌, refl, true, ◌&&◌, Option, none, some, List, [], ◌∷◌, length}
use maroon_ledger.Go.Bytes.{Bytes, bytes, bytes_eq}
use maroon_ledger.Database.Migrate.{
  Schema, MigrateFault, at_check, ahead_of_commit, at_commit, check_fails, is_applied, migrate,
  migrate_all, migrate_one,
}
use maroon_ledger.Database.Migrate.Runs.{
  IsInStep, AllApplied, versions_of, all_checked, migrate-IsInStep, migrate_again,
}

abbrev run : Bytes → ℕ → Option ℕ
run version n = some (n + length version)

abbrev untouched : Schema ℕ
untouched = record { tables = 0; versions = [] }

untouched-IsInStep : IsInStep run 0 untouched
untouched-IsInStep = record { built = refl; once = tt }

-- The second commit takes effect although it reports an error.
abbrev failing_run : List (Bytes × Option MigrateFault)
failing_run = (bytes "001", none) ∷ (bytes "002", some (at_commit true)) ∷ (bytes "003", none) ∷ []

migrate-IsInStep_example : IsInStep run 0 (migrate run true failing_run untouched).1
migrate-IsInStep_example = migrate-IsInStep run 0 true failing_run untouched untouched-IsInStep

abbrev good_run : List (Bytes × Option MigrateFault)
good_run = (bytes "001", none) ∷ (bytes "002", none) ∷ []

good_run_succeeds : (migrate run true good_run untouched).0 ≡ true
unfolding migrate migrate_all migrate_one check_fails is_applied bytes bytes_eq
good_run_succeeds = refl

-- In a second run the check of the second version fails.
abbrev later_run : List (Bytes × Option MigrateFault)
later_run = (bytes "001", some ahead_of_commit) ∷ (bytes "002", some at_check) ∷ []

migrate_again_example :
    AllApplied run (versions_of good_run) (migrate run true good_run untouched).1
    × (migrate run true later_run (migrate run true good_run untouched).1
        ≡ (true && all_checked later_run, (migrate run true good_run untouched).1))
migrate_again_example =
    migrate_again run true true good_run later_run untouched good_run_succeeds refl
