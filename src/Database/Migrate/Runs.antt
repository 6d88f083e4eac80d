-- ===== src/Database/Migrate/Runs.antt =====
-- Runs of Migrate that fail, and runs behind a run that did not.
use mathlib.Core.Path.{subst}
use maroon_ledger.Base.{
  ◌≡◌, refl, sym, ap, ◌∙◌, inl, inr, Bool, true, false, not, ◌&&◌, ◌||◌, Option, none, some, List,
  [], ◌∷◌, ◌++◌, map, arith, Bool-cases, Option-cases, All,
}
use maroon_ledger.Go.Bytes.{Bytes, bytes_eq, bytes_eq_iff, bytes_eq_refl}
use maroon_ledger.Database.Migrate.{
  Schema, MigrateFault, at_check, ahead_of_commit, at_commit, check_fails, is_applied, recorded,
  commit_script, migrate_one, migrate_all, migrate,
}

-- The versions of the files.
abbrev pub versions_of : List (Bytes × Option MigrateFault) → List Bytes
versions_of files = map (λ f. f.0) files

-- No check of a run fails.
abbrev pub all_checked : List (Bytes × Option MigrateFault) → Bool
all_checked [] = true
all_checked ((version, fault) ∷ rest) = not (check_fails fault) && all_checked rest

module _ {S : Type 0} (run : Bytes → S → Option S) where
  -- The scripts of some versions, one after the other.
  abbrev pub replay : List Bytes → S → Option S
  replay [] t = some t
  replay (v ∷ vs) t = elim (run v t) [ none ↦ none | some t' ↦ replay vs t' ]

  abbrev pub Once : List Bytes → Type 0
  Once [] = Unit
  Once (v ∷ vs) = (is_applied v vs ≡ false) × Once vs

  -- The tables are what the recorded versions make of the first ones, each of them run once.
  pub record IsInStep (first : S) (s : Schema S) : Type 0 where
    pub built : replay s.versions first ≡ some s.tables
    pub once : Once s.versions

  replay-append :
      (vs : List Bytes) (v : Bytes) (t t' t'' : S)
      → replay vs t ≡ some t'
      → run v t' ≡ some t''
      → replay (vs ++ v ∷ []) t ≡ some t''
  replay-append [] v t t' t'' h k = ground arith
  replay-append (u ∷ us) v t t' t'' h k = elim (Option-cases (run u t)) [
    | inl failed ↦ absurd (ground arith)
    | inr (w, e) ↦ ground (arith, replay-append us v w t' t'')
  ]

  is_applied-append :
      (v u : Bytes) (us : List Bytes)
      → is_applied v (us ++ u ∷ []) ≡ (is_applied v us || bytes_eq u v)
  unfolding is_applied
  is_applied-append v u [] = ground arith
  is_applied-append v u (w ∷ us) = ground (arith, is_applied-append v u us)

  bytes_eq_sym : (s t : Bytes) → bytes_eq s t ≡ bytes_eq t s
  bytes_eq_sym s t = ground (arith, bytes_eq_iff s t, bytes_eq_iff t s)

  Once-append :
      (v : Bytes) (vs : List Bytes) → Once vs → is_applied v vs ≡ false → Once (vs ++ v ∷ [])
  unfolding is_applied
  Once-append v [] h k = (refl, tt)
  Once-append v (u ∷ us) h k = (
    ground (arith, is_applied-append u v us, bytes_eq_sym v u),
    Once-append v us h.1 (ground arith),
  )

  recorded-IsInStep :
      (first : S) (version : Bytes) (tables : S) (s : Schema S)
      → IsInStep first s
      → is_applied version s.versions ≡ false
      → run version s.tables ≡ some tables
      → IsInStep first (recorded run version tables s)
  recorded-IsInStep first version tables s h new e = record {
    built = replay-append s.versions version first s.tables tables h.built e;
    once = Once-append version s.versions h.once new;
  }

  commit_script-IsInStep :
      (first : S) (version : Bytes) (fault : Option MigrateFault) (o : Option S) (s : Schema S)
      → IsInStep first s
      → is_applied version s.versions ≡ false
      → run version s.tables ≡ o
      → IsInStep first (commit_script run version fault o s).1
  commit_script-IsInStep first version fault none s h new e = h
  commit_script-IsInStep first version none (some tables) s h new e =
      recorded-IsInStep first version tables s h new e
  commit_script-IsInStep first version (some at_check) (some tables) s h new e = h
  commit_script-IsInStep first version (some ahead_of_commit) (some tables) s h new e = h
  commit_script-IsInStep first version (some (at_commit false)) (some tables) s h new e = h
  commit_script-IsInStep first version (some (at_commit true)) (some tables) s h new e =
      recorded-IsInStep first version tables s h new e

  migrate_one-IsInStep :
      (first : S) (version : Bytes) (fault : Option MigrateFault) (s : Schema S)
      → IsInStep first s
      → IsInStep first (migrate_one run version fault s).1
  unfolding migrate_one
  migrate_one-IsInStep first version fault s h = elim (Bool-cases (check_fails fault)) [
    | inl fails ↦ rw fails h
    | inr checked ↦ elim (Bool-cases (is_applied version s.versions)) [
      | inl applied ↦ rw (checked, applied) h
      | inr new ↦
          rw (checked, new)
            (commit_script-IsInStep first version fault (run version s.tables) s h new refl)
    ]
  ]

  migrate_all-IsInStep :
      (first : S) (files : List (Bytes × Option MigrateFault)) (s : Schema S)
      → IsInStep first s
      → IsInStep first (migrate_all run files s).1
  unfolding migrate_all
  migrate_all-IsInStep first [] s h = h
  migrate_all-IsInStep first ((version, fault) ∷ rest) s h =
      let one = migrate_one-IsInStep first version fault s h in
      let s' = (migrate_one run version fault s).1 in
      elim (Bool-cases (migrate_one run version fault s).0) [
        | inl on ↦ rw on (migrate_all-IsInStep first rest s' one)
        | inr stops ↦ rw stops one
      ]

  -- However a run of Migrate fails, and however often it is repeated: the tables are always exactly
  -- what the recorded versions make of the first tables, and no version is recorded twice.
  pub migrate-IsInStep :
      (first : S) (prepared : Bool) (files : List (Bytes × Option MigrateFault)) (s : Schema S)
      → IsInStep first s
      → IsInStep first (migrate run prepared files s).1
  unfolding migrate
  migrate-IsInStep first true files s h = migrate_all-IsInStep first files s h
  migrate-IsInStep first false files s h = h

  migrate_one-keeps :
      (v version : Bytes) (fault : Option MigrateFault) (s : Schema S)
      → is_applied v s.versions ≡ true
      → is_applied v (migrate_one run version fault s).1.versions ≡ true
  unfolding migrate_one
  migrate_one-keeps v version fault s h = ground (arith, is_applied-append v version s.versions)

  migrate_one-applies :
      (version : Bytes) (fault : Option MigrateFault) (s : Schema S)
      → (migrate_one run version fault s).0 ≡ true
      → is_applied version (migrate_one run version fault s).1.versions ≡ true
  unfolding migrate_one
  migrate_one-applies version fault s h =
      ground (arith, is_applied-append version version s.versions, bytes_eq_refl version)

  migrate_all-keeps :
      (v : Bytes) (files : List (Bytes × Option MigrateFault)) (s : Schema S)
      → is_applied v s.versions ≡ true
      → is_applied v (migrate_all run files s).1.versions ≡ true
  unfolding migrate_all
  migrate_all-keeps v [] s h = h
  migrate_all-keeps v ((version, fault) ∷ rest) s h =
      let one = migrate_one-keeps v version fault s h in
      elim (Bool-cases (migrate_one run version fault s).0) [
        | inl on ↦ rw on (migrate_all-keeps v rest (migrate_one run version fault s).1 one)
        | inr stops ↦ rw stops one
      ]

  abbrev pub AllApplied : List Bytes → Schema S → Type 0
  AllApplied versions s = All (λ v. is_applied v s.versions ≡ true) versions

  migrate_on :
      (version : Bytes) (fault : Option MigrateFault) (rest : List (Bytes × Option MigrateFault))
      (s : Schema S)
      → (migrate_one run version fault s).0 ≡ true
      → migrate_all run ((version, fault) ∷ rest) s
        ≡ migrate_all run rest (migrate_one run version fault s).1
  unfolding migrate_all
  migrate_on version fault rest s h = rw h

  migrate_stops :
      (version : Bytes) (fault : Option MigrateFault) (rest : List (Bytes × Option MigrateFault))
      (s : Schema S)
      → (migrate_one run version fault s).0 ≡ false
      → (migrate_all run ((version, fault) ∷ rest) s).0 ≡ false
  unfolding migrate_all
  migrate_stops version fault rest s h = rw h

  migrate_all-AllApplied :
      (files : List (Bytes × Option MigrateFault)) (s : Schema S)
      → (migrate_all run files s).0 ≡ true
      → AllApplied (versions_of files) (migrate_all run files s).1
  migrate_all-AllApplied [] s h = tt
  migrate_all-AllApplied ((version, fault) ∷ rest) s h =
      let s' = (migrate_one run version fault s).1 in
      elim (Bool-cases (migrate_one run version fault s).0) [
        | inl on ↦
            let same = migrate_on version fault rest s on in
            subst (λ (r : Bool × Schema S). AllApplied (versions_of ((version, fault) ∷ rest)) r.1)
              (sym same)
              (
                migrate_all-keeps version rest s' (migrate_one-applies version fault s on),
                migrate_all-AllApplied rest s' (ap (λ (r : Bool × Schema S). r.0) (sym same) ∙ h),
              )
        | inr stops ↦ absurd (ground (arith, migrate_stops version fault rest s stops))
      ]

  migrate_all-idle :
      (files : List (Bytes × Option MigrateFault)) (s : Schema S)
      → AllApplied (versions_of files) s
      → migrate_all run files s ≡ (all_checked files, s)
  unfolding migrate_all migrate_one
  migrate_all-idle [] s h = refl
  migrate_all-idle ((version, fault) ∷ rest) s h =
      let behind = migrate_all-idle rest s h.1 in
      elim (Bool-cases (check_fails fault)) [
        | inl fails ↦ rw fails refl
        | inr checked ↦ rw (checked, h.0) behind
      ]

  -- If Migrate succeeds, every file's version is recorded. And a later run over the same files,
  -- whatever goes wrong in it, changes nothing, and succeeds exactly if its CREATE TABLE and all its
  -- checks do: it does not reach a script.
  pub migrate_again :
      (prepared again : Bool) (files later : List (Bytes × Option MigrateFault)) (s : Schema S)
      → (migrate run prepared files s).0 ≡ true
      → versions_of later ≡ versions_of files
      → let s' = (migrate run prepared files s).1 in
        AllApplied (versions_of files) s'
        × (migrate run again later s' ≡ (again && all_checked later, s'))
  unfolding migrate
  migrate_again false again files later s h same = cc (h)
  migrate_again true true files later s h same =
      let all = migrate_all-AllApplied files s h in
      (all, migrate_all-idle later (migrate_all run files s).1 (rw same all))
  migrate_again true false files later s h same = (migrate_all-AllApplied files s h, refl)
