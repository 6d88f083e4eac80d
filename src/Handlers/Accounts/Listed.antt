-- ===== src/Handlers/Accounts/Listed.antt =====
-- AccountHandler.List and AccountHandler.Get behind AccountHandler.Create.
use mathlib.Core.Path.{subst}
use maroon_ledger.Base.{
  ℕ, ◌<◌, ◌≡◌, refl, ap, ◌∙◌, ◌⊎◌, inl, inr, Bool, true, ◌&&◌, some, List, [], ◌∷◌, ◌++◌, map,
  arith, leb, Bool-cases, All,
}
use maroon_ledger.Base.{map-append}
use maroon_ledger.Base.Int.{ℤ, pos}
use maroon_ledger.Go.Bytes.{Bytes, bytes_eq, bytes_eq_iff, Unicode}
use maroon_ledger.Go.Float.{Float64}
use maroon_ledger.Go.Strconv.{atoi}
use maroon_ledger.Models.{Account}
use maroon_ledger.Database.{AccountRow, Db}
use maroon_ledger.Database.Select.{
  where_rows, order_by, insert_ordered, is_id, account_by, accounts_of,
}
use maroon_ledger.Database.Select.Rows.{where_rows-append}
use maroon_ledger.Handlers.World.{
  World, Result, ok, err, first_or_fault, query_row, query, next_fault, rows_or_fault,
}
use maroon_ledger.Handlers.World.Rules.{unhindered}
use maroon_ledger.Handlers.Http.{
  caller-subject_of, caller, Request, HttpError, subject_of, current_user,
}
use maroon_ledger.Handlers.Accounts.{list, get, create, scan_account}
use maroon_ledger.Handlers.Accounts.Open.{IsOpened, OpenSpec, create-OpenSpec}

module _ {A : Type 0} (le : A → A → Bool) (z : A) where
  insert_ordered-last :
      (x : A) (ys : List A)
      → le x z ≡ true
      → insert_ordered le x (ys ++ z ∷ []) ≡ insert_ordered le x ys ++ z ∷ []
  unfolding insert_ordered
  insert_ordered-last x [] h = ground arith
  insert_ordered-last x (y ∷ ys) h = ground (arith, insert_ordered-last x ys h)

  -- A greatest row that stands last stays last.
  order_by-last :
      (xs : List A)
      → All (λ x. le x z ≡ true) xs
      → order_by le (xs ++ z ∷ []) ≡ order_by le xs ++ z ∷ []
  unfolding order_by
  order_by-last [] h = refl
  order_by-last (x ∷ xs) h =
      ap (insert_ordered le x) (order_by-last xs h.1) ∙ insert_ordered-last x (order_by le xs) h.0

-- The number of the next account is behind all numbers in use.
abbrev pub NumbersUsed : Db → Type 0
NumbersUsed db = All (λ (a : AccountRow). a.id < db.next_account) db.accounts

below-kept :
    (p : AccountRow → Bool) (n : ℕ) (accounts : List AccountRow)
    → All (λ (a : AccountRow). a.id < n) accounts
    → All (λ (a : AccountRow). leb a.id n ≡ true) (where_rows p accounts)
unfolding where_rows
below-kept p n [] h = tt
below-kept p n (a ∷ accounts) h = elim (Bool-cases (p a)) [
  | inl kept ↦ rw kept (ground arith, below-kept p n accounts h.1)
  | inr dropped ↦ rw dropped (below-kept p n accounts h.1)
]

none-numbered :
    (u : Bytes) (n : ℕ) (accounts : List AccountRow)
    → All (λ (a : AccountRow). a.id < n) accounts
    → where_rows (λ a. is_id (pos n) a.id && bytes_eq a.user_id u) accounts ≡ []
unfolding where_rows
none-numbered u n [] h = refl
none-numbered u n (a ∷ accounts) h = ground (arith, none-numbered u n accounts h.1, h.0)

module _ (user : Bytes) (row : AccountRow) (db db' : Db) (used : NumbersUsed db)
    (done : IsOpened user row db db') where
  is_own : bytes_eq row.user_id user ≡ true
  is_own = (bytes_eq_iff row.user_id user).1 done.owner

  accounts_of-opened : accounts_of user db' ≡ accounts_of user db ++ row ∷ []
  unfolding accounts_of where_rows
  accounts_of-opened =
      let theirs = λ (a : AccountRow). bytes_eq a.user_id user in
      rw (done.appended, where_rows-append theirs db.accounts (row ∷ []), is_own)
        (order_by-last (λ (a b : AccountRow). leb a.id b.id) row (where_rows theirs db.accounts)
          (rw done.numbered (below-kept theirs db.next_account db.accounts used)))

  account_by-opened : account_by (pos row.id) user db' ≡ row ∷ []
  unfolding account_by where_rows
  account_by-opened =
      let found = λ (a : AccountRow). is_id (pos row.id) a.id && bytes_eq a.user_id user in
      let before : where_rows found db.accounts ≡ [] =
        rw done.numbered (none-numbered user db.next_account db.accounts used) in
      rw (done.appended, where_rows-append found db.accounts (row ∷ []), before, is_own)
        (ground arith)

-- What List and Get show before and behind a Create that answered with `a`; `q` carries its number.
pub record IsKnown {F : Type 0} ⦃fl : Float64 F⦄ (q : Request F) (before after : World F)
    (a : Account F) : Type 0 where
  pub old : List (Account F)
  pub listed_before : (list q (unhindered before)).0 ≡ ok (200, old)
  pub listed_after : (list q (unhindered after)).0 ≡ ok (200, old ++ a ∷ [])
  pub fetched : (get q (unhindered after)).0 ≡ ok (200, a)

module _ {F : Type 0} ⦃fl : Float64 F⦄ where
  list_shows :
      (q : Request F) (user : Bytes) (v : World F)
      → subject_of q.claims ≡ ok user
      → (list q (unhindered v)).0 ≡ ok (200, map scan_account (accounts_of user v.db))
  unfolding list current_user query next_fault rows_or_fault
  list_shows q user v known = grind arith

  get_shows :
      (q : Request F) (user : Bytes) (id : ℤ) (row : AccountRow) (v : World F)
      → subject_of q.claims ≡ ok user
      → atoi q.path_value ≡ some id
      → account_by id user v.db ≡ row ∷ []
      → (get q (unhindered v)).0 ≡ ok (200, scan_account row)
  unfolding get current_user query_row next_fault first_or_fault
  get_shows q user id row v known path found = grind arith

  -- A request that Create answers has a caller.
  answered_caller :
      (u : Unicode) (r : Request F) (w w' : World F) (answer : ℕ × Account F)
      → create u r w ≡ (ok answer, w')
      → subject_of r.claims ≡ ok (caller r)
  unfolding create current_user
  answered_caller u r w w' answer done = elim (Result-known (subject_of r.claims)) [
    | inl (user, known) ↦ known ∙ ap ok (caller-subject_of r user known)
    | inr (e, refused) ↦ absurd (ground (arith, done, refused))
  ]
    where
      Result-known :
          (o : Result HttpError Bytes)
          → ((user : Bytes) × (o ≡ ok user)) ⊎ ((e : HttpError) × (o ≡ err e))
      Result-known (ok user) = inl (user, refl)
      Result-known (err e) = inr (e, refl)

  -- The account that was opened is found: if Create answers, in a ledger whose numbers of accounts
  -- lie below the next one, then List of the same caller, where its statements succeed, answers
  -- with the accounts that it would have listed before, unchanged, and the new one at their end,
  -- and Get by the number of the new account answers with what Create answered.
  pub opened_then-IsKnown :
      (u : Unicode) (r q : Request F) (w w' : World F) (answer : ℕ × Account F)
      → NumbersUsed w.db
      → q.claims ≡ r.claims
      → atoi q.path_value ≡ some (pos answer.1.id)
      → create u r w ≡ (ok answer, w')
      → IsKnown q w w' answer.1
  unfolding scan_account
  opened_then-IsKnown u r q w w' answer used claims path done =
      let spec : OpenSpec (caller r) w (ok answer, w') =
        subst (OpenSpec (caller r) w) done (create-OpenSpec u r w) in
      let (row, opened, same, silent) = spec in
      let known : subject_of q.claims ≡ ok (caller r) =
        ap subject_of claims ∙ answered_caller u r w w' answer done in
      let shown : answer.1 ≡ scan_account row = ap (λ a. a.1) same in
      let number : atoi q.path_value ≡ some (pos row.id) =
        path ∙ ap (λ (a : Account F). some (pos a.id)) shown in
      record {
        old = map scan_account (accounts_of (caller r) w.db);
        listed_before = list_shows q (caller r) w known;
        listed_after =
            list_shows q (caller r) w' known
            ∙ rw
                (
                  shown,
                  accounts_of-opened (caller r) row w.db w'.db used opened,
                  map-append scan_account (accounts_of (caller r) w.db) (row ∷ []),
                )
                refl;
        fetched = rw shown (
            get_shows q (caller r) (pos row.id) row w' known number
              (account_by-opened (caller r) row w.db w'.db used opened));
      }
