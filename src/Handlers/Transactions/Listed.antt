-- ===== src/Handlers/Transactions/Listed.antt =====
-- TransactionHandler.ListByAccount behind TransactionHandler.Create: what was written is read back.
use mathlib.Core.List.{Permᴰ}
use mathlib.Core.List.Permᴰ as Permᴰ
use maroon_ledger.Base.{
  ℕ, ◌≡◌, refl, inl, inr, Bool, true, ◌&&◌, Option, none, List, [], ◌∷◌, ◌++◌, map, arith,
  Bool-cases,
}
use maroon_ledger.Base.Int.{ℤ, pos_part}
use maroon_ledger.Go.Bytes.{Bytes, bytes_eq, Unicode}
use maroon_ledger.Go.Float.{Float64}
use maroon_ledger.Ai.Types.{Provider}
use maroon_ledger.Models.{Transaction}
use maroon_ledger.Database.{AccountRow, TransactionRow, Db}
use maroon_ledger.Database.Select.{
  where_rows, order_by, insert_ordered, newest_first, is_id, account_by, transactions_of,
}
use maroon_ledger.Database.Select.Rows.{first-where_rows, where_rows-append, is_id-eq}
use maroon_ledger.Handlers.World.{
  World, Fault, Result, ok, first_or_fault, query_row, query, next_fault, rows_or_fault,
}
use maroon_ledger.Handlers.World.Rules.{unhindered, bind-step, first_or_fault-row}
use maroon_ledger.Handlers.Http.{Request, HttpError, subject_of, current_user, account_owned_by}
use maroon_ledger.Handlers.Transactions.{
  owned_account, list_by_account, create, create_on, scan_transaction,
}
use maroon_ledger.Handlers.Transactions.Access.{owned_account-Triple}
use maroon_ledger.Handlers.Transactions.Write.{create_on-WrittenOn}
use maroon_ledger.Handlers.Transactions.Stored.{IsCreated}

module _ {A : Type 0} (le : A → A → Bool) where
  insert_ordered-Permᴰ : (x : A) (xs : List A) → Permᴰ (insert_ordered le x xs) (x ∷ xs)
  unfolding insert_ordered
  insert_ordered-Permᴰ x [] = Permᴰ.refl (x ∷ [])
  insert_ordered-Permᴰ x (y ∷ ys) = elim (Bool-cases (le x y)) [
    | inl first ↦ rw first (Permᴰ.refl (x ∷ y ∷ ys))
    | inr later ↦
        rw later (Permᴰ.trans (Permᴰ.cons refl (insert_ordered-Permᴰ x ys)) (Permᴰ.swap refl refl))
  ]

  -- ORDER BY gives back the rows that it is given.
  order_by-Permᴰ : (xs : List A) → Permᴰ (order_by le xs) xs
  unfolding order_by
  order_by-Permᴰ [] = Permᴰ.nil
  order_by-Permᴰ (x ∷ xs) =
      Permᴰ.trans (insert_ordered-Permᴰ x (order_by le xs)) (Permᴰ.cons refl (order_by-Permᴰ xs))

first_again :
    (f : Option Fault) (id : ℤ) (user : Bytes) (a : AccountRow) (db : Db)
    → first_or_fault f (account_by id user db) ≡ ok a
    → (first_or_fault none (account_by id user db) ≡ ok a) × (is_id id (pos_part id) ≡ true)
unfolding first_or_fault account_by
first_again f id user a db e =
    let p = λ (b : AccountRow). is_id id b.id && bytes_eq b.user_id user in
    let (rest, selected) = first_or_fault-row f (account_by id user db) a e in
    let (stored, kept) = first-where_rows p a rest db.accounts selected in
    let numbered : is_id id a.id ≡ true = ground arith in
    (rw selected refl, rw (← is_id-eq id a.id numbered) numbered)

module _ {F : Type 0} ⦃fl : Float64 F⦄ where
  -- An account that was reached once is reached again while the accounts stay.
  reached_again :
      (r : Request F) (w v : World F) (account : ℤ × Bytes)
      → (owned_account r w).0 ≡ ok account
      → v.db.accounts ≡ w.db.accounts
      → v.faults ≡ []
      → ((owned_account r v).0 ≡ ok account)
        × ((owned_account r v).1.db ≡ v.db)
        × ((owned_account r v).1.faults ≡ [])
        × (is_id account.0 (pos_part account.0) ≡ true)
  unfolding owned_account current_user subject_of account_owned_by query_row next_fault account_by
  reached_again r w v account h same clear = rw (same, clear) (grind (arith, first_again))

  same_target :
      (r q : Request F) (w : World F)
      → q.claims ≡ r.claims
      → q.path_value ≡ r.path_value
      → owned_account q w ≡ owned_account r w
  unfolding owned_account current_user subject_of
  same_target r q w claims path = rw (claims, path) refl

  listed_rows :
      (q : Request F) (v : World F) (account : ℤ × Bytes)
      → (owned_account q v).0 ≡ ok account
      → (owned_account q v).1.db ≡ v.db
      → (owned_account q v).1.faults ≡ []
      → (list_by_account q v).0 ≡ ok (200, map scan_transaction (transactions_of account.0 v.db))
  unfolding list_by_account query next_fault rows_or_fault
  listed_rows q v account reached same clear = grind arith

  -- The list of an account that was reached, with its rows of a later world.
  listed_later :
      (r q : Request F) (w v : World F) (account : ℤ × Bytes)
      → q.claims ≡ r.claims
      → q.path_value ≡ r.path_value
      → (owned_account r w).0 ≡ ok account
      → v.db.accounts ≡ w.db.accounts
      → (list_by_account q (unhindered v)).0
        ≡ ok (200, map scan_transaction (transactions_of account.0 v.db))
  listed_later r q w v account claims path h same =
      let e = same_target r q (unhindered v) claims path in
      let (reached, kept, clear, numbered) = reached_again r w (unhindered v) account h same refl in
      listed_rows q (unhindered v) account (rw e reached) (rw e kept) (rw e clear)

-- A row behind the others, in the list of its account.
transactions_of-appended :
    (id : ℤ) (row : TransactionRow) (db db' : Db)
    → db'.transactions ≡ db.transactions ++ row ∷ []
    → is_id id row.account_id ≡ true
    → Permᴰ (transactions_of id db') (row ∷ transactions_of id db)
unfolding transactions_of where_rows
transactions_of-appended id row db db' appended here =
    let p = λ (t : TransactionRow). is_id id t.account_id in
    let old = where_rows p db.transactions in
    let split : where_rows p db'.transactions ≡ old ++ row ∷ [] =
      rw (appended, where_rows-append p db.transactions (row ∷ []), here) refl in
    Permᴰ.trans (order_by-Permᴰ newest_first (where_rows p db'.transactions)) (
      rw split (
        Permᴰ.trans (Permᴰ.append_comm old (row ∷ []))
          (Permᴰ.cons refl (Permᴰ.symm (order_by-Permᴰ newest_first old)))))

-- The two lists of an account, before and behind a write that answered with `t`.
pub record IsListed {F : Type 0} ⦃fl : Float64 F⦄ (q : Request F) (before after : World F)
    (t : Transaction F) : Type 0 where
  pub old : List (Transaction F)
  pub new : List (Transaction F)
  pub listed_before : (list_by_account q (unhindered before)).0 ≡ ok (200, old)
  pub listed_after : (list_by_account q (unhindered after)).0 ≡ ok (200, new)
  pub grown : Permᴰ new (t ∷ old)

module _ {F : Type 0} ⦃fl : Float64 F⦄ where
  created-IsListed :
      (emitting : Bool) (r q : Request F) (w w' : World F) (account : ℤ × Bytes)
      (answer : ℕ × Transaction F)
      → q.claims ≡ r.claims
      → q.path_value ≡ r.path_value
      → (owned_account r w).0 ≡ ok account
      → IsCreated emitting account.0 w answer w'
      → IsListed q w w' answer.1
  created-IsListed emitting r q w w' account answer claims path h done =
      let (reached, kept, clear, numbered) = reached_again r w (unhindered w) account h refl refl in
      let here : is_id account.0 done.row.account_id ≡ true = rw done.appended.placed numbered in
      record {
        old = map scan_transaction (transactions_of account.0 w.db);
        new = map scan_transaction (transactions_of account.0 w'.db);
        listed_before = listed_later r q w w account claims path h refl;
        listed_after = listed_later r q w w' account claims path h done.appended.kept;
        grown = rw done.shown (
            Permᴰ.map scan_transaction
              (transactions_of-appended account.0 done.row w.db w'.db done.appended.appended here));
      }

  -- What was written is read back: if Create answers a request with a transaction, then a
  -- ListByAccount of the same caller for the same account, where its statements succeed, answers
  -- with the transactions that it would have listed before, unchanged, and with this one, once.
  pub recorded_then-IsListed :
      (u : Unicode) (ai : Option (Provider F)) (emitting : Bool) (r q : Request F) (w w' : World F)
      (answer : ℕ × Transaction F)
      → q.claims ≡ r.claims
      → q.path_value ≡ r.path_value
      → create u ai emitting r w ≡ (ok answer, w')
      → IsListed q w w' answer.1
  unfolding create
  recorded_then-IsListed u ai emitting r q w w' answer claims path =
      let reached = owned_account-Triple w r w (refl, refl) in
      bind-step
        (λ (done : Result HttpError (ℕ × Transaction F) × World F).
          done ≡ (ok answer, w') → IsListed q w w' answer.1)
        (owned_account r) (create_on u ai emitting r) w
        (λ account h e.
          let (same, owned) = rw h at reached in
          let written =
            create_on-WrittenOn u ai emitting r w (owned_account {F = F} r w).1 account.0 account.1
              same in
          created-IsListed emitting r q w w' account answer claims path h (rw e at written))
        (λ e h k. absurd (cc (k)))
