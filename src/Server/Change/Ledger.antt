-- ===== src/Server/Change/Ledger.antt =====
-- What holds of the database and the events in every state that requests lead to.
use mathlib.Core.List.{Memᴰ, append-nil}
use maroon_ledger.Base.{
  ℕ, ◌<◌, ◌≡◌, refl, sym, ◌∙◌, ◌≢◌, true, Option, none, some, List, [], ◌∷◌, ◌++◌, append-nil,
  arith, is_some, All, All-append,
}
use maroon_ledger.Base.Int.{ℤ}
use maroon_ledger.Go.Bytes.{Bytes}
use maroon_ledger.Go.Float.{Float64}
use maroon_ledger.Pipeline.Event.{Event}
use maroon_ledger.Auth.Claims.{Claims}
use maroon_ledger.Auth.Verifier.{authenticate}
use maroon_ledger.Database.Select.Totals.{Differ}
use maroon_ledger.Database.{AccountRow, TransactionRow, Db}
use maroon_ledger.Database.Insert.{account_row_ok, transaction_row_ok, find_account}
use maroon_ledger.Handlers.World.{World}
use maroon_ledger.Handlers.World.Rules.{SameTables}
use maroon_ledger.Handlers.Http.{Request}
use maroon_ledger.Handlers.Accounts.Open.{IsOpened}
use maroon_ledger.Handlers.Transactions.{event_of, scan_transaction}
use maroon_ledger.Handlers.Transactions.Stored.{IsAppended}
use maroon_ledger.Server.{Route, Services, State, serve, seconds}
use maroon_ledger.Server.Change.{
  Change, idle, opened, recorded, published, ServedAs, serve-ServeSpec,
}

-- The event is that of a stored transaction.
abbrev pub IsStored : {F : Type 0} ⦃fl : Float64 F⦄ → Db → Event F → Type 0
IsStored db e = (t : TransactionRow) × Memᴰ t db.transactions × (e ≡ event_of (scan_transaction t))

-- Every row meets the constraints of its table, every transaction's account exists, no two accounts
-- share a number, the numbers to come are new, and nothing was published that is not stored.
pub record IsLedger {F : Type 0} ⦃fl : Float64 F⦄ (w : World F) : Type 0 where
  pub accounts_valid : All (λ a. account_row_ok a ≡ true) w.db.accounts
  pub transactions_valid : All (λ t. transaction_row_ok w.db t ≡ true) w.db.transactions
  pub numbers_differ : Differ w.db.accounts
  pub numbers_used : All (λ a. a.id < w.db.next_account) w.db.accounts
  pub events_stored : All (IsStored w.db) w.emitted

pub All-map {ℓ κ μ} :
    {A : Type ℓ} (P : A → Type κ) (Q : A → Type μ) (xs : List A)
    → ((x : A) → P x → Q x)
    → All P xs
    → All Q xs
All-map P Q [] f h = tt
All-map P Q (x ∷ xs) f h = (f x h.0, All-map P Q xs f h.1)

Differ-append :
    (a : AccountRow) (rest : List AccountRow)
    → Differ rest
    → All (λ b. b.id < a.id) rest
    → Differ (rest ++ a ∷ [])
Differ-append a [] h k = (tt, tt)
Differ-append a (b ∷ rest) h k = (
  All-append (λ c. b.id ≢ c.id) rest (a ∷ []) h.0 ((λ e. omega arith), tt),
  Differ-append a rest h.1 k.1,
)

find_account-append :
    (id : ℕ) (xs ys : List AccountRow)
    → is_some (find_account id xs) ≡ true
    → is_some (find_account id (xs ++ ys)) ≡ true
unfolding find_account
find_account-append id [] ys h = cc
find_account-append id (x ∷ xs) ys h = ground (arith, find_account-append id xs ys)

-- A transaction keeps its account when accounts are added.
transaction_row_ok-append :
    (db db' : Db) (more : List AccountRow)
    → db'.accounts ≡ db.accounts ++ more
    → (t : TransactionRow) → transaction_row_ok db t ≡ true
    → transaction_row_ok db' t ≡ true
unfolding transaction_row_ok
transaction_row_ok-append db db' more e t h =
    rw e (ground (arith, find_account-append t.account_id db.accounts more))

memᴰ-append {ℓ} : {A : Type ℓ} (x : A) (xs ys : List A) → Memᴰ x xs → Memᴰ x (xs ++ ys)
memᴰ-append x [] ys m = elim m [ ]
memᴰ-append x (y ∷ xs) ys (Memᴰ.head e) = Memᴰ.head e
memᴰ-append x (y ∷ xs) ys (Memᴰ.tail m) = Memᴰ.tail (memᴰ-append x xs ys m)

memᴰ-last {ℓ} : {A : Type ℓ} (x : A) (xs : List A) → Memᴰ x (xs ++ x ∷ [])
memᴰ-last x [] = Memᴰ.head refl
memᴰ-last x (y ∷ xs) = Memᴰ.tail (memᴰ-last x xs)

module _ {F : Type 0} ⦃fl : Float64 F⦄ where
  -- Events that were stored stay so when transactions are added.
  IsStored-append :
      (db db' : Db) (more : List TransactionRow)
      → db'.transactions ≡ db.transactions ++ more
      → (e : Event F) → IsStored db e
      → IsStored db' e
  IsStored-append db db' more same e (t, m, shown) =
      (t, rw same (memᴰ-append t db.transactions more m), shown)

  idle-IsLedger :
      (before after : World F)
      → SameTables before.db after.db
      → after.emitted ≡ before.emitted
      → IsLedger before
      → IsLedger after
  unfolding transaction_row_ok
  idle-IsLedger before after (transactions, accounts, next) silent h = record {
    accounts_valid = rw accounts h.accounts_valid;
    transactions_valid = rw transactions (
        All-map _ _ before.db.transactions
          (transaction_row_ok-append before.db after.db [] (accounts ∙ sym (append-nil _)))
          h.transactions_valid);
    numbers_differ = rw accounts h.numbers_differ;
    numbers_used = rw accounts (
        All-map (λ (a : AccountRow). a.id < before.db.next_account) _ before.db.accounts
          (λ a k. omega arith) h.numbers_used);
    events_stored = rw silent (
        All-map _ _ before.emitted
          (IsStored-append before.db after.db [] (transactions ∙ sym (append-nil _)))
          h.events_stored);
  }

  opened-IsLedger :
      (user : Bytes) (before after : World F) (row : AccountRow)
      → IsOpened user row before.db after.db
      → after.emitted ≡ before.emitted
      → IsLedger before
      → IsLedger after
  unfolding transaction_row_ok
  opened-IsLedger user before after row done silent h = record {
    accounts_valid = rw done.appended (
        All-append (λ a. account_row_ok a ≡ true) before.db.accounts (row ∷ []) h.accounts_valid
          (done.accepted, tt));
    transactions_valid = rw done.kept (
        All-map _ _ before.db.transactions
          (transaction_row_ok-append before.db after.db (row ∷ []) done.appended)
          h.transactions_valid);
    numbers_differ =
        rw done.appended
          (Differ-append row before.db.accounts h.numbers_differ (rw done.numbered h.numbers_used));
    numbers_used = rw done.appended (
        All-append (λ (a : AccountRow). a.id < after.db.next_account) before.db.accounts (row ∷ [])
          (All-map (λ (a : AccountRow). a.id < before.db.next_account) _ before.db.accounts
            (λ a k. omega (arith, done.advanced)) h.numbers_used)
          (omega (arith, done.advanced, done.numbered), tt));
    events_stored = rw silent (
        All-map _ _ before.emitted
          (IsStored-append before.db after.db [] (done.kept ∙ sym (append-nil _))) h.events_stored);
  }

  appended-IsLedger :
      (id : ℤ) (before after : World F) (row : TransactionRow)
      → IsAppended id row before.db after.db
      → All (IsStored after.db) after.emitted
      → IsLedger before
      → IsLedger after
  unfolding transaction_row_ok
  appended-IsLedger id before after row done events h =
      let keep = transaction_row_ok-append before.db after.db [] (done.kept ∙ sym (append-nil _)) in
      record {
        accounts_valid = rw done.kept h.accounts_valid;
        transactions_valid = rw done.appended (
            All-append (λ t. transaction_row_ok after.db t ≡ true) before.db.transactions (row ∷ [])
              (All-map _ _ before.db.transactions keep h.transactions_valid)
              (keep row done.accepted, tt));
        numbers_differ = rw done.kept h.numbers_differ;
        numbers_used = rw (done.kept, done.kept_next) h.numbers_used;
        events_stored = events;
      }

  -- Every change that a request may make keeps the ledger in order.
  Change-IsLedger :
      (user : Bytes) (before after : World F)
      → Change user before after
      → IsLedger before
      → IsLedger after
  Change-IsLedger user before after (idle same silent) h = idle-IsLedger before after same silent h
  Change-IsLedger user before after (opened row done silent) h =
      opened-IsLedger user before after row done silent h
  Change-IsLedger user before after (recorded id type row owned done silent) h =
      appended-IsLedger id before after row done
        (rw silent (
          All-map _ _ before.emitted (IsStored-append before.db after.db (row ∷ []) done.appended)
            h.events_stored))
        h
  Change-IsLedger user before after (published id type row owned done sent) h =
      appended-IsLedger id before after row done
        (rw sent (
          All-append (IsStored after.db) before.emitted (event_of (scan_transaction row) ∷ [])
            (All-map _ _ before.emitted
              (IsStored-append before.db after.db (row ∷ []) done.appended) h.events_stored)
            ((row, rw done.appended (memᴰ-last row before.db.transactions), refl), tt)))
        h

-- The requests that a server gets, one after the other, with what it answers left out.
abbrev pub serve_all :
    {F L : Type 0} ⦃fl : Float64 F⦄
    → Services F L
    → List (Route × Bytes × Request F)
    → State F L
    → State F L
serve_all svc [] s = s
serve_all svc ((route, header, r) ∷ rest) s = serve_all svc rest (serve svc route header r s).1

module _ {F L : Type 0} ⦃fl : Float64 F⦄ (svc : Services F L) where
  serve-IsLedger :
      (route : Route) (header : Bytes) (r : Request F) (s : State F L)
      → IsLedger s.world
      → IsLedger (serve svc route header r s).1.world
  serve-IsLedger route header r s h =
      cases (authenticate svc.unicode svc.issuer svc.parser (seconds r.now) header)
        (serve-ServeSpec svc route header r s)
    where
      cases :
          (claims : Option Claims)
          → ServedAs svc claims s (serve svc route header r s)
          → IsLedger (serve svc route header r s).1.world
      cases none (refused, same) = rw same h
      cases (some c) change = Change-IsLedger c.subject s.world _ change h

  -- From a ledger that is in order, over any sequence of requests, with or without valid tokens,
  -- whatever the database and the provider fail at: every account and transaction meets the
  -- constraints of its table, every transaction's account exists, no two accounts share a number, and
  -- every event that was published is that of a stored transaction, so the lake never holds a
  -- transaction that the database does not.
  pub serve_all-IsLedger :
      (requests : List (Route × Bytes × Request F)) (s : State F L)
      → IsLedger s.world
      → IsLedger (serve_all svc requests s).world
  serve_all-IsLedger [] s h = h
  serve_all-IsLedger ((route, header, r) ∷ rest) s h =
      serve_all-IsLedger rest (serve svc route header r s).1 (serve-IsLedger route header r s h)
