-- ===== src/Server/Books/Refined.antt =====
-- The server keeps books: each request is a step of the requester's book, and of no other.
use maroon_ledger.Base.{
  ◌<◌, ◌≡◌, refl, sym, ap, ◌∙◌, ◌≢◌, true, Option, none, some, List, [], ◌∷◌, map, arith, leb,
  is_some, All,
}
use maroon_ledger.Base.Int.{ℤ, pos}
use maroon_ledger.Go.Bytes.{Bytes, bytes_eq}
use maroon_ledger.Go.Float.{Float64}
use maroon_ledger.Ai.Category.{is_category}
use maroon_ledger.Auth.Claims.{Claims}
use maroon_ledger.Auth.Verifier.{authenticate}
use maroon_ledger.Database.{AccountRow, TransactionRow, Db}
use maroon_ledger.Database.Insert.{transaction_row_ok, find_account}
use maroon_ledger.Database.Select.{where_rows, order_by, newest_first, accounts_of, transactions_of}
use maroon_ledger.Handlers.World.{World}
use maroon_ledger.Handlers.Http.{Request}
use maroon_ledger.Handlers.World.Rules.{SameTables}
use maroon_ledger.Handlers.Accounts.Open.{IsOpened}
use maroon_ledger.Handlers.Transactions.Access.{IsOwned}
use maroon_ledger.Handlers.Transactions.Stored.{IsAppended}
use maroon_ledger.Server.{Route, Services, State, serve, seconds}
use maroon_ledger.Server.Change.{
  Change, idle, opened, recorded, published, ServedAs, serve-ServeSpec,
}
use maroon_ledger.Server.Change.Ledger.{IsLedger, All-map}
use maroon_ledger.Server.Change.Foreign.{bytes_eq-ne, NotTheirs, owned-NotTheirs}
use maroon_ledger.Server.Books.{Sheet, BookStep, rests, opens, enters, sheet_of, book_of}
use maroon_ledger.Server.Books.Lines.{
  book_in-recorded, enter-foreign, book_in-opened, book_in-opened_elsewhere, sheet-in_book,
  All-in_book, used_number,
}

-- The step of one user's book, and all other books stay.
pub record StepOf (user : Bytes) (before after : Db) : Type 0 where
  pub own : BookStep user (book_of user before) (book_of user after)
  pub others : (u : Bytes) → user ≢ u → book_of u after ≡ book_of u before

row-facts :
    (db : Db) (t : TransactionRow)
    → transaction_row_ok db t ≡ true
    → (is_some (find_account t.account_id db.accounts) ≡ true) × (is_category t.category ≡ true)
unfolding transaction_row_ok
row-facts db t h = ground arith

module _ {F : Type 0} ⦃fl : Float64 F⦄ (user : Bytes) (before after : World F) where
  idle-StepOf : SameTables before.db after.db → StepOf user before.db after.db
  idle-StepOf (transactions, accounts, next) = record {
    own = rests (rw (transactions, accounts) refl);
    others = λ u other. rw (transactions, accounts) refl;
  }

  opened-StepOf :
      (row : AccountRow)
      → IsLedger before
      → IsOpened user row before.db after.db
      → StepOf user before.db after.db
  opened-StepOf row ledger done =
      let new_number : All (λ (a : AccountRow). a.id ≢ row.id) before.db.accounts =
        All-map (λ (a : AccountRow). a.id < before.db.next_account) _ before.db.accounts
          (λ a used e. omega (arith, done.numbered)) ledger.numbers_used in
      let unused : All (λ (t : TransactionRow). t.account_id ≢ row.id) before.db.transactions =
        All-map _ _ before.db.transactions
          (λ t ok e.
            let used =
              used_number t.account_id before.db.next_account before.db.accounts
                (row-facts before.db t ok).0 ledger.numbers_used in
            omega (arith, done.numbered))
          ledger.transactions_valid in
      record {
        own =
            opens row done.owner done.accepted
              (All-in_book (λ a. a.id ≢ row.id) user before.db.accounts before.db.transactions
                new_number)
              (rw (done.appended, done.kept)
                (book_in-opened user before.db.accounts before.db.transactions row done.owner
                  unused));
        others = λ u other.
            rw (done.appended, done.kept)
              (book_in-opened_elsewhere u before.db.accounts before.db.transactions row
                (rw done.owner (bytes_eq-ne user u other)));
      }

  recorded-StepOf :
      (id : ℤ) (type : Bytes) (row : TransactionRow)
      → IsLedger before
      → IsOwned user id type before.db
      → IsAppended id row before.db after.db
      → StepOf user before.db after.db
  recorded-StepOf id type row ledger owner done = record {
    own =
        enters row (sheet_of before.db.transactions owner.row)
          (sheet-in_book user before.db.accounts before.db.transactions owner.row owner.stored
            owner.owner)
          (owner.numbered ∙ sym done.placed) (row-facts before.db row done.accepted).1
          (rw (done.kept, done.appended)
            (book_in-recorded user before.db.accounts before.db.transactions row));
    others = λ u other.
        let not_theirs : NotTheirs u row.account_id before.db.accounts =
          rw (done.placed, ← owner.numbered)
            (owned-NotTheirs u before.db.accounts owner.row ledger.numbers_differ owner.stored
              (rw owner.owner (bytes_eq-ne user u other))) in
        rw (done.kept, done.appended)
          (book_in-recorded u before.db.accounts before.db.transactions row
            ∙ enter-foreign u row before.db.transactions before.db.accounts not_theirs);
  }

  Change-StepOf : IsLedger before → Change user before after → StepOf user before.db after.db
  Change-StepOf ledger (idle same silent) = idle-StepOf same
  Change-StepOf ledger (opened row done silent) = opened-StepOf row ledger done
  Change-StepOf ledger (recorded id type row owner done silent) =
      recorded-StepOf id type row ledger owner done
  Change-StepOf ledger (published id type row owner done sent) =
      recorded-StepOf id type row ledger owner done

-- What a request does to all books, by the claims that its header gives.
abbrev pub BooksSpec : Option Claims → Db → Db → Type 0
BooksSpec none before after = (u : Bytes) → book_of u after ≡ book_of u before
BooksSpec (some claims) before after = StepOf claims.subject before after

map-accounts :
    (ts : List TransactionRow) (accounts : List AccountRow)
    → map (λ (s : Sheet). s.account) (map (sheet_of ts) accounts) ≡ accounts
map-accounts ts [] = refl
map-accounts ts (a ∷ accounts) = ap (λ l. a ∷ l) (map-accounts ts accounts)

-- A property of every account, as one of every sheet.
sheets-All :
    (P : Sheet → Type 0) (ts : List TransactionRow) (accounts : List AccountRow)
    → ((a : AccountRow) → P (sheet_of ts a))
    → All P (map (sheet_of ts) accounts)
sheets-All P ts [] h = tt
sheets-All P ts (a ∷ accounts) h = (h a, sheets-All P ts accounts h)

-- What the queries behind the lists show of a user is the book: its accounts by their numbers, and
-- the lines of each sheet with the newest first.
pub record IsShown (db : Db) (user : Bytes) : Type 0 where
  pub accounts :
      accounts_of user db
      ≡ order_by (λ a b. leb a.id b.id) (map (λ (s : Sheet). s.account) (book_of user db))
  pub lines :
      All
        (λ (s : Sheet). transactions_of (pos s.account.id) db ≡ order_by newest_first s.lines)
        (book_of user db)

shows : (db : Db) (user : Bytes) → IsShown db user
unfolding accounts_of transactions_of
shows db user = record {
  accounts =
      rw (map-accounts db.transactions (where_rows (λ a. bytes_eq a.user_id user) db.accounts))
        refl;
  lines = sheets-All _ db.transactions _ (λ a. refl);
}

module _ {F L : Type 0} ⦃fl : Float64 F⦄ (svc : Services F L) where
  -- The server refines the books. In a ledger that is in order, whatever the request and whatever
  -- fails: without a valid token every user's book stays; with one, the book of the token's subject
  -- makes at most one step, a new sheet of a number that it did not have or one line more on a sheet
  -- that is there, and every other book stays. And what the queries behind the two lists then show
  -- any user is that user's book: the accounts in the order of their numbers, and for each the lines
  -- of its sheet, newest first.
  pub serve-BooksSpec :
      (route : Route) (header : Bytes) (r : Request F) (s : State F L)
      → IsLedger s.world
      → let s' = (serve svc route header r s).1 in
        BooksSpec
          (authenticate svc.unicode svc.issuer svc.parser (seconds r.now) header)
          s.world.db
          s'.world.db
        × ((user : Bytes) → IsShown s'.world.db user)
  serve-BooksSpec route header r s ledger = (
    cases (authenticate svc.unicode svc.issuer svc.parser (seconds r.now) header)
        (serve-ServeSpec svc route header r s),
    shows (serve svc route header r s).1.world.db,
  )
    where
      cases :
          (claims : Option Claims)
          → ServedAs svc claims s (serve svc route header r s)
          → BooksSpec claims s.world.db (serve svc route header r s).1.world.db
      cases none (refused, same) = λ u. rw same refl
      cases (some c) change = Change-StepOf c.subject s.world _ ledger change
