-- ===== src/Server/Change/Isolation.antt =====
-- What the queries for one user see of another user's request: nothing.
use maroon_ledger.Base.{◌≡◌, refl, ◌≢◌, false, ◌&&◌, Option, none, some, arith}
use maroon_ledger.Base.Int.{ℤ}
use maroon_ledger.Go.Bytes.{Bytes, bytes_eq}
use maroon_ledger.Go.Float.{Float64}
use maroon_ledger.Auth.Claims.{Claims}
use maroon_ledger.Auth.Verifier.{authenticate}
use maroon_ledger.Database.{AccountRow, TransactionRow, Db}
use maroon_ledger.Database.Select.{scoped, accounts_of, account_by, transactions_of, is_id}
use maroon_ledger.Handlers.World.{World}
use maroon_ledger.Handlers.Http.{Request}
use maroon_ledger.Handlers.World.Rules.{SameTables}
use maroon_ledger.Handlers.Accounts.Open.{IsOpened}
use maroon_ledger.Handlers.Transactions.Access.{IsOwned}
use maroon_ledger.Handlers.Transactions.Stored.{IsAppended}
use maroon_ledger.Server.{Route, Services, State, serve, seconds}
use maroon_ledger.Server.Change.{
  Change, idle, opened, recorded, published, ServedAs, serve-ServeSpec,
}
use maroon_ledger.Database.Select.Totals.{Differ}
use maroon_ledger.Server.Change.Ledger.{IsLedger}
use maroon_ledger.Server.Change.Foreign.{
  bytes_eq-ne, where_rows-dropped, join_accounts-opened, NotTheirs, owned-NotTheirs,
  join_accounts-recorded, NotTheirs-is_id,
}

-- What the queries that are scoped to a user find: the user's accounts, the rows of the aggregates,
-- one account by its number, and the transactions of an account of the user's.
pub record SameView (u : Bytes) (before after : Db) : Type 0 where
  pub accounts : accounts_of u after ≡ accounts_of u before
  pub rows : scoped u after ≡ scoped u before
  pub found : (id : ℤ) → account_by id u after ≡ account_by id u before
  pub listed :
      (id : ℤ) (type : Bytes)
      → IsOwned u id type before
      → transactions_of id after ≡ transactions_of id before

module _ (u : Bytes) (before after : Db) where
  idle-SameView : SameTables before after → SameView u before after
  unfolding accounts_of scoped account_by transactions_of
  idle-SameView (transactions, accounts, next) = record {
    accounts = rw accounts;
    rows = rw (transactions, accounts);
    found = λ id. rw accounts;
    listed = λ id type owned. rw transactions;
  }

  opened-SameView :
      (user : Bytes) (row : AccountRow)
      → bytes_eq user u ≡ false
      → IsOpened user row before after
      → SameView u before after
  unfolding accounts_of scoped account_by transactions_of
  opened-SameView user row other done =
      let not_theirs : bytes_eq row.user_id u ≡ false = rw done.owner other in
      record {
        accounts = rw (
          done.appended,
          where_rows-dropped (λ (a : AccountRow). bytes_eq a.user_id u) before.accounts row
              not_theirs,
        );
        rows = rw (
          done.appended,
          done.kept,
          join_accounts-opened u before.transactions before.accounts row not_theirs,
        );
        found = λ id. rw (
          done.appended,
          where_rows-dropped (λ (a : AccountRow). is_id id a.id && bytes_eq a.user_id u)
              before.accounts row (ground arith),
        );
        listed = λ id type owned. rw done.kept;
      }

  recorded-SameView :
      (user : Bytes) (id : ℤ) (type : Bytes) (row : TransactionRow)
      → bytes_eq user u ≡ false
      → Differ before.accounts
      → IsOwned user id type before
      → IsAppended id row before after
      → SameView u before after
  unfolding accounts_of scoped account_by transactions_of
  recorded-SameView user id type row other differ owner done =
      let not_theirs : NotTheirs u row.account_id before.accounts =
        rw (done.placed, ← owner.numbered)
          (owned-NotTheirs u before.accounts owner.row differ owner.stored
            (rw owner.owner other)) in
      record {
        accounts = rw done.kept;
        rows = rw (
          done.kept,
          done.appended,
          join_accounts-recorded u before.transactions row before.accounts not_theirs,
        );
        found = λ id. rw done.kept;
        listed = λ their_id their_type owned. rw (
          done.appended,
          where_rows-dropped (λ (t : TransactionRow). is_id their_id t.account_id)
              before.transactions row
              (NotTheirs-is_id u their_id row.account_id before.accounts owned.row not_theirs
                owned.stored owned.owner owned.numbered),
        );
      }

module _ {F : Type 0} ⦃fl : Float64 F⦄ (u : Bytes) where
  Change-SameView :
      (user : Bytes) (before after : World F)
      → user ≢ u
      → IsLedger before
      → Change user before after
      → SameView u before.db after.db
  Change-SameView user before after other ledger (idle same silent) =
      idle-SameView u before.db after.db same
  Change-SameView user before after other ledger (opened row done silent) =
      opened-SameView u before.db after.db user row (bytes_eq-ne user u other) done
  Change-SameView user before after other ledger (recorded id type row owner done silent) =
      recorded-SameView u before.db after.db user id type row (bytes_eq-ne user u other)
        ledger.numbers_differ owner done
  Change-SameView user before after other ledger (published id type row owner done sent) =
      recorded-SameView u before.db after.db user id type row (bytes_eq-ne user u other)
        ledger.numbers_differ owner done

-- The claims of a header are not about this user.
abbrev pub NotAs : Bytes → Option Claims → Type 0
NotAs u none = Unit
NotAs u (some c) = c.subject ≢ u

module _ {F L : Type 0} ⦃fl : Float64 F⦄ (svc : Services F L) (u : Bytes) where
  -- Nobody's request touches another user's data: in a ledger that is in order, any request whose
  -- token is not the user's, or that has none, leaves everything as it was that a query scoped to the
  -- user finds: the accounts, the rows behind every aggregate, each account by its number, and the
  -- transactions of every account that the user owns.
  pub serve-SameView :
      (route : Route) (header : Bytes) (r : Request F) (s : State F L)
      → IsLedger s.world
      → NotAs u (authenticate svc.unicode svc.issuer svc.parser (seconds r.now) header)
      → SameView u s.world.db (serve svc route header r s).1.world.db
  serve-SameView route header r s ledger other =
      cases (authenticate svc.unicode svc.issuer svc.parser (seconds r.now) header) other
        (serve-ServeSpec svc route header r s)
    where
      cases :
          (claims : Option Claims)
          → NotAs u claims
          → ServedAs svc claims s (serve svc route header r s)
          → SameView u s.world.db (serve svc route header r s).1.world.db
      cases none other (refused, same) =
          rw same (idle-SameView u s.world.db s.world.db (refl, refl, omega arith))
      cases (some c) other change = Change-SameView u c.subject s.world _ other ledger change
