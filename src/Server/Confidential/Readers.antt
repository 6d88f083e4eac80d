-- ===== src/Server/Confidential/Readers.antt =====
-- The handlers of GET requests: each tells its caller nothing beyond the caller's own rows.
use maroon_ledger.Base.{ℕ, ◌≡◌, refl, ap, List, map, arith}
use maroon_ledger.Base.Int.{ℤ}
use maroon_ledger.Go.Bytes.{Bytes, bytes}
use maroon_ledger.Go.Float.{Float64}
use maroon_ledger.Ai.Types.{Provider}
use maroon_ledger.Database.{TransactionRow}
use maroon_ledger.Database.Select.{transactions_of}
use maroon_ledger.Handlers.World.{World, Result, ok, err, SqlError, query, attempt, pure, ◌>>=◌}
use maroon_ledger.Handlers.World.Rules.{Outcome, Same}
use maroon_ledger.Handlers.Http.{Request, HttpError, Handler, caller}
use maroon_ledger.Handlers.Accounts as Accounts
use maroon_ledger.Models.{Transaction}
use maroon_ledger.Handlers.Accounts.{or_error, list_error}
use maroon_ledger.Handlers.Transactions.{list_by_account, owned_account, scan_transaction}
use maroon_ledger.Handlers.Transactions.Access.{IsOwned, owned_account-Triple}
use maroon_ledger.Handlers.Summary as Summary
use maroon_ledger.Handlers.Insights.{summarize, generate, me}
use maroon_ledger.Server.Confidential.{
  Alike, Agree, Confined, bind_knowing-Confined, bind-Agree, query-Agree,
}
use maroon_ledger.Server.Confidential.Queries.{
  confined, current_user-then, account_owned_by-Confined, category_outflow-Confined,
  cashflow-Confined,
}

module _ {F : Type 0} ⦃fl : Float64 F⦄ where
  pub list-Confined : (r : Request F) → Confined (caller r) (Accounts.list r)
  unfolding Accounts.list
  list-Confined r = search (current_user-then, confined)

  pub get-Confined : (r : Request F) → Confined (caller r) (Accounts.get r)
  unfolding Accounts.get
  get-Confined r = search (current_user-then, confined)

  owned_account-Confined : (r : Request F) → Confined (caller r) (owned_account r)
  unfolding owned_account
  owned_account-Confined r = search (current_user-then, confined, account_owned_by-Confined)

  load-Confined : (u : Bytes) (now days : ℕ) → Confined u (Summary.load {F = F} u now days)
  unfolding Summary.load
  load-Confined u now days =
      search (confined, category_outflow-Confined, cashflow-Confined) depth 40 fits 8000

  pub summary-Confined : (r : Request F) → Confined (caller r) (Summary.get r)
  unfolding Summary.get
  summary-Confined r = search (current_user-then, confined, load-Confined)

  summarize-Confined : (u : Bytes) (start end : ℕ) → Confined u (summarize {F = F} u start end)
  unfolding summarize
  summarize-Confined u start end = search (confined, category_outflow-Confined, cashflow-Confined)

  pub generate-Confined : (ai : Provider F) (r : Request F) → Confined (caller r) (generate ai r)
  unfolding generate
  generate-Confined ai r =
      search (current_user-then, confined, summarize-Confined) depth 30 fits 6000

  pub me-Confined : (r : Request F) → Confined (caller r) (me r)
  unfolding me
  me-Confined r = search confined

  at_ok :
      {A : Type 0} (R : A → World F → Type 0) (X : HttpError → World F → Type 0)
      (done : Result HttpError A) (w : World F) (a : A)
      → Outcome R X done w
      → done ≡ ok a
      → R a w
  at_ok R X (ok b) w a h e = let same : b ≡ a = ground arith in rw (← same) h
  at_ok R X (err b) w a h e = absurd (ground arith)

  -- The account that owned_account lets through is the caller's, in the world that it leaves.
  owned :
      (r : Request F) (w : World F) (account : ℤ × Bytes)
      → (owned_account r w).0 ≡ ok account
      → IsOwned (caller r) account.0 account.1 (owned_account r w).1.db
  owned r w account e =
      let (same, mine) =
        at_ok (λ (b : ℤ × Bytes) v. Same w v × IsOwned (caller r) b.0 b.1 w.db) (λ x. Same w)
          (owned_account r w).0 (owned_account r w).1 account
          (owned_account-Triple w r w (refl, refl)) e in
      rw same.0 mine

  -- ListByAccount behind the ownership check, and behind its query.
  abbrev shown_rows : Result SqlError (List TransactionRow) → Handler F (ℕ × List (Transaction F))
  shown_rows found = do
    rows ←
        or_error
          (list_error (bytes "Failed to query transactions") (bytes "Failed to scan transaction")
            (bytes "Failed to read transactions"))
          found
    pure (200, map scan_transaction rows)

  abbrev list_rows : ℤ × Bytes → Handler F (ℕ × List (Transaction F))
  list_rows account = attempt (query (transactions_of account.0)) >>= shown_rows

  shown_rows-Confined :
      (u : Bytes) (found : Result SqlError (List TransactionRow)) → Confined u (shown_rows found)
  shown_rows-Confined u found = search confined

  list_rows-Agree :
      (u : Bytes) (account : ℤ × Bytes) (w w' : World F)
      → IsOwned u account.0 account.1 w.db
      → Alike u w w'
      → Agree u (list_rows account w) (list_rows account w')
  list_rows-Agree u account w w' mine alike =
      let select = transactions_of account.0 in
      let (same, after) =
        query-Agree u select w w' (alike.view.listed account.0 account.1 mine) alike in
      bind-Agree u (attempt (query select)) shown_rows w w' (ap ok same, after)
        (shown_rows-Confined u)

  pub list_by_account-Confined : (r : Request F) → Confined (caller r) (list_by_account r)
  unfolding list_by_account
  list_by_account-Confined r =
      bind_knowing-Confined (caller r) (owned_account r) list_rows (owned_account-Confined r)
        (λ w w' account e alike.
          list_rows-Agree (caller r) account (owned_account r w).1 (owned_account r w').1
            (owned r w account e) alike)
