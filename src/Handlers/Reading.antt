-- ===== src/Handlers/Reading.antt =====
-- The handlers of GET requests: whatever they answer, they change nothing.
use maroon_ledger.Base.{ℕ, refl, Bool, true, false, Option, none, some}
use maroon_ledger.Go.Bytes.{Bytes}
use maroon_ledger.Go.Float.{Float64}
use maroon_ledger.Base.Int.{ℤ}
use maroon_ledger.Database.Select.{account_by}
use maroon_ledger.Ai.Types.{Provider, Reply}
use maroon_ledger.Handlers.World.{World, Result, ok, err, Action, SqlError, attempt, pure, ◌>>=◌}
use maroon_ledger.Handlers.World.Rules.{
  Same, Same-trans, IsReading, query-IsReading, query_row-IsReading, bind-step,
}
use maroon_ledger.Handlers.Http.{
  Request, HttpError, current_user, some_or, http_error_if, account_owned_by,
}
use maroon_ledger.Handlers.Accounts.{or_error}
use maroon_ledger.Handlers.Accounts as Accounts
use maroon_ledger.Handlers.Aggregate.{category_outflow, cashflow}
use maroon_ledger.Handlers.Transactions.{list_by_account, owned_account}
use maroon_ledger.Handlers.Summary as Summary
use maroon_ledger.Handlers.Insights.{summarize, generate, me, reply_or_error}

module _ {F : Type 0} where
  -- A sequence of readings is one.
  bind-IsReading :
      {E A B : Type 0} (m : Action F E A) (f : A → Action F E B)
      → IsReading m
      → ((a : A) → IsReading (f a))
      → IsReading (m >>= f)
  bind-IsReading {E} {A} {B} m f reads then_reads w =
      bind-step (λ (done : Result E B × World F). Same w done.1) m f w
        (λ a h. Same-trans w (m w).1 (f a (m w).1).1 (reads w) (then_reads a (m w).1))
        (λ e h. reads w)

  attempt-IsReading :
      {E A : Type 0} (D : Type 0) (m : Action F E A) → IsReading m → IsReading (attempt {D = D} m)
  attempt-IsReading D m reads w = reads w

  pure-IsReading : {A : Type 0} (E : Type 0) (a : A) → IsReading (pure {F = F} {E = E} a)
  pure-IsReading E a w = (refl, refl)

  current_user-IsReading : (r : Request F) → IsReading (current_user r)
  unfolding current_user
  current_user-IsReading r w = (refl, refl)

  some_or-IsReading :
      {A : Type 0} (o : Option A) (status : ℕ) (message : Bytes)
      → IsReading (some_or {F = F} o status message)
  some_or-IsReading none status message w = (refl, refl)
  some_or-IsReading (some a) status message w = (refl, refl)

  or_error-IsReading :
      {A : Type 0} (describe : SqlError → HttpError) (r : Result SqlError A)
      → IsReading (or_error {F = F} describe r)
  or_error-IsReading describe (ok a) w = (refl, refl)
  or_error-IsReading describe (err e) w = (refl, refl)

  ruleset readings = (
    bind-IsReading, attempt-IsReading, pure-IsReading, current_user-IsReading, some_or-IsReading,
    or_error-IsReading, query-IsReading, query_row-IsReading,
  )

module _ {F : Type 0} ⦃fl : Float64 F⦄ where
  http_error_if-IsReading :
      (b : Bool) (status : ℕ) (message : Bytes) → IsReading (http_error_if {F = F} b status message)
  http_error_if-IsReading true status message w = (refl, refl)
  http_error_if-IsReading false status message w = (refl, refl)

  account_owned_by-IsReading :
      (id : ℤ) (user : Bytes) → IsReading (account_owned_by {F = F} id user)
  unfolding account_owned_by
  account_owned_by-IsReading id user w = query_row-IsReading (account_by id user) w

  reply_or_error-IsReading :
      {A : Type 0} (reply : Reply A) → IsReading (reply_or_error {F = F} reply)
  reply_or_error-IsReading (Reply.ok a) w = (refl, refl)
  reply_or_error-IsReading (Reply.err e) w = (refl, refl)

  pub list-IsReading : (r : Request F) → IsReading (Accounts.list r)
  unfolding Accounts.list
  list-IsReading r = search readings

  pub get-IsReading : (r : Request F) → IsReading (Accounts.get r)
  unfolding Accounts.get
  get-IsReading r = search readings

  pub list_by_account-IsReading : (r : Request F) → IsReading (list_by_account r)
  unfolding list_by_account owned_account
  list_by_account-IsReading r = search (readings, account_owned_by-IsReading) depth 20 fits 4000

  category_outflow-IsReading :
      (user : Bytes) (start end : ℕ) → IsReading (category_outflow {F = F} user start end)
  unfolding category_outflow
  category_outflow-IsReading user start end = search readings

  cashflow-IsReading : (user : Bytes) (start end : ℕ) → IsReading (cashflow {F = F} user start end)
  unfolding cashflow
  cashflow-IsReading user start end = search readings

  pub summary-IsReading : (r : Request F) → IsReading (Summary.get r)
  unfolding Summary.get Summary.load
  summary-IsReading r =
      search (readings, category_outflow-IsReading, cashflow-IsReading) depth 40 fits 8000

  summarize-IsReading :
      (user : Bytes) (start end : ℕ) → IsReading (summarize {F = F} user start end)
  unfolding summarize
  summarize-IsReading user start end =
      search (readings, category_outflow-IsReading, cashflow-IsReading)

  pub generate-IsReading : (ai : Provider F) (r : Request F) → IsReading (generate ai r)
  unfolding generate
  generate-IsReading ai r =
      search (readings, summarize-IsReading, http_error_if-IsReading, reply_or_error-IsReading)
        depth 30 fits 6000

  pub me-IsReading : (r : Request F) → IsReading (me r)
  unfolding me
  me-IsReading r = search readings
