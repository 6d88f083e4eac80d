-- ===== src/Server/Change/Reads.antt =====
-- The routes that only read: whatever they answer, the database and the events stay.
use maroon_ledger.Base.{ℕ, ◌≡◌, refl, Bool, true, false, Option, none, some, arith}
use maroon_ledger.Go.Bytes.{Bytes}
use maroon_ledger.Go.Float.{Float64}
use maroon_ledger.Handlers.World.{World, Result, pure}
use maroon_ledger.Handlers.World.Rules.{Same, bind-step}
use maroon_ledger.Handlers.Http.{Request, HttpError, Handler}
use maroon_ledger.Handlers.Reading as Reading
use maroon_ledger.Handlers.Accounts as Accounts
use maroon_ledger.Handlers.Transactions as Transactions
use maroon_ledger.Handlers.Summary as Summary
use maroon_ledger.Handlers.Insights.{generate, me}
use maroon_ledger.Ratelimit.{middleware}
use maroon_ledger.Server.{
  Route, get_me, get_summary, list_accounts, get_account, open_account, list_transactions,
  record_transaction, get_insights, of_me, of_summary, of_accounts, of_account, of_transactions,
  of_insights, Answer, Services, State, handler_of, unless_refused, dispatch, answered,
}

abbrev pub reads : Route → Bool
reads get_me = true
reads get_summary = true
reads list_accounts = true
reads get_account = true
reads open_account = false
reads list_transactions = true
reads record_transaction = false
reads get_insights = true

module _ {F : Type 0} where
  answered-Same :
      {A : Type 0} (body : A → Answer F) (h : Handler F (ℕ × A)) (w : World F)
      → Same w (h w).1
      → Same w (answered body h w).1
  answered-Same body h w same =
      bind-step (λ (done : Result HttpError (ℕ × Answer F) × World F). Same w done.1) h
        (λ a. pure (a.0, body a.1)) w (λ a e. same) (λ e f. same)

module _ {F L : Type 0} ⦃fl : Float64 F⦄ (svc : Services F L) where
  handler_of-Same :
      (route : Route) (r : Request F) (w : World F)
      → reads route ≡ true
      → Same w (handler_of svc route r w).1
  unfolding handler_of
  handler_of-Same get_me r w h = answered-Same of_me (me r) w (Reading.me-IsReading r w)
  handler_of-Same get_summary r w h =
      answered-Same of_summary (Summary.get r) w (Reading.summary-IsReading r w)
  handler_of-Same list_accounts r w h =
      answered-Same of_accounts (Accounts.list r) w (Reading.list-IsReading r w)
  handler_of-Same get_account r w h =
      answered-Same of_account (Accounts.get r) w (Reading.get-IsReading r w)
  handler_of-Same open_account r w h = absurd (ground arith)
  handler_of-Same list_transactions r w h =
      answered-Same of_transactions (Transactions.list_by_account r) w
        (Reading.list_by_account-IsReading r w)
  handler_of-Same record_transaction r w h = absurd (ground arith)
  handler_of-Same get_insights r w h =
      answered-Same of_insights (generate svc.provider r) w
        (Reading.generate-IsReading svc.provider r w)

  unless_refused-Same :
      (route : Route) (r : Request F) (refusal : Option (ℕ × Bytes)) (s : State F L)
      → reads route ≡ true
      → Same s.world (unless_refused svc route r refusal s).1.world
  unless_refused-Same route r none s h = handler_of-Same route r s.world h
  unless_refused-Same route r (some (status, message)) s h = (refl, refl)

  pub dispatch-Same :
      (route : Route) (r : Request F) (s : State F L)
      → reads route ≡ true
      → Same s.world (dispatch svc route r s).1.world
  unfolding dispatch
  dispatch-Same open_account r s h = absurd (ground arith)
  dispatch-Same record_transaction r s h = absurd (ground arith)
  dispatch-Same get_insights r s h =
      let (refusal, l) = middleware svc.inference_budget r.claims r.now s.inference in
      unless_refused-Same get_insights r refusal (record s { inference = l }) h
  dispatch-Same get_me r s h = handler_of-Same get_me r s.world h
  dispatch-Same get_summary r s h = handler_of-Same get_summary r s.world h
  dispatch-Same list_accounts r s h = handler_of-Same list_accounts r s.world h
  dispatch-Same get_account r s h = handler_of-Same get_account r s.world h
  dispatch-Same list_transactions r s h = handler_of-Same list_transactions r s.world h
