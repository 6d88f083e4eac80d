-- ===== src/Server/Confidential/Answers.antt =====
-- What the server answers to a request that only reads.
use maroon_ledger.Base.{ℕ, ◌≡◌, refl, ap, ◌∙◌, true, Option, none, some, arith}
use maroon_ledger.Go.Bytes.{Bytes, bytes}
use maroon_ledger.Go.Float.{Float64}
use maroon_ledger.Auth.Claims.{Claims}
use maroon_ledger.Auth.Verifier.{authenticate}
use maroon_ledger.Handlers.World.{World, Result, err, pure}
use maroon_ledger.Handlers.Http.{Request, HttpError, Handler, caller}
use maroon_ledger.Handlers.Accounts as Accounts
use maroon_ledger.Handlers.Transactions as Transactions
use maroon_ledger.Handlers.Summary as Summary
use maroon_ledger.Handlers.Insights.{generate, me}
use maroon_ledger.Ratelimit.{Limiter, middleware}
use maroon_ledger.Server.{
  Route, get_me, get_summary, list_accounts, get_account, open_account, list_transactions,
  record_transaction, get_insights, of_me, of_summary, of_accounts, of_account, of_transactions,
  of_insights, Answer, Services, State, handler_of, unless_refused, dispatch, serve, seconds,
  answered,
}
use maroon_ledger.Server.Change.Reads.{reads}
use maroon_ledger.Server.Confidential.{Alike, Confined, bind-Confined}
use maroon_ledger.Server.Confidential.OwnRows.{SameRows, same_rows-SameView}
use maroon_ledger.Server.Confidential.Queries.{pure-Confined}
use maroon_ledger.Server.Confidential.Readers.{
  list-Confined, get-Confined, summary-Confined, generate-Confined, me-Confined,
  list_by_account-Confined,
}

module _ {F : Type 0} where
  answered-Confined :
      {A : Type 0} (u : Bytes) (body : A → Answer F) (h : Handler F (ℕ × A))
      → Confined u h
      → Confined u (answered body h)
  answered-Confined u body h c =
      bind-Confined u h (λ a. pure (a.0, body a.1)) c (λ a. pure-Confined u (a.0, body a.1))

-- To the user whom a header names, if it names one, two states have the same rows, and the same
-- statements are going to fail.
abbrev pub AlikeAs : {F L : Type 0} → Option Claims → State F L → State F L → Type 0
AlikeAs none s s' = Unit
AlikeAs (some c) s s' =
    SameRows c.subject s.world.db s'.world.db × (s'.world.faults ≡ s.world.faults)

module _ {F L : Type 0} ⦃fl : Float64 F⦄ (svc : Services F L) where
  handler_of-Confined :
      (route : Route) (r : Request F)
      → reads route ≡ true
      → Confined (caller r) (handler_of svc route r)
  unfolding handler_of
  handler_of-Confined get_me r h = answered-Confined (caller r) of_me (me r) (me-Confined r)
  handler_of-Confined get_summary r h =
      answered-Confined (caller r) of_summary (Summary.get r) (summary-Confined r)
  handler_of-Confined list_accounts r h =
      answered-Confined (caller r) of_accounts (Accounts.list r) (list-Confined r)
  handler_of-Confined get_account r h =
      answered-Confined (caller r) of_account (Accounts.get r) (get-Confined r)
  handler_of-Confined open_account r h = absurd (ground arith)
  handler_of-Confined list_transactions r h =
      answered-Confined (caller r) of_transactions (Transactions.list_by_account r)
        (list_by_account-Confined r)
  handler_of-Confined record_transaction r h = absurd (ground arith)
  handler_of-Confined get_insights r h =
      answered-Confined (caller r) of_insights (generate svc.provider r)
        (generate-Confined svc.provider r)

  run-same :
      (route : Route) (r : Request F) (w w' : World F)
      → reads route ≡ true
      → Alike (caller r) w w'
      → (handler_of svc route r w').0 ≡ (handler_of svc route r w).0
  run-same route r w w' h alike = ((handler_of-Confined route r h).apply w w' alike).0

  unless_refused-same :
      (route : Route) (r : Request F) (refusal : Option (ℕ × Bytes)) (s s' : State F L)
      → reads route ≡ true
      → Alike (caller r) s.world s'.world
      → (unless_refused svc route r refusal s').0 ≡ (unless_refused svc route r refusal s).0
  unless_refused-same route r none s s' h alike = run-same route r s.world s'.world h alike
  unless_refused-same route r (some (status, message)) s s' h alike = refl

  dispatch-same :
      (route : Route) (r : Request F) (s s' : State F L)
      → reads route ≡ true
      → s'.inference ≡ s.inference
      → Alike (caller r) s.world s'.world
      → (dispatch svc route r s').0 ≡ (dispatch svc route r s).0
  unfolding dispatch
  dispatch-same open_account r s s' h budget alike = absurd (ground arith)
  dispatch-same record_transaction r s s' h budget alike = absurd (ground arith)
  dispatch-same get_insights r s s' h budget alike =
      let (refusal, l) = middleware svc.inference_budget r.claims r.now s.inference in
      let by = λ (i : Limiter L).
        (unless_refused svc get_insights r (middleware svc.inference_budget r.claims r.now i).0
          (record s' { inference = (middleware svc.inference_budget r.claims r.now i).1 })).0 in
      ap by budget
      ∙ unless_refused-same get_insights r refusal (record s { inference = l })
          (record s' { inference = l }) h alike
  dispatch-same get_me r s s' h budget alike = run-same get_me r s.world s'.world h alike
  dispatch-same get_summary r s s' h budget alike = run-same get_summary r s.world s'.world h alike
  dispatch-same list_accounts r s s' h budget alike =
      run-same list_accounts r s.world s'.world h alike
  dispatch-same get_account r s s' h budget alike = run-same get_account r s.world s'.world h alike
  dispatch-same list_transactions r s s' h budget alike =
      run-same list_transactions r s.world s'.world h alike

  -- Nobody is told anything of another user's data: to a request that only reads, two states give
  -- the same answer, status, body and errors alike, if the accounts of the token's subject and the
  -- transactions on them are the same rows in both, the same statements are going to fail, and the
  -- inference budgets are the same; whatever else the two ledgers hold, and whatever account the
  -- request asks for by number. Without a valid token the answer is the same from any two states
  -- whose inference budgets are the same.
  pub serve-confidential :
      (route : Route) (header : Bytes) (r : Request F) (s s' : State F L)
      → reads route ≡ true
      → s'.inference ≡ s.inference
      → AlikeAs (authenticate svc.unicode svc.issuer svc.parser (seconds r.now) header) s s'
      → (serve svc route header r s').0 ≡ (serve svc route header r s).0
  unfolding serve
  serve-confidential route header r s s' h budget alike =
      cases (authenticate svc.unicode svc.issuer svc.parser (seconds r.now) header) alike
    where
      by_claims : Option Claims → State F L → Result HttpError (ℕ × Answer F) × State F L
      by_claims claims t = elim claims [
        | none ↦ (err (record { status = 401; message = bytes "Unauthorized" }), t)
        | some c ↦ dispatch svc route (record r { claims = some c }) t
      ]

      cases :
          (claims : Option Claims)
          → AlikeAs claims s s'
          → (by_claims claims s').0 ≡ (by_claims claims s).0
      cases none alike = refl
      cases (some c) (rows, faults) =
          dispatch-same route (record r { claims = some c }) s s' h budget
            (record {
              view = same_rows-SameView c.subject s.world.db s'.world.db rows;
              faults = faults;
            })
