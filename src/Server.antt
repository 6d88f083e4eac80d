-- ===== src/Server.antt =====
-- The routes of app/cmd/server/main.go: authentication in front of every one of the API, the rate
-- limiters in front of those that write or infer.
pub mod Setup
pub mod Startup
pub mod Shutdown
pub mod Mux
pub mod Handle
pub mod Change
pub mod Books
pub mod Confidential
use maroon_ledger.Base.{
  ℕ, zero, suc, ◌+◌, ◌-◌, ◌*◌, ◌/◌, ◌%◌, ◌^◌, ◌≤◌, ◌<◌, String, ◌≡◌, refl, sym, ap, ◌∙◌, ◌≢◌, ◌↔◌,
  ◌⊎◌, inl, inr, Bool, true, false, not, ◌&&◌, ◌||◌, Option, none, some, List, [], ◌∷◌, ◌++◌, map,
  append-nil, append_assoc, arith, ltb, leb, ◌==◌, if◌then◌else◌, Bool-cases, Option-cases, is_some,
  length, length-append, All, All-append,
}
use maroon_ledger.Go.Bytes.{Bytes, bytes, Unicode}
use maroon_ledger.Go.Float.{Float64}
use maroon_ledger.Go.Time.{unix}
use maroon_ledger.Models.{Account, Transaction}
use maroon_ledger.Ai.Types.{Provider}
use maroon_ledger.Auth.Claims.{Claims}
use maroon_ledger.Auth.Verifier.{Config, Parser, authenticate}
use maroon_ledger.Ratelimit.{TokenBucket, Limiter, middleware}
use maroon_ledger.Handlers.World.{World, Result, ok, err, Action, pure, ◌>>=◌}
use maroon_ledger.Handlers.Http.{Request, HttpError, Handler}
use maroon_ledger.Handlers.Accounts as Accounts
use maroon_ledger.Handlers.Transactions as Transactions
use maroon_ledger.Handlers.Summary as Summary
use maroon_ledger.Handlers.Insights.{InsightsResponse, generate, me}

pub data Route : Type 0 where
  get_me get_summary list_accounts get_account open_account list_transactions record_transaction
        get_insights :
      Route

-- The body of a response that is no error.
pub data Answer (F : Type 0) : Type 0 where
  of_me : Claims → Answer F
  of_summary : Summary.SummaryResponse F → Answer F
  of_accounts : List (Account F) → Answer F
  of_account : Account F → Answer F
  of_transactions : List (Transaction F) → Answer F
  of_transaction : Transaction F → Answer F
  of_insights : InsightsResponse F → Answer F

-- What the server was built with: the provider, whether there is a pipeline, the issuer, and the two
-- budgets.
pub record Services (F L : Type 0) : Type 0 where
  pub unicode : Unicode
  pub provider : Provider F
  pub emitting : Bool
  pub issuer : Config
  pub parser : Parser
  pub inference_budget : TokenBucket L
  pub write_budget : TokenBucket L

pub record State (F L : Type 0) : Type 0 where
  pub world : World F
  pub inference : Limiter L
  pub writes : Limiter L

abbrev pub answered : {F A : Type 0} → (A → Answer F) → Handler F (ℕ × A) → Handler F (ℕ × Answer F)
answered body handler = handler >>= λ a. pure (a.0, body a.1)

abbrev pub seconds : ℕ → ℕ
seconds t = unix t

module _ {F L : Type 0} ⦃fl : Float64 F⦄ (svc : Services F L) where
  -- The handler of each route.
  unfoldable pub handler_of : Route → Request F → Handler F (ℕ × Answer F)
  handler_of get_me r = answered of_me (me r)
  handler_of get_summary r = answered of_summary (Summary.get r)
  handler_of list_accounts r = answered of_accounts (Accounts.list r)
  handler_of get_account r = answered of_account (Accounts.get r)
  handler_of open_account r = answered of_account (Accounts.create svc.unicode r)
  handler_of list_transactions r = answered of_transactions (Transactions.list_by_account r)
  handler_of record_transaction r =
      answered of_transaction (Transactions.create svc.unicode (some svc.provider) svc.emitting r)
  handler_of get_insights r = answered of_insights (generate svc.provider r)

  abbrev pub run : Route → Request F → State F L → Result HttpError (ℕ × Answer F) × State F L
  run route r s = let (done, w) = handler_of route r s.world in (done, record s { world = w })

  abbrev pub unless_refused :
      Route
      → Request F
      → Option (ℕ × Bytes)
      → State F L
      → Result HttpError (ℕ × Answer F) × State F L
  unless_refused route r none s = run route r s
  unless_refused route r (some (status, message)) s =
      (err (record { status = status; message = message }), s)

  -- The limiter that a route stands behind, if any.
  unfoldable pub dispatch :
      Route → Request F → State F L → Result HttpError (ℕ × Answer F) × State F L
  dispatch open_account r s =
      let (refusal, l) = middleware svc.write_budget r.claims r.now s.writes in
      unless_refused open_account r refusal (record s { writes = l })
  dispatch record_transaction r s =
      let (refusal, l) = middleware svc.write_budget r.claims r.now s.writes in
      unless_refused record_transaction r refusal (record s { writes = l })
  dispatch get_insights r s =
      let (refusal, l) = middleware svc.inference_budget r.claims r.now s.inference in
      unless_refused get_insights r refusal (record s { inference = l })
  dispatch get_me r s = run get_me r s
  dispatch get_summary r s = run get_summary r s
  dispatch list_accounts r s = run list_accounts r s
  dispatch get_account r s = run get_account r s
  dispatch list_transactions r s = run list_transactions r s

  -- A request for the API, with its Authorization header: the claims that the middleware attaches
  -- replace whatever stands in the request.
  unfoldable pub serve :
      Route → Bytes → Request F → State F L → Result HttpError (ℕ × Answer F) × State F L
  serve route header r s =
      elim (authenticate svc.unicode svc.issuer svc.parser (seconds r.now) header) [
        | none ↦ (err (record { status = 401; message = bytes "Unauthorized" }), s)
        | some claims ↦ dispatch route (record r { claims = some claims }) s
      ]
