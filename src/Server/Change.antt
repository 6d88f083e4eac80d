-- ===== src/Server/Change.antt =====
-- What a request may do to the database and the events, by whose request it is.
pub mod Reads
pub mod Ledger
pub mod Foreign
pub mod Isolation
use maroon_ledger.Base.{
  ℕ, zero, suc, ◌+◌, ◌-◌, ◌*◌, ◌/◌, ◌%◌, ◌^◌, ◌≤◌, ◌<◌, String, ◌≡◌, refl, sym, ap, ◌∙◌, ◌≢◌, ◌↔◌,
  ◌⊎◌, inl, inr, Bool, true, false, not, ◌&&◌, ◌||◌, Option, none, some, List, [], ◌∷◌, ◌++◌, map,
  append-nil, append_assoc, arith, ltb, leb, ◌==◌, if◌then◌else◌, Bool-cases, Option-cases, is_some,
  length, length-append, All, All-append,
}
use maroon_ledger.Base.Int.{ℤ}
use maroon_ledger.Go.Bytes.{Bytes, bytes, Unicode}
use maroon_ledger.Go.Float.{Float64}
use maroon_ledger.Models.{Account, Transaction}
use maroon_ledger.Ai.Types.{Provider}
use maroon_ledger.Pipeline.Event.{Event}
use maroon_ledger.Auth.Claims.{Claims}
use maroon_ledger.Auth.Verifier.{authenticate}
use maroon_ledger.Ratelimit.{middleware}
use maroon_ledger.Database.{AccountRow, TransactionRow, Db}
use maroon_ledger.Handlers.World.{World, Result, ok, err, Action, pure, ◌>>=◌}
use maroon_ledger.Handlers.World.Rules.{Same, SameTables, IsReading, bind-step}
use maroon_ledger.Handlers.Http.{Request, caller, HttpError, Handler}
use maroon_ledger.Handlers.Accounts as Accounts
use maroon_ledger.Handlers.Accounts.Open.{IsOpened, OpenSpec, create-OpenSpec}
use maroon_ledger.Handlers.Reading as Reading
use maroon_ledger.Handlers.Transactions.{event_of, scan_transaction}
use maroon_ledger.Handlers.Transactions as Transactions
use maroon_ledger.Handlers.Transactions.Access.{IsOwned}
use maroon_ledger.Handlers.Transactions.Stored.{IsAppended, IsCreated, IsFailed}
use maroon_ledger.Handlers.Transactions.Write.{CreateSpec, create-CreateSpec}
use maroon_ledger.Handlers.Summary as Summary
use maroon_ledger.Handlers.Insights.{generate, me}
use maroon_ledger.Server.{
  get_me, get_summary, list_accounts, get_account, open_account, list_transactions,
  record_transaction, get_insights, of_me, of_summary, of_accounts, of_account, of_transactions,
  of_transaction, of_insights, Route, Answer, Services, State, handler_of, run, unless_refused,
  dispatch, serve, seconds, answered,
}

-- Nothing but a number used up; an account of the user's own; or a transaction on an account of the
-- user's own, with no event or with the one event of exactly this transaction.
pub data Change {F : Type 0} ⦃fl : Float64 F⦄ (user : Bytes) (before after : World F) : Type 0 where
  idle : SameTables before.db after.db → after.emitted ≡ before.emitted → Change user before after
  opened :
      (row : AccountRow)
      → IsOpened user row before.db after.db
      → after.emitted ≡ before.emitted
      → Change user before after
  recorded :
      (id : ℤ) (type : Bytes) (row : TransactionRow)
      → IsOwned user id type before.db
      → IsAppended id row before.db after.db
      → after.emitted ≡ before.emitted
      → Change user before after
  published :
      (id : ℤ) (type : Bytes) (row : TransactionRow)
      → IsOwned user id type before.db
      → IsAppended id row before.db after.db
      → after.emitted ≡ before.emitted ++ event_of (scan_transaction row) ∷ []
      → Change user before after

module _ {F : Type 0} ⦃fl : Float64 F⦄ where
  Same-Change :
      (user : Bytes) (before after : World F) → Same before after → Change user before after
  Same-Change user before after (tables, events) = idle (rw tables (refl, refl, omega arith)) events

  OpenSpec-Change :
      (user : Bytes) (before : World F) (done : Result HttpError (ℕ × Account F) × World F)
      → OpenSpec user before done
      → Change user before done.1
  OpenSpec-Change user before (ok answer, w) (row, done, answers, silent) = opened row done silent
  OpenSpec-Change user before (err e, w) (inl same, silent) = idle same silent
  OpenSpec-Change user before (err e, w) (inr (row, done), silent) = opened row done silent

  CreateSpec-Change :
      (emitting : Bool) (r : Request F) (before : World F)
      (done : Result HttpError (ℕ × Transaction F) × World F)
      → CreateSpec emitting r before done
      → Change (caller r) before done.1
  CreateSpec-Change true r before (ok answer, w) (id, type, owned, done) =
      published id type done.row owned done.appended done.published
  CreateSpec-Change false r before (ok answer, w) (id, type, owned, done) =
      recorded id type done.row owned done.appended done.published
  CreateSpec-Change emitting r before (err e, w) (inl same) = Same-Change (caller r) before w same
  CreateSpec-Change emitting r before (err e, w) (inr (id, type, owned, failed)) =
      elim failed.tables [
        | inl same ↦ idle same failed.silent
        | inr (row, done) ↦ recorded id type row owned done failed.silent
      ]

  -- Rendering the answer does nothing to the world.
  answered-Change :
      {A : Type 0} (user : Bytes) (body : A → Answer F) (h : Handler F (ℕ × A)) (w : World F)
      → Change user w (h w).1
      → Change user w (answered body h w).1
  answered-Change user body h w change =
      bind-step (λ (done : Result HttpError (ℕ × Answer F) × World F). Change user w done.1) h
        (λ a. pure (a.0, body a.1)) w (λ a e. change) (λ e f. change)

module _ {F L : Type 0} ⦃fl : Float64 F⦄ (svc : Services F L) where
  handler_of-Change :
      (route : Route) (r : Request F) (w : World F)
      → Change (caller r) w (handler_of svc route r w).1
  unfolding handler_of
  handler_of-Change get_me r w =
      answered-Change (caller r) of_me (me r) w (Same-Change _ _ _ (Reading.me-IsReading r w))
  handler_of-Change get_summary r w =
      answered-Change (caller r) of_summary (Summary.get r) w
        (Same-Change _ _ _ (Reading.summary-IsReading r w))
  handler_of-Change list_accounts r w =
      answered-Change (caller r) of_accounts (Accounts.list r) w
        (Same-Change _ _ _ (Reading.list-IsReading r w))
  handler_of-Change get_account r w =
      answered-Change (caller r) of_account (Accounts.get r) w
        (Same-Change _ _ _ (Reading.get-IsReading r w))
  handler_of-Change open_account r w =
      answered-Change (caller r) of_account (Accounts.create svc.unicode r) w (
        OpenSpec-Change (caller r) w (Accounts.create svc.unicode r w)
          (create-OpenSpec svc.unicode r w))
  handler_of-Change list_transactions r w =
      answered-Change (caller r) of_transactions (Transactions.list_by_account r) w
        (Same-Change _ _ _ (Reading.list_by_account-IsReading r w))
  handler_of-Change record_transaction r w =
      let create = Transactions.create svc.unicode (some svc.provider) svc.emitting r in
      answered-Change (caller r) of_transaction create w (
        CreateSpec-Change svc.emitting r w (create w)
          (create-CreateSpec svc.unicode (some svc.provider) svc.emitting r w))
  handler_of-Change get_insights r w =
      answered-Change (caller r) of_insights (generate svc.provider r) w
        (Same-Change _ _ _ (Reading.generate-IsReading svc.provider r w))

  unless_refused-Change :
      (route : Route) (r : Request F) (refusal : Option (ℕ × Bytes)) (s : State F L)
      → Change (caller r) s.world (unless_refused svc route r refusal s).1.world
  unless_refused-Change route r none s = handler_of-Change route r s.world
  unless_refused-Change route r (some (status, message)) s =
      Same-Change (caller r) s.world s.world (refl, refl)

  pub dispatch-Change :
      (route : Route) (r : Request F) (s : State F L)
      → Change (caller r) s.world (dispatch svc route r s).1.world
  unfolding dispatch
  dispatch-Change open_account r s =
      let (refusal, l) = middleware svc.write_budget r.claims r.now s.writes in
      unless_refused-Change open_account r refusal (record s { writes = l })
  dispatch-Change record_transaction r s =
      let (refusal, l) = middleware svc.write_budget r.claims r.now s.writes in
      unless_refused-Change record_transaction r refusal (record s { writes = l })
  dispatch-Change get_insights r s =
      let (refusal, l) = middleware svc.inference_budget r.claims r.now s.inference in
      unless_refused-Change get_insights r refusal (record s { inference = l })
  dispatch-Change get_me r s = handler_of-Change get_me r s.world
  dispatch-Change get_summary r s = handler_of-Change get_summary r s.world
  dispatch-Change list_accounts r s = handler_of-Change list_accounts r s.world
  dispatch-Change get_account r s = handler_of-Change get_account r s.world
  dispatch-Change list_transactions r s = handler_of-Change list_transactions r s.world

  abbrev pub ServedAs :
      Option Claims → State F L → Result HttpError (ℕ × Answer F) × State F L → Type 0
  ServedAs none s (answer, s') =
      (answer ≡ err (record { status = 401; message = bytes "Unauthorized" })) × (s' ≡ s)
  ServedAs (some claims) s (answer, s') = Change claims.subject s.world s'.world

  -- What serving a request has done, by the claims that its header gives.
  abbrev pub ServeSpec :
      Bytes → Request F → State F L → Result HttpError (ℕ × Answer F) × State F L → Type 0
  ServeSpec header r s done =
      ServedAs (authenticate svc.unicode svc.issuer svc.parser (seconds r.now) header) s done

  -- Whatever the route, the request and the failures of the database and the provider: without a
  -- valid token a request is answered 401 and changes nothing, not even a budget. With one, whatever
  -- claims the request came with, it uses up a number at most, or adds one account that the token's
  -- subject owns, or adds one transaction to such an account, with no event or with the event of
  -- exactly that transaction.
  pub serve-ServeSpec :
      (route : Route) (header : Bytes) (r : Request F) (s : State F L)
      → ServeSpec header r s (serve svc route header r s)
  unfolding serve
  serve-ServeSpec route header r s =
      cases (authenticate svc.unicode svc.issuer svc.parser (seconds r.now) header)
    where
      cases :
          (claims : Option Claims)
          → ServedAs claims s (elim claims [
            | none ↦ (err (record { status = 401; message = bytes "Unauthorized" }), s)
            | some c ↦ dispatch svc route (record r { claims = some c }) s
          ])
      cases none = (refl, refl)
      cases (some c) = dispatch-Change route (record r { claims = some c }) s
