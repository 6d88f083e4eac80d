-- ===== src/Server/Confidential/Queries.antt =====
-- The steps that the handlers of GET requests are made of, each confined to the user.
use maroon_ledger.Base.{ℕ, refl, ap, Bool, true, false, Option, none, some, [], ◌∷◌}
use maroon_ledger.Base.Int.{ℤ}
use maroon_ledger.Go.Bytes.{Bytes}
use maroon_ledger.Go.Float.{Float64}
use maroon_ledger.Ai.Types.{Reply}
use maroon_ledger.Database.{AccountRow}
use maroon_ledger.Database.Select.{
  accounts_of, account_by, deltas_of, outflow_by_category, cashflow_sums, alerts_of,
}
use maroon_ledger.Handlers.World.{Result, ok, err, SqlError, query, query_row, pure, ◌>>=◌}
use maroon_ledger.Handlers.Http.{
  caller-subject_of, Request, HttpError, Handler, caller, current_user, some_or, http_error_if,
  account_owned_by,
}
use maroon_ledger.Handlers.Accounts.{or_error}
use maroon_ledger.Handlers.Aggregate.{category_outflow, cashflow}
use maroon_ledger.Handlers.Insights.{reply_or_error}
use maroon_ledger.Server.Confidential.{
  Alike, Agree, Confined, bind_knowing-Confined, bind-Confined, attempt-Confined, query-Confined,
  query_row-Confined,
}

abbrev type_of : Result SqlError AccountRow → Result SqlError Bytes
type_of r = elim r [ ok a ↦ ok a.type | err e ↦ err e ]

module _ {F : Type 0} (u : Bytes) where
  pub pure-Confined : {E A : Type 0} (a : A) → Confined u (pure {F = F} {E = E} a)
  pure-Confined a = record { apply = λ w w' alike. (refl, alike) }

  pub some_or-Confined :
      {A : Type 0} (o : Option A) (status : ℕ) (message : Bytes)
      → Confined u (some_or {F = F} o status message)
  some_or-Confined none status message = record { apply = λ w w' alike. (refl, alike) }
  some_or-Confined (some a) status message = record { apply = λ w w' alike. (refl, alike) }

  pub or_error-Confined :
      {A : Type 0} (describe : SqlError → HttpError) (r : Result SqlError A)
      → Confined u (or_error {F = F} describe r)
  or_error-Confined describe (ok a) = record { apply = λ w w' alike. (refl, alike) }
  or_error-Confined describe (err e) = record { apply = λ w w' alike. (refl, alike) }

  pub http_error_if-Confined :
      (b : Bool) (status : ℕ) (message : Bytes)
      → Confined u (http_error_if {F = F} b status message)
  http_error_if-Confined true status message = record { apply = λ w w' alike. (refl, alike) }
  http_error_if-Confined false status message = record { apply = λ w w' alike. (refl, alike) }

  pub reply_or_error-Confined :
      {A : Type 0} (reply : Reply A) → Confined u (reply_or_error {F = F} reply)
  reply_or_error-Confined (Reply.ok a) = record { apply = λ w w' alike. (refl, alike) }
  reply_or_error-Confined (Reply.err e) = record { apply = λ w w' alike. (refl, alike) }

  pub accounts-Confined : Confined u (query {F = F} (accounts_of u))
  accounts-Confined = query-Confined u (accounts_of u) (λ db db' same. same.accounts)

  pub account-Confined : (id : ℤ) → Confined u (query_row {F = F} (account_by id u))
  account-Confined id = query_row-Confined u (account_by id u) (λ db db' same. same.found id)

  pub deltas-Confined : (start : ℕ) → Confined u (query {F = F} (deltas_of u start))
  unfolding deltas_of
  deltas-Confined start = query-Confined u (deltas_of u start) (λ db db' same. rw same.rows refl)

  pub alerts-Confined : (start : ℕ) → Confined u (query {F = F} (alerts_of u start))
  unfolding alerts_of
  alerts-Confined start = query-Confined u (alerts_of u start) (λ db db' same. rw same.rows refl)

  outflow-Confined : (start end : ℕ) → Confined u (query {F = F} (outflow_by_category u start end))
  unfolding outflow_by_category
  outflow-Confined start end =
      query-Confined u (outflow_by_category u start end) (λ db db' same. rw same.rows refl)

  sums-Confined :
      (start end : ℕ) → Confined u (query_row {F = F} (λ db. cashflow_sums u start end db ∷ []))
  unfolding cashflow_sums
  sums-Confined start end =
      query_row-Confined u (λ db. cashflow_sums u start end db ∷ [])
        (λ db db' same. rw same.rows refl)

  pub account_owned_by-Confined : (id : ℤ) → Confined u (account_owned_by {F = F} id u)
  unfolding account_owned_by
  account_owned_by-Confined id = record {
    apply = λ w w' alike.
        let (same, after) = (account-Confined id).apply w w' alike in (ap type_of same, after);
  }

  pub ruleset confined = (
    bind-Confined, attempt-Confined, pure-Confined, some_or-Confined, or_error-Confined,
    http_error_if-Confined, reply_or_error-Confined, accounts-Confined, account-Confined,
    deltas-Confined, alerts-Confined,
  )

module _ {F : Type 0} ⦃fl : Float64 F⦄ (u : Bytes) where
  pub category_outflow-Confined :
      (start end : ℕ) → Confined u (category_outflow {F = F} u start end)
  unfolding category_outflow
  category_outflow-Confined start end = search (confined, outflow-Confined)

  pub cashflow-Confined : (start end : ℕ) → Confined u (cashflow {F = F} u start end)
  unfolding cashflow
  cashflow-Confined start end = search (confined, sums-Confined)

-- Behind currentUser a handler works for the caller.
pub current_user-then :
    {F B : Type 0} (r : Request F) (f : Bytes → Handler F B)
    → Confined (caller r) (f (caller r))
    → Confined (caller r) (current_user r >>= f)
unfolding current_user
current_user-then r f c =
    bind_knowing-Confined (caller r) (current_user r) f
      (record { apply = λ w w' alike. (refl, alike) })
      (λ w w' user known alike.
        let same = caller-subject_of r user known in
        rw same (c.apply (current_user r w).1 (current_user r w').1 alike))
