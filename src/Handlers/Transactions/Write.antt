-- ===== src/Handlers/Transactions/Write.antt =====
-- The write path of TransactionHandler.Create: what it stores, what it publishes, and what a
-- request that fails leaves behind.
use maroon_ledger.Base.{ℕ, ◌≡◌, refl, ◌⊎◌, inl, inr, Bool, Option, arith}
use maroon_ledger.Base.Int.{ℤ}
use maroon_ledger.Go.Bytes.{Bytes, Unicode}
use maroon_ledger.Go.Float.{Float64}
use maroon_ledger.Models.{Transaction}
use maroon_ledger.Ai.Types.{Provider}
use maroon_ledger.Handlers.World.{World, Result, ok, err, ◌>>=◌}
use maroon_ledger.Handlers.World.Rules.{Same, bind-step}
use maroon_ledger.Handlers.Http.{caller, Request, HttpError, decode_json}
use maroon_ledger.Handlers.Http.Decode.{decode_json-steady}
use maroon_ledger.Handlers.Transactions.{
  TransactionBody, owned_account, validate, store, create_on, create, assign_transaction,
  zero_transaction,
}
use maroon_ledger.Handlers.Transactions.Access.{IsOwned, owned_account-Triple}
use maroon_ledger.Handlers.Transactions.Stored.{IsCreated, IsFailed, IsWritten, store-IsWritten}

-- What a request has done on an account, given the world that it found.
abbrev pub WrittenOn :
    {F : Type 0} ⦃fl : Float64 F⦄
    → Bool
    → ℤ
    → World F
    → Result HttpError (ℕ × Transaction F) × World F
    → Type 0
WrittenOn emitting id before (ok answer, w) = IsCreated emitting id before answer w
WrittenOn emitting id before (err e, w) = Same before w ⊎ IsFailed id before w

-- What Create has done when it returns, given the world that it found.
abbrev pub CreateSpec :
    {F : Type 0} ⦃fl : Float64 F⦄
    → Bool
    → Request F
    → World F
    → Result HttpError (ℕ × Transaction F) × World F
    → Type 0
CreateSpec emitting r before (ok answer, w) =
    (id : ℤ) × (type : Bytes) × IsOwned (caller r) id type before.db
    × IsCreated emitting id before answer w
CreateSpec emitting r before (err e, w) =
    Same before w
    ⊎ ((id : ℤ) × (type : Bytes) × IsOwned (caller r) id type before.db × IsFailed id before w)

module _ {F : Type 0} ⦃fl : Float64 F⦄ where
  pub validate-steady :
      (u : Unicode) (input : TransactionBody F) (now : ℕ) (w : World F)
      → (validate u input now w).1 ≡ w
  unfolding validate
  validate-steady u input now w = ground arith

  may_fail :
      (emitting : Bool) (id : ℤ) (before : World F)
      (done : Result HttpError (ℕ × Transaction F) × World F)
      → IsWritten id before emitting done
      → WrittenOn emitting id before done
  may_fail emitting id before (ok answer, w) h = h
  may_fail emitting id before (err e, w) h = inr h

  widen :
      (emitting : Bool) (r : Request F) (before : World F) (id : ℤ) (type : Bytes)
      → IsOwned (caller r) id type before.db
      → (done : Result HttpError (ℕ × Transaction F) × World F) → WrittenOn emitting id before done
      → CreateSpec emitting r before done
  widen emitting r before id type owned (ok answer, w) h = (id, type, owned, h)
  widen emitting r before id type owned (err e, w) (inl same) = inl same
  widen emitting r before id type owned (err e, w) (inr h) = inr (id, type, owned, h)

  pub create_on-WrittenOn :
      (u : Unicode) (ai : Option (Provider F)) (emitting : Bool) (r : Request F)
      (before w : World F) (id : ℤ) (type : Bytes)
      → Same before w
      → WrittenOn emitting id before (create_on u ai emitting r (id, type) w)
  unfolding create_on
  create_on-WrittenOn u ai emitting r before w id type same =
      let keep = store ai emitting (id, type) in
      bind-step (WrittenOn emitting id before)
        (decode_json assign_transaction zero_transaction r.body)
        (λ input. validate u input r.now >>= λ v. keep v r.now) w
        (λ input h.
          let w' = (decode_json {F = F} assign_transaction zero_transaction r.body w).1 in
          let same' : Same before w' =
            rw (decode_json-steady assign_transaction zero_transaction r.body w) same in
          bind-step (WrittenOn emitting id before) (validate u input r.now) (λ v. keep v r.now) w'
            (λ v k. may_fail emitting id before (keep v r.now (validate u input r.now w').1) (
              store-IsWritten id before ai emitting type v r.now (validate u input r.now w').1
                (rw (validate-steady u input r.now w') same')))
            (λ e k. inl (rw (validate-steady u input r.now w') same')))
        (λ e h. inl (rw (decode_json-steady assign_transaction zero_transaction r.body w) same))

  -- What a create request does, whatever fails on the way. If it answers, the status is 201, the
  -- caller owns the account, exactly one transaction was added to it and met the table's
  -- constraints, the response shows that row, and the row's event is the one new event (none
  -- without an emitter). If it fails, there is no new event, and the tables are as they were or,
  -- on an account that the caller owns, hold one transaction more.
  pub create-CreateSpec :
      (u : Unicode) (ai : Option (Provider F)) (emitting : Bool) (r : Request F) (before : World F)
      → CreateSpec emitting r before (create u ai emitting r before)
  unfolding create
  create-CreateSpec u ai emitting r before =
      let reached = owned_account-Triple before r before (refl, refl) in
      bind-step (CreateSpec emitting r before) (owned_account r) (create_on u ai emitting r) before
        (λ account h.
          let (same, owned) = rw h at reached in
          let w = (owned_account {F = F} r before).1 in
          widen emitting r before account.0 account.1 owned (create_on u ai emitting r account w)
            (create_on-WrittenOn u ai emitting r before w account.0 account.1 same))
        (λ e h. inl (rw h at reached))
