-- ===== src/Handlers/Transactions/Stored.antt =====
-- The end of TransactionHandler.Create: enrichment, the INSERT, and the event of the stored row.
use mathlib.Core.Path.{subst}
use maroon_ledger.Base.{
  ℕ, ◌≡◌, refl, ◌∙◌, ◌⊎◌, inl, inr, Bool, true, false, Option, none, some, [], ◌∷◌, ◌++◌, arith,
  if◌then◌else◌, Option-cases,
}
use maroon_ledger.Base.Int.{ℤ, pos_part}
use maroon_ledger.Go.Bytes.{Bytes, bytes}
use maroon_ledger.Go.Float.{Float64}
use maroon_ledger.Models.{Transaction}
use maroon_ledger.Ai.Types.{Provider, TransactionInput}
use maroon_ledger.Database.{TransactionRow, Db}
use maroon_ledger.Database.Insert.{insert_transaction, transaction_row_ok}
use maroon_ledger.Handlers.World.{
  World, Result, ok, err, SqlError, query, insert_row, pure, emit, ◌>>=◌, ◌>>◌,
}
use maroon_ledger.Handlers.World.Rules.{
  Same, SameTables, not_run, refused, stored, Inserted, insert_row-Inserted, bind-step,
}
use maroon_ledger.Handlers.Accounts.{or_error}
use maroon_ledger.Handlers.Http.{HttpError, Handler}
use maroon_ledger.Handlers.Enrich.{Enrichment, not_enriched, enrich, baseline_for}
use maroon_ledger.Handlers.Transactions.{
  ValidInput, scan_transaction, event_of, new_row, insert_new, commit, store, resolve_category,
}

-- `row` is `db'`'s one new transaction beside those of `db`: it belongs to account `id`, and the
-- constraints of the table hold of it. The accounts are the same.
pub record IsAppended (id : ℤ) (row : TransactionRow) (db db' : Db) : Type 0 where
  pub appended : db'.transactions ≡ db.transactions ++ row ∷ []
  pub kept : db'.accounts ≡ db.accounts
  pub kept_next : db'.next_account ≡ db.next_account
  pub accepted : transaction_row_ok db row ≡ true
  pub placed : row.account_id ≡ pos_part id

insert_transaction-IsAppended :
    (t : TransactionRow) (id : ℤ) (db db' : Db) (row : TransactionRow)
    → t.account_id ≡ pos_part id
    → insert_transaction t db ≡ (some row, db')
    → IsAppended id row db db'
unfolding insert_transaction
insert_transaction-IsAppended t id db db' row placed h = ground arith

insert_transaction-refused :
    (t : TransactionRow) (db db' : Db) → insert_transaction t db ≡ (none, db') → SameTables db db'
unfolding insert_transaction
insert_transaction-refused t db db' h = ground arith

module _ {F : Type 0} ⦃fl : Float64 F⦄ where
  insert_new-IsAppended :
      (id : ℤ) (amount : F) (category : Bytes × Bool) (description : Bytes) (date : ℕ)
      (enriched : Enrichment) (now : ℕ) (db : Db) (row : TransactionRow) (db' : Db)
      → insert_new id amount category description date enriched now db ≡ (some row, db')
      → IsAppended id row db db'
  unfolding insert_new new_row
  insert_new-IsAppended id amount category description date enriched now db row db' h =
      elim (Option-cases (fl.store_numeric amount)) [
        | inl refused_amount ↦ ground arith
        | inr (cents, e) ↦
            insert_transaction-IsAppended (new_row id cents category description date enriched now)
              id db db' row refl (ground arith)
      ]

  insert_new-refused :
      (id : ℤ) (amount : F) (category : Bytes × Bool) (description : Bytes) (date : ℕ)
      (enriched : Enrichment) (now : ℕ) (db db' : Db)
      → insert_new id amount category description date enriched now db ≡ (none, db')
      → SameTables db db'
  unfolding insert_new
  insert_new-refused id amount category description date enriched now db db' h =
      elim (Option-cases (fl.store_numeric amount)) [
        | inl refused_amount ↦ ground arith
        | inr (cents, e) ↦
            insert_transaction-refused (new_row id cents category description date enriched now) db
              db' (ground arith)
      ]

  -- Enrichment never fails, whatever the provider and the database do, and changes neither the
  -- tables nor the events.
  pub enrich_total :
      (ai : Option (Provider F)) (id : ℤ) (input : TransactionInput F) (w : World F)
      → let (r, w') = enrich {E = HttpError} ai id input w in
        Same w w' × ((enriched : Enrichment) × (r ≡ ok enriched))
  unfolding enrich baseline_for query
  enrich_total none id input w = ((refl, refl), (not_enriched, refl))
  enrich_total (some ai) id input w = (ground arith, (_, refl))

-- After a write that answered: one row more, on the account; the response shows it, and the event of
-- exactly this row was handed over, if there is an emitter.
pub record IsCreated {F : Type 0} ⦃fl : Float64 F⦄ (emitting : Bool) (id : ℤ) (before : World F)
    (answer : ℕ × Transaction F) (w : World F) : Type 0 where
  pub row : TransactionRow
  pub status : answer.0 ≡ 201
  pub appended : IsAppended id row before.db w.db
  pub shown : answer.1 ≡ scan_transaction row
  pub published : w.emitted ≡ (
      if emitting then before.emitted ++ event_of (scan_transaction row) ∷ [] else before.emitted)

-- After a write that failed: no event, and at most one row more, which is then on the account.
pub record IsFailed {F : Type 0} (id : ℤ) (before w : World F) : Type 0 where
  pub silent : w.emitted ≡ before.emitted
  pub tables :
      SameTables before.db w.db ⊎ ((row : TransactionRow) × IsAppended id row before.db w.db)

module _ {F : Type 0} ⦃fl : Float64 F⦄ (id : ℤ) (before : World F) where
  -- An INSERT of one row on the account, or of none.
  abbrev IsInsert : (Db → Option TransactionRow × Db) → Type 0
  IsInsert insert =
      ((row : TransactionRow) (db' : Db)
        → insert before.db ≡ (some row, db')
        → IsAppended id row before.db db')
      × ((db' : Db) → insert before.db ≡ (none, db') → SameTables before.db db')

  abbrev finish : Bool → Result SqlError TransactionRow → Handler F (ℕ × Transaction F)
  finish emitting r = do
    row ← or_error (λ e. record { status = 500; message = bytes "Failed to create transaction" }) r
    if emitting then emit (event_of (scan_transaction row)) else pure tt
    pure (201, scan_transaction row)

  abbrev pub IsWritten : Bool → Result HttpError (ℕ × Transaction F) × World F → Type 0
  IsWritten emitting (ok answer, w) = IsCreated emitting id before answer w
  IsWritten emitting (err e, w) = IsFailed id before w

  finish-IsWritten :
      (emitting : Bool) (insert : Db → Option TransactionRow × Db)
      → IsInsert insert
      → (r : Result SqlError TransactionRow) (w : World F)
      → Inserted (insert before.db) before.db (r, w.db)
      → w.emitted ≡ before.emitted
      → IsWritten emitting (finish emitting r w)
  unfolding emit
  finish-IsWritten true insert spec (ok row) w done silent = record {
    row = row;
    status = refl;
    appended = spec.0 row w.db done;
    shown = refl;
    published = rw silent;
  }
  finish-IsWritten false insert spec (ok row) w done silent = record {
    row = row;
    status = refl;
    appended = spec.0 row w.db done;
    shown = refl;
    published = silent;
  }
  finish-IsWritten emitting insert spec (err e) w (not_run same) silent = record {
    silent = silent;
    tables = inl (rw same (refl, refl, omega arith));
  }
  finish-IsWritten emitting insert spec (err e) w (refused done) silent = record {
    silent = silent;
    tables = inl (spec.1 w.db done);
  }
  finish-IsWritten emitting insert spec (err e) w (stored row done) silent = record {
    silent = silent;
    tables = inr (row, spec.0 row w.db done);
  }

  commit-IsWritten :
      (emitting : Bool) (insert : Db → Option TransactionRow × Db) (w : World F)
      → IsInsert insert
      → Same before w
      → IsWritten emitting (commit emitting insert w)
  unfolding commit
  commit-IsWritten emitting insert w spec same =
      let (r, w') = insert_row insert w in
      let (done, silent) = insert_row-Inserted insert w in
      finish-IsWritten emitting insert spec r w'
        (subst (λ (db : Db). Inserted (insert db) db (r, w'.db)) same.0 done) (silent ∙ same.1)

  pub store-IsWritten :
      (ai : Option (Provider F)) (emitting : Bool) (type : Bytes) (v : ValidInput F) (now : ℕ)
      (w : World F)
      → Same before w
      → IsWritten emitting (store ai emitting (id, type) v now w)
  unfolding store
  store-IsWritten ai emitting type v now w same =
      let input : TransactionInput F = record {
        description = v.description;
        amount = v.amount;
        account_type = type;
        category = v.category;
      } in
      let insert = λ (e : Enrichment).
        insert_new id v.amount (resolve_category v.category e.category) v.description v.date e
          now in
      let (read, (enriched, answered)) = enrich_total ai id input w in
      bind-step (IsWritten emitting) (enrich ai id input) (λ e. commit emitting (insert e)) w
        (λ e h.
          commit-IsWritten emitting (insert e) (enrich {E = HttpError} ai id input w).1
            (
              insert_new-IsAppended id v.amount (resolve_category v.category e.category)
                  v.description v.date e now before.db,
              insert_new-refused id v.amount (resolve_category v.category e.category) v.description
                  v.date e now before.db,
            )
            (read.0 ∙ same.0, read.1 ∙ same.1))
        (λ e h. cc (h, answered))
