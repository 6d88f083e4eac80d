-- ===== src/Handlers/Transactions/Analysed.antt =====
-- What a transaction that Create has answered says: what the request asked for, and of the analysis
-- what the provider replied.
use maroon_ledger.Base.{
  ℕ, ◌≡◌, sym, ap, ◌∙◌, inl, inr, Bool, true, false, Option, some, arith, if◌then◌else◌,
  Option-cases,
}
use maroon_ledger.Base.Int.{ℤ}
use maroon_ledger.Go.Bytes.{Bytes, bytes, Unicode}
use maroon_ledger.Go.Float.{Float64}
use maroon_ledger.Ai.Types.{Provider}
use maroon_ledger.Models.{Transaction}
use maroon_ledger.Database.{TransactionRow, Db}
use maroon_ledger.Database.Insert.{insert_transaction}
use maroon_ledger.Handlers.World.{
  World, Result, ok, err, SqlError, insert_row, pure, emit, ◌>>=◌, ◌>>◌,
}
use maroon_ledger.Handlers.World.Rules.{Inserted, insert_row-Inserted, bind-step}
use maroon_ledger.Handlers.Accounts.{or_error}
use maroon_ledger.Handlers.Http.{Request, HttpError, decode_json}
use maroon_ledger.Handlers.Http.Decode.{decode_json-steady}
use maroon_ledger.Handlers.Enrich.{Enrichment, enrich, baseline_for}
use maroon_ledger.Handlers.Transactions.{
  TransactionBody, ValidInput, scan_transaction, event_of, owned_account, new_row, insert_new,
  validate, commit, store, create_on, create, resolve_category, assign_transaction,
  zero_transaction,
}
use maroon_ledger.Handlers.Transactions.Write.{validate-steady}
use maroon_ledger.Handlers.Transactions.Analysis.{
  IsFaithful, IsAnalysed, asked_of, found_by, stored-IsAnalysed, stored-IsFaithful,
}

-- The row that an INSERT gives back is the one sent, with its number.
insert_transaction-row :
    (t : TransactionRow) (db db' : Db) (row : TransactionRow)
    → insert_transaction t db ≡ (some row, db')
    → row ≡ record t { id = db.next_transaction }
unfolding insert_transaction
insert_transaction-row t db db' row h = ground arith

module _ {F : Type 0} ⦃fl : Float64 F⦄ where
  insert_new-row :
      (id : ℤ) (amount : F) (category : Bytes × Bool) (description : Bytes) (date : ℕ)
      (e : Enrichment) (now : ℕ) (db db' : Db) (row : TransactionRow)
      → insert_new id amount category description date e now db ≡ (some row, db')
      → (cents : ℤ) × (fl.store_numeric amount ≡ some cents)
        × (row ≡ record (new_row id cents category description date e now) {
          id = db.next_transaction;
        })
  unfolding insert_new
  insert_new-row id amount category description date e now db db' row h =
      elim (Option-cases (fl.store_numeric amount)) [
        | inl refused ↦ absurd (ground arith)
        | inr (cents, stored) ↦ (
          cents,
          stored,
          insert_transaction-row (new_row id cents category description date e now) db db' row
              (ground arith),
        )
      ]

  commit-row :
      (emitting : Bool) (insert : Db → Option TransactionRow × Db) (w w' : World F)
      (answer : ℕ × Transaction F)
      → commit emitting insert w ≡ (ok answer, w')
      → (row : TransactionRow) × (db' : Db) × (insert w.db ≡ (some row, db'))
        × (answer.1 ≡ scan_transaction row)
  unfolding commit emit
  commit-row emitting insert w w' answer h =
      cases emitting (insert_row insert w).0 (insert_row insert w).1
        (insert_row-Inserted insert w).0 h
    where
      cases :
          (sends : Bool) (r : Result SqlError TransactionRow) (v : World F)
          → Inserted (insert w.db) w.db (r, v.db)
          → (or_error
                  (λ e. record { status = 500; message = bytes "Failed to create transaction" })
                  r
                >>= λ row.
                    (if sends then emit (event_of (scan_transaction row)) else pure tt)
                    >> pure (201, scan_transaction row))
              v
            ≡ (ok answer, w')
          → (row : TransactionRow) × (db' : Db) × (insert w.db ≡ (some row, db'))
            × (answer.1 ≡ scan_transaction row)
      cases sends (err e) v done k = absurd (cc (k))
      cases true (ok row) v done k = (row, v.db, done, cc)
      cases false (ok row) v done k = (row, v.db, done, cc)

-- The stored transaction is the one asked for, and carries the replies.
pub record IsAnswer {F : Type 0} ⦃fl : Float64 F⦄ (ai : Provider F) (account : ℤ × Bytes)
    (v : ValidInput F) (now : ℕ) (w : World F) (t : Transaction F) : Type 0 where
  pub faithful : IsFaithful account.0 v now t
  pub analysed : IsAnalysed ai account.1 v (baseline_for {F = F} account.0 w).0 t

module _ {F : Type 0} ⦃fl : Float64 F⦄ (ai : Provider F) where
  store-IsAnswer :
      (emitting : Bool) (account : ℤ × Bytes) (v : ValidInput F) (now : ℕ) (w w' : World F)
      (answer : ℕ × Transaction F)
      → store (some ai) emitting account v now w ≡ (ok answer, w')
      → IsAnswer ai account v now w answer.1
  unfolding store enrich
  store-IsAnswer emitting account v now w w' answer h =
      let history = (baseline_for {F = F} account.0 w).0 in
      let found = found_by ai (asked_of account.1 v) history in
      let category = resolve_category v.category found.category in
      let behind = (baseline_for {F = F} account.0 w).1 in
      let (row, db', inserted, shown) =
        commit-row emitting (insert_new account.0 v.amount category v.description v.date found now)
          behind w' answer h in
      let (cents, accepted, same) =
        insert_new-row account.0 v.amount category v.description v.date found now behind.db db' row
          inserted in
      rw (shown, same)
        (record {
          faithful =
              stored-IsFaithful ai account.1 v history account.0 cents category found now _
                accepted;
          analysed = stored-IsAnalysed ai account.1 v history account.0 cents now _;
        })

-- What a Create that answered has worked with: the account that was reached, the body that was
-- decoded and validated, and the transaction that came of them.
pub record IsAnswered {F : Type 0} ⦃fl : Float64 F⦄ (u : Unicode) (ai : Provider F) (r : Request F)
    (w : World F) (t : Transaction F) : Type 0 where
  pub account : ℤ × Bytes
  pub reached : (owned_account r w).0 ≡ ok account
  pub body : TransactionBody F
  pub decoded : (decode_json assign_transaction zero_transaction r.body w).0 ≡ ok body
  pub valid : ValidInput F
  pub validated : (validate u body r.now w).0 ≡ ok valid
  pub answer : IsAnswer ai account valid r.now (owned_account {F = F} r w).1 t

module _ {F : Type 0} ⦃fl : Float64 F⦄ where
  -- Neither step looks at the world.
  decoded_anywhere :
      (r : Request F) (w w' : World F)
      → (decode_json {F = F} assign_transaction zero_transaction r.body w).0
        ≡ (decode_json {F = F} assign_transaction zero_transaction r.body w').0
  unfolding decode_json
  decoded_anywhere r w w' = ground arith

  validated_anywhere :
      (u : Unicode) (body : TransactionBody F) (now : ℕ) (w w' : World F)
      → (validate u body now w).0 ≡ (validate u body now w').0
  unfolding validate
  validated_anywhere u body now w w' = ground arith

  create_on-IsAnswered :
      (u : Unicode) (ai : Provider F) (emitting : Bool) (r : Request F) (w w' : World F)
      (account : ℤ × Bytes) (answer : ℕ × Transaction F)
      → (owned_account r w).0 ≡ ok account
      → create_on u (some ai) emitting r account (owned_account {F = F} r w).1 ≡ (ok answer, w')
      → IsAnswered u ai r w answer.1
  unfolding create_on
  create_on-IsAnswered u ai emitting r w w' account answer reached =
      let v = (owned_account {F = F} r w).1 in
      let decode = decode_json {F = F} assign_transaction zero_transaction r.body in
      let keep = store (some ai) emitting account in
      let Post = λ (done : Result HttpError (ℕ × Transaction F) × World F).
        done ≡ (ok answer, w') → IsAnswered u ai r w answer.1 in
      bind-step Post decode (λ body. validate u body r.now >>= λ valid. keep valid r.now) v
        (λ body d.
          bind-step Post (validate u body r.now) (λ valid. keep valid r.now) (decode v).1
            (λ valid c e.
              let same : (validate u body r.now (decode v).1).1 ≡ v =
                validate-steady u body r.now (decode v).1
                ∙ decode_json-steady assign_transaction zero_transaction r.body v in
              record {
                account = account;
                reached = reached;
                body = body;
                decoded = decoded_anywhere r w v ∙ d;
                valid = valid;
                validated = validated_anywhere u body r.now w (decode v).1 ∙ c;
                answer =
                    store-IsAnswer ai emitting account valid r.now v w' answer
                      (ap (keep valid r.now) (sym same) ∙ e);
              })
            (λ e c k. absurd (cc (k))))
        (λ e d k. absurd (cc (k)))

  -- If Create answers, the transaction in the answer is the one that the decoded and validated body
  -- asks for, on the account reached, its amount as the column stores it and its times in whole
  -- microseconds. A category that the caller gave stays; otherwise it is the one that the provider
  -- chose, and `other` if the provider failed or chose none. Severity and reason are the provider's,
  -- asked with the category given or chosen, if any, and with the account's history; they are missing
  -- if the history could not be read or the provider failed. The provider is named exactly if it
  -- chose the category or gave a severity.
  pub create-IsAnswered :
      (u : Unicode) (ai : Provider F) (emitting : Bool) (r : Request F) (w w' : World F)
      (answer : ℕ × Transaction F)
      → create u (some ai) emitting r w ≡ (ok answer, w')
      → IsAnswered u ai r w answer.1
  unfolding create
  create-IsAnswered u ai emitting r w w' answer =
      bind-step
        (λ (done : Result HttpError (ℕ × Transaction F) × World F).
          done ≡ (ok answer, w') → IsAnswered u ai r w answer.1)
        (owned_account r) (create_on u (some ai) emitting r) w
        (λ account h. create_on-IsAnswered u ai emitting r w w' account answer h)
        (λ e h k. absurd (cc (k)))
