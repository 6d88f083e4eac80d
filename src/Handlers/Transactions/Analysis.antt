-- ===== src/Handlers/Transactions/Analysis.antt =====
-- What the transactions of TransactionHandler.Create say of the analysis, by the provider's replies.
use maroon_ledger.Base.{
  ℕ, ◌*◌, ◌/◌, ◌≡◌, refl, ap, ◌∙◌, Bool, true, false, ◌||◌, Option, none, some, List, [], ◌∷◌,
  arith, if◌then◌else◌, is_some,
}
use maroon_ledger.Base.Int.{ℤ, pos_part}
use maroon_ledger.Go.Bytes.{Bytes, is_empty}
use maroon_ledger.Go.Float.{Float64}
use maroon_ledger.Ai.Category.{other}
use maroon_ledger.Ai.Types.{
  Provider, Reply, TransactionInput, HistoricalStat, Categorization, AnomalyAssessment,
}
use maroon_ledger.Models.{Transaction}
use maroon_ledger.Handlers.World.{Result, ok, err, SqlError}
use maroon_ledger.Handlers.Enrich.{Enrichment, enrichment_of, resolved_category, assessed}
use maroon_ledger.Handlers.Transactions.{ValidInput, scan_transaction, new_row, resolve_category}

-- The category, and whether the model chose it: what the caller gave stays; otherwise it is the
-- model's, and `other` without one.
abbrev pub category_by : {F : Type 0} → Bytes → Reply (Categorization F) → Bytes × Bool
category_by given (Reply.err e) = if is_empty given then (other, false) else (given, false)
category_by given (Reply.ok c) =
    if is_empty given
    then (if is_empty c.category then (other, false) else (c.category, true))
    else (given, false)

-- The category that the model is told for its second answer.
abbrev pub told : {F : Type 0} → Bytes → Reply (Categorization F) → Bytes
told given (Reply.err e) = given
told given (Reply.ok c) = if is_empty given then c.category else given

-- The severity and the reason of a transaction, if the history could be read and the model replied.
abbrev pub verdict_by : Option (Reply AnomalyAssessment) → Option Bytes × Option Bytes
verdict_by none = (none, none)
verdict_by (some (Reply.err e)) = (none, none)
verdict_by (some (Reply.ok a)) = (some a.severity, some a.reason)

module _ {F : Type 0} where
  -- The reply to DetectAnomaly; none is asked for if the history could not be read.
  abbrev pub anomaly_reply :
      Provider F
      → TransactionInput F
      → Result SqlError (List (HistoricalStat F))
      → Option (Reply AnomalyAssessment)
  anomaly_reply ai input (err e) = none
  anomaly_reply ai input (ok history) = some (ai.detect_anomaly input history)

  abbrev pub asked_of : Bytes → ValidInput F → TransactionInput F
  asked_of type v = record {
    description = v.description;
    amount = v.amount;
    account_type = type;
    category = v.category;
  }

-- The transaction is the one asked for on the account, its time in whole microseconds.
pub record IsFaithful {F : Type 0} ⦃fl : Float64 F⦄ (id : ℤ) (v : ValidInput F) (now : ℕ)
    (t : Transaction F) : Type 0 where
  pub placed : t.account_id ≡ pos_part id
  pub described : t.description ≡ v.description
  pub dated : t.date ≡ v.date / 1000 * 1000
  pub made : t.created_at ≡ now / 1000 * 1000
  pub cents : ℤ
  pub accepted : fl.store_numeric v.amount ≡ some cents
  pub amount : t.amount ≡ fl.scan_numeric cents

-- The transaction carries the provider's replies, and the provider's name exactly if it has one of
-- them.
pub record IsAnalysed {F : Type 0} (ai : Provider F) (type : Bytes) (v : ValidInput F)
    (history : Result SqlError (List (HistoricalStat F))) (t : Transaction F) : Type 0 where
  pub category :
      (t.category, t.auto_categorized) ≡ category_by v.category (ai.categorize (asked_of type v))
  pub verdict :
      (t.anomaly_severity, t.anomaly_reason)
      ≡ verdict_by (
          anomaly_reply ai
            (record (asked_of type v) {
              category = told v.category (ai.categorize (asked_of type v));
            })
            history)
  pub named :
      t.ai_provider
      ≡ (if t.auto_categorized || is_some t.anomaly_severity then some ai.name else none)

-- What enrich found, by the input and the history.
abbrev pub found_by :
    {F : Type 0}
    → Provider F
    → TransactionInput F
    → Result SqlError (List (HistoricalStat F))
    → Enrichment
found_by ai input history = enrichment_of ai.name (resolved_category ai input) (
    assessed ai
      (record input {
        category = (if is_empty input.category then resolved_category ai input else input.category);
      })
      history)

module _ {F : Type 0} (ai : Provider F) (type : Bytes) (v : ValidInput F) where
  abbrev asked : TransactionInput F
  asked = asked_of type v

  told-resolved :
      (if is_empty v.category then resolved_category ai asked else v.category)
      ≡ told v.category (ai.categorize asked)
  unfolding resolved_category is_empty
  told-resolved = cases v.category (ai.categorize asked)
    where
      cases :
          (given : Bytes) (reply : Reply (Categorization F))
          → (if is_empty given
              then (if is_empty given
                  then elim reply [ Reply.ok c ↦ c.category | Reply.err e ↦ [] ]
                  else [])
              else given)
            ≡ told given reply
      cases [] (Reply.ok c) = refl
      cases [] (Reply.err e) = refl
      cases (b ∷ s) (Reply.ok c) = refl
      cases (b ∷ s) (Reply.err e) = refl

  found_category :
      (name category : Bytes) (a : Option AnomalyAssessment)
      → (enrichment_of name category a).category ≡ category
  unfolding enrichment_of
  found_category name category none = refl
  found_category name category (some a) = refl

  -- What is stored of a category and an assessment that were found.
  resolved-category_by :
      resolve_category v.category (resolved_category ai asked)
      ≡ category_by v.category (ai.categorize asked)
  unfolding resolve_category resolved_category is_empty
  resolved-category_by = cases v.category (ai.categorize asked)
    where
      cases :
          (given : Bytes) (reply : Reply (Categorization F))
          → (let chosen =
                if is_empty given
                then elim reply [ Reply.ok c ↦ c.category | Reply.err e ↦ [] ]
                else [] in
              if is_empty given
              then (if is_empty chosen then (other, false) else (chosen, true))
              else (given, false))
            ≡ category_by given reply
      cases [] (Reply.ok c) = refl
      cases [] (Reply.err e) = refl
      cases (b ∷ s) (Reply.ok c) = refl
      cases (b ∷ s) (Reply.err e) = refl

  stored_verdict :
      (history : Result SqlError (List (HistoricalStat F))) (input : TransactionInput F)
      (name category : Bytes)
      → let e = enrichment_of name category (assessed ai input history) in
        (e.severity, e.reason) ≡ verdict_by (anomaly_reply ai input history)
  unfolding enrichment_of assessed
  stored_verdict (err e) input name category = refl
  stored_verdict (ok history) input name category = cases (ai.detect_anomaly input history)
    where
      cases :
          (reply : Reply AnomalyAssessment)
          → let e =
              enrichment_of name category
                (elim reply [ Reply.ok a ↦ some a | Reply.err e ↦ none ]) in
            (e.severity, e.reason) ≡ verdict_by (some reply)
      cases (Reply.ok a) = refl
      cases (Reply.err e) = refl

  stored_name :
      (name given category : Bytes) (a : Option AnomalyAssessment)
      → is_empty given || is_empty category ≡ true
      → let e = enrichment_of name category a in
        e.provider
        ≡ (if (resolve_category given e.category).1 || is_some e.severity then some name else none)
  unfolding resolve_category enrichment_of is_empty
  stored_name name given category none h = ground arith
  stored_name name given category (some a) h = ground arith

  one_category : (is_empty v.category || is_empty (resolved_category ai asked)) ≡ true
  unfolding resolved_category is_empty
  one_category = ground arith

module _ {F : Type 0} ⦃fl : Float64 F⦄ (ai : Provider F) (type : Bytes) (v : ValidInput F)
    (history : Result SqlError (List (HistoricalStat F))) where
  abbrev pub found : Enrichment
  found = found_by ai (asked_of type v) history

  found-resolved :
      resolve_category v.category found.category
      ≡ category_by v.category (ai.categorize (asked_of type v))
  found-resolved =
      ap (resolve_category v.category) (
        found_category ai type v ai.name (resolved_category ai (asked_of type v))
          (assessed ai _ history))
      ∙ resolved-category_by ai type v

  pub stored-IsAnalysed :
      (id cents : ℤ) (now number : ℕ)
      → IsAnalysed ai type v history (
          scan_transaction
            (record (new_row id cents
              (resolve_category v.category found.category)
              v.description
              v.date
              found
              now) { id = number }))
  unfolding scan_transaction new_row
  stored-IsAnalysed id cents now number = record {
    category = found-resolved;
    verdict =
        stored_verdict ai type v history _ ai.name (resolved_category ai (asked_of type v))
        ∙ ap
            (λ known.
              verdict_by (anomaly_reply ai (record (asked_of type v) { category = known }) history))
            (told-resolved ai type v);
    named =
        stored_name ai type v ai.name v.category (resolved_category ai (asked_of type v)) _
          (one_category ai type v);
  }

  pub stored-IsFaithful :
      (id cents : ℤ) (category : Bytes × Bool) (e : Enrichment) (now number : ℕ)
      → fl.store_numeric v.amount ≡ some cents
      → IsFaithful id v now (
          scan_transaction
            (record (new_row id cents category v.description v.date e now) { id = number }))
  unfolding scan_transaction new_row
  stored-IsFaithful id cents category e now number accepted = record {
    placed = refl;
    described = refl;
    dated = refl;
    made = refl;
    cents = cents;
    accepted = accepted;
    amount = refl;
  }
