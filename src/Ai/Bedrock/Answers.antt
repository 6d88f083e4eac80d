-- ===== src/Ai/Bedrock/Answers.antt =====
-- What Bedrock's answers are, whatever the model replies.
use maroon_ledger.Base.{
  ℕ, zero, suc, ◌≤◌, ◌≡◌, true, false, Option, List, [], ◌∷◌, arith, length, take,
}
use maroon_ledger.Base.Int.{pos}
use maroon_ledger.Go.Bytes.{Bytes, bytes_eq}
use maroon_ledger.Go.Float.{Float64}
use maroon_ledger.Ai.Category.{is_category}
use maroon_ledger.Ai.Category.Allowlist.{valid_category_closed}
use maroon_ledger.Ai.Severity.{is_severity, severity_none, valid_severity-IsSeverity}
use maroon_ledger.Ai.Prompts.{categorize_prompt, anomaly_prompt, insights_prompt}
use maroon_ledger.Ai.Types.{
  Reply, unavailable, TransactionInput, HistoricalStat, SpendingSummary, Categorization,
  AnomalyAssessment, truncate,
}
use maroon_ledger.Ai.Bedrock.{
  Bedrock, Task, RawCategorization, RawAssessment, then_reply, categorize_task, anomaly_task,
  insights_task, complete, clamp01, categorize, detect_anomaly, generate_insights,
}

-- A reply whose value is as described, or an error that says the provider is unavailable.
abbrev pub Safe : {A : Type 0} → (A → Type 0) → Reply A → Type 0
Safe P (Reply.ok a) = P a
Safe P (Reply.err e) = e ≡ unavailable

-- `0` and `1` compare as they should.
abbrev pub UnitInterval : {F : Type 0} → Float64 F → Type 0
UnitInterval fl =
    (fl.lt (fl.decimal (pos 0) 0) (fl.decimal (pos 0) 0) ≡ false)
    × (fl.lt (fl.decimal (pos 1) 0) (fl.decimal (pos 1) 0) ≡ false)
    × (fl.lt (fl.decimal (pos 1) 0) (fl.decimal (pos 0) 0) ≡ false)
    × (fl.lt (fl.decimal (pos 0) 0) (fl.decimal (pos 1) 0) ≡ true)

length-take_le {ℓ} : {A : Type ℓ} (n : ℕ) (xs : List A) → length (take n xs) ≤ n
length-take_le zero xs = omega arith
length-take_le (suc n) [] = omega arith
length-take_le (suc n) (x ∷ xs) = omega (arith, length-take_le n xs)

truncate-le : (s : Bytes) (n : ℕ) → length (truncate s n) ≤ n
unfolding truncate
truncate-le s n = ground (arith, length-take_le n s)

then_reply-Safe :
    {A B : Type 0} (P : B → Type 0) (f : A → B)
    → ((a : A) → P (f a))
    → (r : Reply A) → Safe (λ a. Unit) r
    → Safe P (then_reply r f)
then_reply-Safe P f holds (Reply.ok a) h = holds a
then_reply-Safe P f holds (Reply.err e) h = h

module _ {F : Type 0} ⦃fl : Float64 F⦄ (b : Bedrock F) where
  complete-Safe :
      {A : Type 0} (decode : Bytes → Option A) (task : Task) (n : ℕ) (user : Bytes)
      → Safe (λ a. Unit) (complete b decode task n user)
  unfolding complete
  complete-Safe decode task n user = ground arith

  -- A category of the allowlist, a confidence between 0 and 1, and a short rationale.
  abbrev pub IsCategorization : Categorization F → Type 0
  IsCategorization c =
      (is_category c.category ≡ true)
      × (fl.lt c.confidence (fl.decimal (pos 0) 0) ≡ false)
      × (fl.lt (fl.decimal (pos 1) 0) c.confidence ≡ false)
      × (length c.rationale ≤ 200)

  clamp01_lem :
      UnitInterval fl
      → (f : F)
      → (fl.lt (clamp01 f) (fl.decimal (pos 0) 0) ≡ false)
        × (fl.lt (fl.decimal (pos 1) 0) (clamp01 f) ≡ false)
  unfolding clamp01
  clamp01_lem h f = ground arith

  -- Whatever the model replies, Bedrock's Categorize gives a category of the allowlist, a confidence
  -- that is neither below 0 nor above 1 and a rationale of 200 bytes at most, or fails as unavailable,
  -- provided that the floats 0 and 1 are ordered as they should be.
  pub categorize-Safe :
      UnitInterval fl → (input : TransactionInput F) → Safe IsCategorization (categorize b input)
  unfolding categorize
  categorize-Safe ordered input =
      then_reply-Safe IsCategorization _
        (λ (raw : RawCategorization F).
          let (low, high) = clamp01_lem ordered raw.confidence in
          ((valid_category_closed raw.category).0, low, high, truncate-le raw.rationale 200))
        (complete b b.unmarshal.categorization categorize_task 2048 (categorize_prompt input))
        (complete-Safe b.unmarshal.categorization categorize_task 2048 (categorize_prompt input))

  -- One of the four severities, `none` if nothing is flagged for certain, and a short reason.
  abbrev pub IsAssessment : AnomalyAssessment → Type 0
  IsAssessment a =
      (is_severity a.severity ≡ true)
      × (a.anomalous ≡ true → bytes_eq a.severity severity_none ≡ false)
      × (length a.reason ≤ 300)

  -- Whatever the model replies, Bedrock's DetectAnomaly gives one of the four severities, never flags
  -- a transaction with severity `none`, and gives a reason of 300 bytes at most, or fails as
  -- unavailable.
  pub detect_anomaly-Safe :
      (input : TransactionInput F) (baseline : List (HistoricalStat F))
      → Safe IsAssessment (detect_anomaly b input baseline)
  unfolding detect_anomaly
  detect_anomaly-Safe input baseline =
      then_reply-Safe IsAssessment _
        (λ (raw : RawAssessment). (
          valid_severity-IsSeverity raw.severity,
          λ flagged. ground arith,
          truncate-le raw.reason 300,
        ))
        (complete b b.unmarshal.assessment anomaly_task 2048 (anomaly_prompt input baseline))
        (complete-Safe b.unmarshal.assessment anomaly_task 2048 (anomaly_prompt input baseline))

  generate_insights-Safe :
      (summary : SpendingSummary F) → Safe (λ i. Unit) (generate_insights b summary)
  unfolding generate_insights
  generate_insights-Safe summary =
      complete-Safe b.unmarshal.insights insights_task 8192 (insights_prompt summary)
