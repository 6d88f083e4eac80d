-- ===== src/Ai/Stub/Anomaly.antt =====
-- The stub's assessment of a transaction: when it is an anomaly, and against which history.
use maroon_ledger.Base.{
  ℕ, ◌≤◌, ◌<◌, ◌≡◌, refl, true, false, not, List, [], ◌∷◌, ◌++◌, arith, if◌then◌else◌,
}
use maroon_ledger.Base.Int.{pos}
use maroon_ledger.Go.Bytes.{Bytes, bytes, bytes_eq, bytes_eq_iff, is_empty}
use maroon_ledger.Go.Float.{Float64}
use maroon_ledger.Ai.Severity.{
  severity_none, severity_low, severity_medium, severity_high, is_severity, severities_distinct,
}
use maroon_ledger.Ai.Types.{TransactionInput, HistoricalStat, AnomalyAssessment, Reply}
use maroon_ledger.Ai.Stub.{
  Scale, no_scale, own_scale, choose_scale, assess_inflow, assess_outflow, assess, detect_anomaly,
}

-- The reply is an assessment with one of the four severities, flagged exactly if that is not `none`.
abbrev pub Consistent : Reply AnomalyAssessment → Type 0
Consistent (Reply.ok a) =
    (is_severity a.severity ≡ true) × (a.anomalous ≡ not (bytes_eq a.severity severity_none))
Consistent (Reply.err e) = ⊥

-- The rank of a severity, from `none` to `high`.
abbrev pub rank_of : Bytes → ℕ
rank_of s =
    if bytes_eq s severity_high
    then 3
    else if bytes_eq s severity_medium
    then 2
    else if bytes_eq s severity_low
    then 1
    else 0

abbrev pub rank : Reply AnomalyAssessment → ℕ
rank (Reply.ok a) = rank_of a.severity
rank (Reply.err e) = 0

ranks :
    (rank_of severity_none ≡ 0)
    × (rank_of severity_low ≡ 1)
    × (rank_of severity_medium ≡ 2)
    × (rank_of severity_high ≡ 3)
unfolding bytes_eq bytes
ranks = (refl, refl, refl, refl)

severity-facts :
    (is_severity severity_none ≡ true)
    × (is_severity severity_low ≡ true)
    × (is_severity severity_medium ≡ true)
    × (is_severity severity_high ≡ true)
    × (bytes_eq severity_none severity_none ≡ true)
unfolding is_severity bytes_eq bytes
severity-facts = (refl, refl, refl, refl, refl)

-- `<` on floats is transitive, also in the presence of NaN.
abbrev pub LtTransitive : {F : Type 0} → Float64 F → Type 0
LtTransitive {F} fl = (a b c : F) → fl.lt a b ≡ true → fl.lt b c ≡ true → fl.lt a c ≡ true

module _ {F : Type 0} ⦃fl : Float64 F⦄ where
  -- No entry of the baseline is of this category.
  abbrev pub NoHistory : Bytes → List (HistoricalStat F) → Type 0
  NoHistory category [] = Unit
  NoHistory category (stat ∷ stats) =
      (bytes_eq stat.category category ≡ false) × NoHistory category stats

  assess-Consistent :
      (signed : F) (s : Scale F) (scope : Bytes) → Consistent (assess signed s scope)
  unfolding assess assess_inflow assess_outflow
  assess-Consistent signed s scope = ground (arith, severity-facts, severities_distinct)

  -- The stub's DetectAnomaly always succeeds, with one of the four severities, and flags the
  -- transaction exactly if the severity is not `none`.
  pub detect_anomaly-Consistent :
      (input : TransactionInput F) (baseline : List (HistoricalStat F))
      → Consistent (detect_anomaly input baseline)
  unfolding detect_anomaly
  detect_anomaly-Consistent input [] = ground (arith, severity-facts)
  detect_anomaly-Consistent input (stat ∷ stats) =
      let chosen = choose_scale input.category (stat ∷ stats) in
      assess-Consistent input.amount chosen.0 chosen.1

  own_scale-skip :
      (c : Bytes) (before : List (HistoricalStat F)) (stat : HistoricalStat F)
      (behind : List (HistoricalStat F))
      → NoHistory c before
      → stat.category ≡ c
      → own_scale c (before ++ stat ∷ behind) ≡ own_scale c (stat ∷ [])
  unfolding own_scale
  own_scale-skip c [] stat behind h e = ground (arith, bytes_eq_iff stat.category c)
  own_scale-skip c (s ∷ before) stat behind h e =
      ground (arith, own_scale-skip c before stat behind h.1 e)

  choose_scale-own :
      (c : Bytes) (stats : List (HistoricalStat F)) (s : Scale F)
      → is_empty c ≡ false
      → own_scale c stats ≡ s
      → 0 < s.count
      → choose_scale c stats ≡ (s, c)
  unfolding choose_scale
  choose_scale-own c stats s named e used = ground arith

  detect_anomaly-append :
      (input : TransactionInput F) (before : List (HistoricalStat F)) (stat : HistoricalStat F)
      (behind : List (HistoricalStat F))
      → let chosen = choose_scale input.category (before ++ stat ∷ behind) in
        detect_anomaly input (before ++ stat ∷ behind) ≡ assess input.amount chosen.0 chosen.1
  unfolding detect_anomaly
  detect_anomaly-append input [] stat behind = refl
  detect_anomaly-append input (s ∷ before) stat behind = refl

  -- Like is compared with like: if the transaction's category has a history, the assessment is what
  -- it would be on that history alone, whatever the other categories hold.
  pub detect_anomaly_like_with_like :
      (input : TransactionInput F) (before : List (HistoricalStat F)) (stat : HistoricalStat F)
      (behind : List (HistoricalStat F))
      → is_empty input.category ≡ false
      → NoHistory input.category before
      → stat.category ≡ input.category
      → 0 < stat.count
      → detect_anomaly input (before ++ stat ∷ behind) ≡ detect_anomaly input (stat ∷ [])
  unfolding own_scale
  detect_anomaly_like_with_like input before stat behind named h e used =
      let c = input.category in
      let own = own_scale c (stat ∷ []) in
      let counted : 0 < own.count = ground (arith, bytes_eq_iff stat.category c) in
      rw (
        detect_anomaly-append input before stat behind,
        detect_anomaly-append input [] stat [],
        choose_scale-own c (before ++ stat ∷ behind) own named
            (own_scale-skip c before stat behind h e) counted,
        choose_scale-own c (stat ∷ []) own named refl counted,
      )

  own_scale-none :
      (c : Bytes) (stats : List (HistoricalStat F))
      → NoHistory c stats
      → own_scale c stats ≡ no_scale
  unfolding own_scale
  own_scale-none c [] h = refl
  own_scale-none c (s ∷ stats) h = ground (arith, own_scale-none c stats h.1)

  -- Without a history in its own category a transaction is assessed, and the reason worded, as one
  -- of no known category: against the whole account.
  pub detect_anomaly_fallback :
      (input : TransactionInput F) (baseline : List (HistoricalStat F))
      → NoHistory input.category baseline
      → detect_anomaly input baseline ≡ detect_anomaly (record input { category = [] }) baseline
  unfolding detect_anomaly choose_scale is_empty
  detect_anomaly_fallback input [] h = refl
  detect_anomaly_fallback input (stat ∷ stats) h =
      ground (arith, own_scale-none input.category (stat ∷ stats) h)

  assess-inflow_rank :
      (signed : F) (s : Scale F) (scope : Bytes)
      → fl.lt (fl.decimal (pos 0) 0) signed ≡ true
      → rank (assess signed s scope) ≤ 1
  unfolding assess assess_inflow
  assess-inflow_rank signed s scope h = ground (arith, ranks)

  -- Money that arrives is never flagged above `low`.
  pub detect_anomaly_inflow :
      (input : TransactionInput F) (baseline : List (HistoricalStat F))
      → fl.lt (fl.decimal (pos 0) 0) input.amount ≡ true
      → rank (detect_anomaly input baseline) ≤ 1
  unfolding detect_anomaly
  detect_anomaly_inflow input [] h = omega (arith, ranks)
  detect_anomaly_inflow input (stat ∷ stats) h =
      let chosen = choose_scale input.category (stat ∷ stats) in
      assess-inflow_rank input.amount chosen.0 chosen.1 h

  assess_outflow-monotone :
      (trans : LtTransitive fl) (a b mean max : F) (scope : Bytes)
      → fl.lt a b ≡ true
      → rank (assess_outflow a mean max scope) ≤ rank (assess_outflow b mean max scope)
  unfolding assess_outflow
  assess_outflow-monotone trans a b mean max scope h =
      let over = λ (k : ℕ) (x : F). trans (fl.mul x (fl.decimal (pos k) 0)) a b in
      ground (arith, ranks, over 2 max, over 4 mean, over 3 mean, over 2 mean)

  assess-monotone :
      (trans : LtTransitive fl) (a b : F) (s : Scale F) (scope : Bytes)
      → fl.lt (fl.decimal (pos 0) 0) a ≡ false
      → fl.lt (fl.decimal (pos 0) 0) b ≡ false
      → fl.lt (fl.abs a) (fl.abs b) ≡ true
      → rank (assess a s scope) ≤ rank (assess b s scope)
  unfolding assess
  assess-monotone trans a b s scope out_a out_b h = ground (
    arith,
    assess_outflow-monotone trans (fl.abs a) (fl.abs b)
        (fl.div s.total (fl.decimal (pos s.count) 0)) s.max scope h,
  )

  -- Of two amounts that leave an account, assessed in one category against one history, the larger
  -- is never judged less severe, if `<` on floats is transitive.
  pub detect_anomaly-monotone :
      (trans : LtTransitive fl) (input : TransactionInput F) (b : F)
      (baseline : List (HistoricalStat F))
      → fl.lt (fl.decimal (pos 0) 0) input.amount ≡ false
      → fl.lt (fl.decimal (pos 0) 0) b ≡ false
      → fl.lt (fl.abs input.amount) (fl.abs b) ≡ true
      → rank (detect_anomaly input baseline)
        ≤ rank (detect_anomaly (record input { amount = b }) baseline)
  unfolding detect_anomaly
  detect_anomaly-monotone trans input b [] out_a out_b h = omega arith
  detect_anomaly-monotone trans input b (stat ∷ stats) out_a out_b h =
      let chosen = choose_scale input.category (stat ∷ stats) in
      assess-monotone trans input.amount b chosen.0 chosen.1 out_a out_b h
