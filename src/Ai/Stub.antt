-- ===== src/Ai/Stub.antt =====
-- app/internal/ai/stub.go: the deterministic provider, its classification by keywords and its
-- assessment of a transaction by arithmetic.
pub mod Anomaly
pub mod Usd
pub mod Insights
pub mod Keywords
use maroon_ledger.Base.{
  ℕ, zero, suc, ◌+◌, ◌-◌, ◌*◌, ◌/◌, ◌%◌, ◌^◌, ◌≤◌, ◌<◌, String, ◌≡◌, refl, sym, ap, ◌∙◌, ◌≢◌, ◌↔◌,
  ◌⊎◌, inl, inr, Bool, true, false, not, ◌&&◌, ◌||◌, Option, none, some, List, [], ◌∷◌, ◌++◌, map,
  arith, ltb, leb, ◌==◌, if◌then◌else◌, Bool-cases, Option-cases, is_some, length,
}
use maroon_ledger.Base.Int.{pos}
use maroon_ledger.Go.Bytes.{
  Bytes, bytes, bytes_eq, contains, to_lower, trim_space, concat, Unicode, is_empty,
}
use maroon_ledger.Go.Float.{Float64}
use maroon_ledger.Ai.Category.{other, income}
use maroon_ledger.Ai.Severity.{severity_none, severity_low, severity_medium, severity_high}
use maroon_ledger.Ai.Types.{
  TransactionInput, HistoricalStat, Categorization, AnomalyAssessment, Reply, truncate,
  max_description_len,
}

-- The entries of categoryKeywords, in order: a category and its keywords.
unfoldable pub category_keywords : List (Bytes × List Bytes)
category_keywords =
    (
      bytes "groceries",
      map bytes (
          "grocer" ∷ "supermarket" ∷ "aldi" ∷ "lidl" ∷ "tesco" ∷ "sainsbury" ∷ "whole foods"
          ∷ "trader joe" ∷ "market" ∷ []),
    )
    ∷ (
      bytes "dining",
      map bytes (
          "restaurant" ∷ "cafe" ∷ "coffee" ∷ "starbucks" ∷ "pizza" ∷ "burger" ∷ "deliveroo"
          ∷ "uber eats" ∷ "doordash" ∷ "bar " ∷ "pub" ∷ []),
    )
    ∷ (
      bytes "transport",
      map bytes (
          "uber" ∷ "lyft" ∷ "taxi" ∷ "fuel" ∷ "petrol" ∷ "gas station" ∷ "shell" ∷ "bp " ∷ "rail"
          ∷ "train" ∷ "transit" ∷ "parking" ∷ "airline" ∷ "flight" ∷ []),
    )
    ∷ (bytes "housing", map bytes ("rent" ∷ "mortgage" ∷ "landlord" ∷ "letting" ∷ "property" ∷ []))
    ∷ (
      bytes "utilities",
      map bytes (
          "electric" ∷ "water" ∷ "gas bill" ∷ "internet" ∷ "broadband" ∷ "phone" ∷ "mobile"
          ∷ "utility" ∷ "council tax" ∷ []),
    )
    ∷ (
      bytes "healthcare",
      map bytes
          ("pharmacy" ∷ "doctor" ∷ "dental" ∷ "clinic" ∷ "hospital" ∷ "health" ∷ "optician" ∷ []),
    )
    ∷ (
      bytes "entertainment",
      map bytes (
          "netflix" ∷ "spotify" ∷ "cinema" ∷ "theater" ∷ "theatre" ∷ "concert" ∷ "game" ∷ "steam"
          ∷ "disney" ∷ "hulu" ∷ "gym" ∷ []),
    )
    ∷ (
      bytes "shopping",
      map bytes (
          "amazon" ∷ "ebay" ∷ "store" ∷ "shop" ∷ "clothing" ∷ "zara" ∷ "h&m" ∷ "nike"
          ∷ "apple store" ∷ []),
    )
    ∷ (
      bytes "income",
      map bytes (
          "salary" ∷ "payroll" ∷ "wages" ∷ "deposit" ∷ "refund" ∷ "dividend" ∷ "interest paid"
          ∷ []),
    )
    ∷ (
      bytes "transfer",
      map bytes ("transfer" ∷ "zelle" ∷ "venmo" ∷ "paypal" ∷ "wire" ∷ "internal" ∷ []),
    )
    ∷ (
      bytes "fees",
      map bytes ("fee" ∷ "charge" ∷ "overdraft" ∷ "interest charged" ∷ "penalty" ∷ "atm" ∷ []),
    )
    ∷ []

-- The inner loop: the first keyword of an entry that the description contains.
unfoldable pub find_keyword : Bytes → List Bytes → Option Bytes
find_keyword desc [] = none
find_keyword desc (kw ∷ kws) = if contains desc kw then some kw else find_keyword desc kws

-- The outer loop: the first entry with such a keyword.
unfoldable pub find_entry : Bytes → List (Bytes × List Bytes) → Option (Bytes × Bytes)
unfolding find_keyword
find_entry desc [] = none
find_entry desc ((category, keywords) ∷ es) =
    let rest = find_entry desc es in
    elim (find_keyword desc keywords) [ some kw ↦ some (category, kw) | none ↦ rest ]

-- comparisonLabel
unfoldable pub comparison_label : Bytes → Bytes
comparison_label category = if is_empty category then bytes "this account" else category

-- fmt's %q, for text that needs no escape.
abbrev quoted : Bytes → Bytes
quoted s = b'"' ∷ s ++ b'"' ∷ []

module _ {F : Type 0} ⦃fl : Float64 F⦄ where
  abbrev float : ℕ → F
  float n = fl.decimal (pos n) 0

  -- Stub.Categorize
  unfoldable pub categorize : Unicode → TransactionInput F → Reply (Categorization F)
  categorize u input =
      let desc = to_lower u (truncate input.description max_description_len) in
      elim (find_entry desc category_keywords) [
        | some (category, kw) ↦ Reply.ok (record {
          category = category;
          confidence = fl.decimal (pos 85) 2;
          rationale =
              concat (bytes "Description matched " ∷ quoted (trim_space u kw) ∷ bytes "." ∷ []);
        })
        | none ↦
            if fl.lt (float 0) input.amount
            then Reply.ok (record {
              category = income;
              confidence = fl.decimal (pos 4) 1;
              rationale = bytes "Positive amount with no matching keyword.";
            })
            else Reply.ok (record {
              category = other;
              confidence = fl.decimal (pos 3) 1;
              rationale = bytes "No keyword matched.";
            })
      ]

abbrev assessment : Bool → Bytes → Bytes → Reply AnomalyAssessment
assessment anomalous severity reason =
    Reply.ok (record { anomalous = anomalous; severity = severity; reason = reason })

-- What DetectAnomaly measures an amount against: totalCount, totalAmount, overallMax.
pub record Scale (F : Type 0) : Type 0 where
  pub count : ℕ
  pub total : F
  pub max : F

module _ {F : Type 0} ⦃fl : Float64 F⦄ where
  abbrev pub no_scale : Scale F
  no_scale = record { count = 0; total = fl.decimal (pos 0) 0; max = fl.decimal (pos 0) 0 }

  -- The loop over the baseline that stops at the transaction's own category.
  unfoldable pub own_scale : Bytes → List (HistoricalStat F) → Scale F
  own_scale category [] = no_scale
  own_scale category (stat ∷ stats) =
      if bytes_eq stat.category category
      then record {
        count = stat.count;
        total = fl.abs stat.total_amount;
        max = fl.abs stat.max_amount;
      }
      else own_scale category stats

  -- The loop that adds up the whole account.
  unfoldable pub add_scales : Scale F → List (HistoricalStat F) → Scale F
  add_scales s [] = s
  add_scales s (stat ∷ stats) =
      add_scales
        (record {
          count = s.count + stat.count;
          total = fl.add s.total (fl.abs stat.total_amount);
          max = fl.max s.max (fl.abs stat.max_amount);
        })
        stats

  -- The scale that is used, and the scope that the reason names.
  unfoldable pub choose_scale : Bytes → List (HistoricalStat F) → Scale F × Bytes
  choose_scale category baseline =
      let own = if is_empty category then no_scale else own_scale category baseline in
      if own.count == 0 then (add_scales own baseline, []) else (own, category)

  abbrev times : F → F → Bytes
  times amount mean = fl.format 1 (fl.div amount mean)

  -- Money arriving: the branch `in.Amount > 0`.
  unfoldable pub assess_inflow : F → F → Reply AnomalyAssessment
  assess_inflow amount mean =
      if fl.lt (fl.mul mean (fl.decimal (pos 10) 0)) amount
      then assessment true severity_low (
          concat
            (bytes "Incoming amount is " ∷ times amount mean ∷ bytes "x the account average." ∷ []))
      else assessment false severity_none (bytes "Incoming funds consistent with this account.")

  -- Money leaving: the switch at the end.
  unfoldable pub assess_outflow : F → F → F → Bytes → Reply AnomalyAssessment
  assess_outflow amount mean overall_max scope =
      let usual =
        bytes "Amount is "
        ∷ times amount mean
        ∷ bytes "x the usual for "
        ∷ comparison_label scope
        ∷ [] in
      if fl.lt (fl.mul overall_max (fl.decimal (pos 2) 0)) amount
        && fl.lt (fl.mul mean (fl.decimal (pos 4) 0)) amount
      then assessment true severity_high
          (concat (usual ++ bytes " and more than double the previous largest." ∷ []))
      else if fl.lt (fl.mul mean (fl.decimal (pos 3) 0)) amount
      then assessment true severity_medium (concat (usual ++ bytes "." ∷ []))
      else if fl.lt (fl.mul mean (fl.decimal (pos 2) 0)) amount
      then assessment true severity_low (concat (usual ++ bytes "." ∷ []))
      else assessment false severity_none
          (bytes "Amount is consistent with this account's history.")

  unfoldable pub assess : F → Scale F → Bytes → Reply AnomalyAssessment
  assess signed scale scope =
      let amount = fl.abs signed in
      let mean = fl.div scale.total (fl.decimal (pos scale.count) 0) in
      if scale.count == 0
      then assessment false severity_none (bytes "No history yet to compare against.")
      else if fl.lt (fl.decimal (pos 0) 0) signed
      then assess_inflow amount mean
      else assess_outflow amount mean scale.max scope

  -- Stub.DetectAnomaly
  unfoldable pub detect_anomaly :
      TransactionInput F → List (HistoricalStat F) → Reply AnomalyAssessment
  detect_anomaly input [] =
      assessment false severity_none (bytes "No history yet to compare against.")
  detect_anomaly input (stat ∷ stats) =
      let (scale, scope) = choose_scale input.category (stat ∷ stats) in
      assess input.amount scale scope
