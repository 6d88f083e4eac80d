-- ===== src/Ai/Stub/Insights.antt =====
-- Stub.GenerateInsights of app/internal/ai/stub.go.
use maroon_ledger.Base.{suc, ◌-◌, ◌&&◌, ◌||◌, List, [], ◌∷◌, ◌++◌, leb, if◌then◌else◌, length}
use maroon_ledger.Base.Int.{pos}
use maroon_ledger.Go.Bytes.{Bytes, bytes, concat}
use maroon_ledger.Go.Float.{Float64}
use maroon_ledger.Go.Strconv.{itoa_nat}
use maroon_ledger.Go.Time.{format_spoken}
use maroon_ledger.Ai.Types.{Reply, SpendingSummary, CategorySpend, Insights}
use maroon_ledger.Ai.Stub.Usd.{usd}

-- capitalize, for a first letter in ASCII
unfoldable pub capitalize : Bytes → Bytes
capitalize [] = []
capitalize (c ∷ s) = (if leb b'a' c && leb c b'z' then c - 32 else c) ∷ s

abbrev pub empty_insights : Insights
empty_insights = record {
  summary = bytes "No spending was recorded in this period, so there is nothing to analyze yet.";
  observations = bytes "No transactions fall within the selected period." ∷ [];
  recommendations =
      bytes "Add transactions to your accounts to start building a spending picture." ∷ [];
}

module _ {F : Type 0} ⦃fl : Float64 F⦄ where
  abbrev zero_float : F
  zero_float = fl.decimal (pos 0) 0

  -- The sum of the loop, from a start on.
  unfoldable pub total_spend : F → List (CategorySpend F) → F
  total_spend sum [] = sum
  total_spend sum (c ∷ rest) = total_spend (fl.add sum c.total) rest

  unfoldable pub insert_ranked : CategorySpend F → List (CategorySpend F) → List (CategorySpend F)
  insert_ranked c [] = c ∷ []
  insert_ranked c (d ∷ rest) =
      let behind = insert_ranked c rest in
      if fl.lt c.total d.total then d ∷ behind else c ∷ d ∷ rest

  -- sort.Slice by descending total; equal totals keep their order here.
  unfoldable pub rank_by_total : List (CategorySpend F) → List (CategorySpend F)
  rank_by_total [] = []
  rank_by_total (c ∷ rest) = insert_ranked c (rank_by_total rest)

  unfoldable pub no_outflow : SpendingSummary F → Insights
  no_outflow s = record {
    summary = concat (
        bytes "You recorded "
        ∷ usd s.total_inflow
        ∷ bytes " of income and no outgoing spending between "
        ∷ format_spoken s.period_start
        ∷ bytes " and "
        ∷ format_spoken s.period_end
        ∷ bytes "."
        ∷ []);
    observations = bytes "No outgoing transactions fall within this period." ∷ [];
    recommendations = bytes "Add spending transactions to see where your money goes." ∷ [];
  }

  abbrev follower : List (CategorySpend F) → List Bytes
  follower [] = []
  follower (second ∷ rest) =
      concat (
        capitalize second.category
        ∷ bytes " follows at "
        ∷ usd second.total
        ∷ bytes " across "
        ∷ itoa_nat second.count
        ∷ bytes " transactions."
        ∷ [])
      ∷ []

  -- The text for a ranking with `top` in front.
  unfoldable pub describe :
      SpendingSummary F → F → CategorySpend F → List (CategorySpend F) → Insights
  describe s spend top others =
      let share = fl.mul (fl.div top.total spend) (fl.decimal (pos 100) 0) in
      let net = fl.sub s.total_inflow s.total_outflow in
      let direction =
        if fl.lt zero_float net || fl.eq net zero_float
        then bytes "less than you took in"
        else bytes "more than you took in" in
      let categories = itoa_nat (suc (length others)) in
      record {
        summary = concat (
            bytes "Between "
            ∷ format_spoken s.period_start
            ∷ bytes " and "
            ∷ format_spoken s.period_end
            ∷ bytes " you recorded "
            ∷ usd s.total_outflow
            ∷ bytes " of outflow against "
            ∷ usd s.total_inflow
            ∷ bytes " of inflow. Spending concentrated in "
            ∷ top.category
            ∷ bytes ", which accounted for "
            ∷ fl.format 0 share
            ∷ bytes "% of outgoings across "
            ∷ categories
            ∷ bytes " categories."
            ∷ []);
        observations =
            concat (
              capitalize top.category
              ∷ bytes " is your largest spending category at "
              ∷ usd top.total
              ∷ bytes ", which is "
              ∷ fl.format 0 share
              ∷ bytes "% of outgoings."
              ∷ [])
            ∷ concat (
                bytes "You spent "
                ∷ usd spend
                ∷ bytes " across "
                ∷ categories
                ∷ bytes " spending categories, "
                ∷ direction
                ∷ bytes " ("
                ∷ usd net
                ∷ bytes " net)."
                ∷ [])
            ∷ follower others;
        recommendations =
            concat (
              bytes "Set a monthly ceiling for "
              ∷ top.category
              ∷ bytes " -- it is where a small percentage cut frees the most cash."
              ∷ [])
            ∷ ((if fl.lt (fl.decimal (pos 40) 0) share
                  then concat (
                      fl.format 0 share
                      ∷ bytes
                          "% of spending in one category is concentrated; check whether any of it is recurring and cancellable."
                      ∷ [])
                    ∷ []
                  else [])
                ++ (if fl.lt net zero_float
                    then bytes
                        "Outflow exceeded inflow this period -- review the largest categories before the pattern repeats."
                      ∷ []
                    else []));
      }

  abbrev describe_ranked : SpendingSummary F → F → List (CategorySpend F) → Insights
  describe_ranked s spend [] = no_outflow s
  describe_ranked s spend (top ∷ others) = describe s spend top others

  abbrev describe_spend : SpendingSummary F → List (CategorySpend F) → Insights
  describe_spend s [] = empty_insights
  describe_spend s (c ∷ rest) =
      let spend = total_spend zero_float (c ∷ rest) in
      if fl.eq spend zero_float
      then no_outflow s
      else describe_ranked s spend (rank_by_total (c ∷ rest))

  -- Stub.GenerateInsights
  unfoldable pub generate_insights : SpendingSummary F → Reply Insights
  generate_insights s = Reply.ok (describe_spend s s.by_category)
