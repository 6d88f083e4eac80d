-- ===== src/Ai/Prompts.antt =====
-- What app/internal/ai/bedrock.go writes to the model about a transaction, a history and a period.
use maroon_ledger.Base.{List, [], ◌∷◌, ◌++◌, if◌then◌else◌}
use maroon_ledger.Go.Bytes.{Bytes, bytes, is_empty, concat}
use maroon_ledger.Go.Float.{Float64}
use maroon_ledger.Go.Strconv.{itoa_nat}
use maroon_ledger.Go.Time.{format_date}
use maroon_ledger.Ai.Types.{
  TransactionInput, HistoricalStat, SpendingSummary, CategorySpend, truncate, max_description_len,
}

abbrev described : Bytes → Bytes
described description = concat (
    bytes "\n<transaction_description>\n"
    ∷ truncate description max_description_len
    ∷ bytes "\n</transaction_description>"
    ∷ [])

module _ {F : Type 0} ⦃fl : Float64 F⦄ where
  unfoldable pub categorize_prompt : TransactionInput F → Bytes
  categorize_prompt input = concat (
      bytes "Account type: "
      ∷ input.account_type
      ∷ bytes "\nAmount: "
      ∷ fl.format 2 input.amount
      ∷ bytes "\n"
      ∷ described input.description
      ∷ [])

  abbrev stat_lines : List (HistoricalStat F) → Bytes
  stat_lines [] = []
  stat_lines (s ∷ rest) =
      concat (
        bytes "- "
        ∷ s.category
        ∷ bytes ": "
        ∷ itoa_nat s.count
        ∷ bytes " txns, total "
        ∷ fl.format 2 s.total_amount
        ∷ bytes ", mean "
        ∷ fl.format 2 s.mean_amount
        ∷ bytes ", max "
        ∷ fl.format 2 s.max_amount
        ∷ bytes "\n"
        ∷ [])
      ++ stat_lines rest

  abbrev baseline_text : List (HistoricalStat F) → Bytes
  baseline_text [] = bytes "No transaction history exists for this account yet.\n"
  baseline_text (s ∷ rest) =
      bytes "Historical activity by category (count, total, mean, max):\n" ++ stat_lines (s ∷ rest)

  unfoldable pub anomaly_prompt : TransactionInput F → List (HistoricalStat F) → Bytes
  anomaly_prompt input baseline = concat (
      bytes "Account type: "
      ∷ input.account_type
      ∷ bytes "\nTransaction amount: "
      ∷ fl.format 2 input.amount
      ∷ bytes "\n"
      ∷ (if is_empty input.category
          then []
          else concat (bytes "Category: " ∷ input.category ∷ bytes "\n" ∷ []))
      ∷ bytes "\n"
      ∷ baseline_text baseline
      ∷ described input.description
      ∷ [])

  abbrev spend_lines : List (CategorySpend F) → Bytes
  spend_lines [] = []
  spend_lines (c ∷ rest) =
      concat (
        bytes "- "
        ∷ c.category
        ∷ bytes ": "
        ∷ fl.format 2 c.total
        ∷ bytes " across "
        ∷ itoa_nat c.count
        ∷ bytes " transactions\n"
        ∷ [])
      ++ spend_lines rest

  abbrev spending_text : List (CategorySpend F) → Bytes
  spending_text [] = bytes "(no spending recorded in this period)\n"
  spending_text (c ∷ rest) = spend_lines (c ∷ rest)

  unfoldable pub insights_prompt : SpendingSummary F → Bytes
  insights_prompt s = concat (
      bytes "Period: "
      ∷ format_date s.period_start
      ∷ bytes " to "
      ∷ format_date s.period_end
      ∷ bytes "\nCurrency: "
      ∷ s.currency
      ∷ bytes "\nTotal inflow: "
      ∷ fl.format 2 s.total_inflow
      ∷ bytes "\nTotal outflow: "
      ∷ fl.format 2 s.total_outflow
      ∷ bytes "\n\nSpending by category:\n"
      ∷ spending_text s.by_category
      ∷ [])
