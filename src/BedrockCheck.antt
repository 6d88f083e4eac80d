-- ===== src/BedrockCheck.antt =====
-- app/cmd/bedrockcheck/main.go: two calls of the Bedrock provider, for a look at what it answers.
use maroon_ledger.Base.{Option, none, some, [], ◌∷◌, if◌then◌else◌}
use maroon_ledger.Base.Int.{pos, negsuc}
use maroon_ledger.Go.Bytes.{bytes, is_empty}
use maroon_ledger.Go.Float.{Float64}
use maroon_ledger.Go.Os.{Environment}
use maroon_ledger.Ai.Types.{
  Reply, ProviderError, TransactionInput, HistoricalStat, Categorization, AnomalyAssessment,
}
use maroon_ledger.Ai.Bedrock.{Bedrock, new_bedrock, categorize, detect_anomaly}
use maroon_ledger.Server.Setup.{BedrockClients}

-- How it ends: what it has printed, less the durations.
pub data Report (F : Type 0) : Type 0 where
  no_client : Report F
  categorize_failed : ProviderError → Report F
  anomaly_failed : Categorization F → ProviderError → Report F
  all_well : Categorization F → AnomalyAssessment → Report F

module _ {F : Type 0} ⦃fl : Float64 F⦄ where
  -- The two transactions, and the history of the second.
  abbrev pub weekly_shop : TransactionInput F
  weekly_shop = record {
    description = bytes "TESCO SUPERSTORE 4471 weekly shop";
    amount = fl.decimal (negsuc 8419) 2;
    account_type = bytes "checking";
    category = [];
  }

  abbrev pub wire_transfer : TransactionInput F
  wire_transfer = record {
    description = bytes "Wire transfer overseas";
    amount = fl.decimal (negsuc 6399) 0;
    account_type = bytes "checking";
    category = bytes "transfer";
  }

  abbrev pub transfers : HistoricalStat F
  transfers = record {
    category = bytes "transfer";
    count = 3;
    total_amount = fl.decimal (pos 1800) 0;
    mean_amount = fl.decimal (pos 600) 0;
    max_amount = fl.decimal (pos 600) 0;
  }

  abbrev check_anomaly : Categorization F → Reply AnomalyAssessment → Report F
  check_anomaly c (Reply.ok a) = all_well c a
  check_anomaly c (Reply.err e) = anomaly_failed c e

  abbrev check_category : Bedrock F → Reply (Categorization F) → Report F
  check_category b (Reply.ok c) = check_anomaly c (detect_anomaly b wire_transfer (transfers ∷ []))
  check_category b (Reply.err e) = categorize_failed e

  abbrev check_client : Option (Bedrock F) → Report F
  check_client none = no_client
  check_client (some b) = check_category b (categorize b weekly_shop)

  -- main
  unfoldable pub bedrock_check : BedrockClients F → Environment → Report F
  bedrock_check clients env =
      let set = env (bytes "AWS_REGION") in
      let region = if is_empty set then bytes "us-east-2" else set in
      check_client (
        new_bedrock (clients.mantle region) (clients.runtime region) clients.unmarshal region
          (env (bytes "BEDROCK_MODEL")) (env (bytes "BEDROCK_API")))
