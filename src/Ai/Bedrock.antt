-- ===== src/Ai/Bedrock.antt =====
-- app/internal/ai/bedrock.go: the provider that asks a model. The SDK's message service and the
-- decoding of its JSON are parameters; a deadline that passes is an error of the service.
pub mod Answers
pub mod Schemas
pub mod Conforming
use maroon_ledger.Base.{
  ℕ, zero, suc, ◌+◌, ◌-◌, ◌*◌, ◌/◌, ◌%◌, ◌^◌, ◌≤◌, ◌<◌, String, ◌≡◌, refl, sym, ap, ◌∙◌, ◌≢◌, ◌↔◌,
  ◌⊎◌, inl, inr, Bool, true, false, not, ◌&&◌, ◌||◌, Option, none, some, List, [], ◌∷◌, ◌++◌, map,
  append-nil, append_assoc, arith, ltb, leb, ◌==◌, if◌then◌else◌, Bool-cases, Option-cases, is_some,
  length, length-append, All, All-append,
}
use maroon_ledger.Base.Int.{pos}
use maroon_ledger.Go.Bytes.{Bytes, bytes, bytes_eq, is_empty, concat}
use maroon_ledger.Go.Float.{Float64}
use maroon_ledger.Go.Strconv.{itoa_nat}
use maroon_ledger.Go.Time.{format_date}
use maroon_ledger.Ai.Category.{valid_category}
use maroon_ledger.Ai.Severity.{valid_severity, severity_none}
use maroon_ledger.Ai.Prompts.{categorize_prompt, anomaly_prompt, insights_prompt}
use maroon_ledger.Ai.Types.{
  Provider, Reply, unavailable, TransactionInput, HistoricalStat, SpendingSummary, CategorySpend,
  Categorization, AnomalyAssessment, Insights, truncate, max_description_len,
}

-- What a request asks for; it fixes the system prompt, the schema and the effort.
pub data Task : Type 0 where
  categorize_task anomaly_task insights_task : Task

pub record MessageParams : Type 0 where
  pub model : Bytes
  pub task : Task
  pub user : Bytes
  pub max_tokens : ℕ

pub data ContentBlock : Type 0 where
  text_block : Bytes → ContentBlock
  other_block : ContentBlock

pub record Response : Type 0 where
  pub refused : Bool
  pub content : List ContentBlock

-- MessageService.New: `none` is an error.
abbrev pub MessageService : Type 0
MessageService = MessageParams → Option Response

-- The structs that the three answers are decoded into.
pub record RawCategorization (F : Type 0) : Type 0 where
  pub category : Bytes
  pub confidence : F
  pub rationale : Bytes

pub record RawAssessment : Type 0 where
  pub anomalous : Bool
  pub severity : Bytes
  pub reason : Bytes

-- json.Unmarshal into each of them.
pub record Unmarshal (F : Type 0) : Type 0 where
  pub categorization : Bytes → Option (RawCategorization F)
  pub assessment : Bytes → Option RawAssessment
  pub insights : Bytes → Option Insights

pub record Bedrock (F : Type 0) : Type 0 where
  pub messages : MessageService
  pub model : Bytes
  pub unmarshal : Unmarshal F

abbrev pub default_model : Bytes
default_model = bytes "anthropic.claude-opus-5"

abbrev connect : {F : Type 0} → Unmarshal F → Bytes → Option MessageService → Option (Bedrock F)
connect unmarshal model none = none
connect unmarshal model (some service) =
    some (record { messages = service; model = model; unmarshal = unmarshal })

-- NewBedrock: which of the two clients is used, each of which may not be built.
unfoldable pub new_bedrock :
    {F : Type 0}
    → Option MessageService
    → Option MessageService
    → Unmarshal F
    → Bytes
    → Bytes
    → Bytes
    → Option (Bedrock F)
new_bedrock mantle runtime unmarshal region model api =
    let chosen = if is_empty model then default_model else model in
    let with_client = connect unmarshal chosen in
    if is_empty region
    then none
    else if is_empty api || bytes_eq api (bytes "mantle")
    then with_client mantle
    else if bytes_eq api (bytes "runtime")
    then with_client runtime
    else none

-- The text blocks, one behind the other.
unfoldable pub response_text : List ContentBlock → Bytes
response_text [] = []
response_text (text_block s ∷ rest) = s ++ response_text rest
response_text (other_block ∷ rest) = response_text rest

abbrev decoded : {A : Type 0} → (Bytes → Option A) → Bytes → Reply A
decoded decode text = elim (decode text) [ none ↦ Reply.err unavailable | some a ↦ Reply.ok a ]

-- complete
unfoldable pub complete :
    {F A : Type 0} → Bedrock F → (Bytes → Option A) → Task → ℕ → Bytes → Reply A
complete b decode task max_tokens user =
    elim (b.messages
      (record { model = b.model; task = task; user = user; max_tokens = max_tokens })) [
        | none ↦ Reply.err unavailable
        | some resp ↦
            if resp.refused || is_empty (response_text resp.content)
            then Reply.err unavailable
            else decoded decode (response_text resp.content)
      ]

abbrev pub then_reply : {A B : Type 0} → Reply A → (A → B) → Reply B
then_reply (Reply.ok a) f = Reply.ok (f a)
then_reply (Reply.err e) f = Reply.err e

module _ {F : Type 0} ⦃fl : Float64 F⦄ where
  -- clamp01
  unfoldable pub clamp01 : F → F
  clamp01 f =
      if fl.lt f (fl.decimal (pos 0) 0)
      then fl.decimal (pos 0) 0
      else if fl.lt (fl.decimal (pos 1) 0) f
      then fl.decimal (pos 1) 0
      else f

  -- Bedrock.Categorize
  unfoldable pub categorize : Bedrock F → TransactionInput F → Reply (Categorization F)
  categorize b input =
      then_reply
        (complete b (b.unmarshal.categorization) categorize_task 2048 (categorize_prompt input))
        (λ raw. record {
          category = valid_category raw.category;
          confidence = clamp01 raw.confidence;
          rationale = truncate raw.rationale 200;
        })

  -- Bedrock.DetectAnomaly
  unfoldable pub detect_anomaly :
      Bedrock F → TransactionInput F → List (HistoricalStat F) → Reply AnomalyAssessment
  detect_anomaly b input baseline =
      then_reply
        (complete b (b.unmarshal.assessment) anomaly_task 2048 (anomaly_prompt input baseline))
        (λ raw.
          let severity = valid_severity raw.severity in
          record {
            anomalous = raw.anomalous && not (bytes_eq severity severity_none);
            severity = severity;
            reason = truncate raw.reason 300;
          })

  -- Bedrock.GenerateInsights
  unfoldable pub generate_insights : Bedrock F → SpendingSummary F → Reply Insights
  generate_insights b summary =
      complete b (b.unmarshal.insights) insights_task 8192 (insights_prompt summary)

  abbrev pub bedrock_provider : Bedrock F → Provider F
  bedrock_provider b = record {
    name = bytes "bedrock";
    categorize = categorize b;
    detect_anomaly = detect_anomaly b;
    generate_insights = generate_insights b;
  }
