-- ===== src/Ai/Bedrock/Schemas.antt =====
-- The JSON schemas that app/internal/ai/bedrock.go sends along, which its comments rely on: what an
-- answer of the model may be.
use maroon_ledger.Base.{ℕ, Bool, false, List, [], ◌∷◌, map}
use maroon_ledger.Go.Bytes.{Bytes, bytes}
use maroon_ledger.Ai.Category.{categories}
use maroon_ledger.Ai.Bedrock.{Task, categorize_task, anomaly_task, insights_task}

-- The schema of a property. A number has its bounds, a list is one of strings.
pub data Field : Type 0 where
  string_field strings_field boolean_field : Field
  enum_field : List Bytes → Field
  number_field : ℕ → ℕ → Field

pub record Schema : Type 0 where
  pub properties : List (Bytes × Field)
  pub required : List Bytes
  pub additional_properties : Bool

-- categoryEnum: each category as a string.
unfoldable pub category_enum : List Bytes
category_enum = map (λ c. c) categories

unfoldable pub categorization_schema : Schema
categorization_schema = record {
  properties =
      (bytes "category", enum_field category_enum)
      ∷ (bytes "confidence", number_field 0 1)
      ∷ (bytes "rationale", string_field)
      ∷ [];
  required = bytes "category" ∷ bytes "confidence" ∷ bytes "rationale" ∷ [];
  additional_properties = false;
}

unfoldable pub anomaly_schema : Schema
anomaly_schema = record {
  properties =
      (bytes "anomalous", boolean_field)
      ∷ (
        bytes "severity",
        enum_field (bytes "none" ∷ bytes "low" ∷ bytes "medium" ∷ bytes "high" ∷ []),
      )
      ∷ (bytes "reason", string_field)
      ∷ [];
  required = bytes "anomalous" ∷ bytes "severity" ∷ bytes "reason" ∷ [];
  additional_properties = false;
}

unfoldable pub insights_schema : Schema
insights_schema = record {
  properties =
      (bytes "summary", string_field)
      ∷ (bytes "observations", strings_field)
      ∷ (bytes "recommendations", strings_field)
      ∷ [];
  required = bytes "summary" ∷ bytes "observations" ∷ bytes "recommendations" ∷ [];
  additional_properties = false;
}

pub data Effort : Type 0 where
  low medium : Effort

-- The schema and the effort of each request.
unfoldable pub schema_of : Task → Schema
schema_of categorize_task = categorization_schema
schema_of anomaly_task = anomaly_schema
schema_of insights_task = insights_schema

unfoldable pub effort_of : Task → Effort
effort_of categorize_task = low
effort_of anomaly_task = medium
effort_of insights_task = medium
