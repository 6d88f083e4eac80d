-- ===== src/Tests/Replies.antt =====
-- Bedrock at concrete replies.
use mathlib.Core.List.{Memᴰ}
use maroon_ledger.Base.{
  ◌≤◌, ◌+◌, ◌/◌, length, arith, ◌≡◌, refl, ◌&&◌, not, true, false, some, [], ◌∷◌,
}
use maroon_ledger.Base.Int.{pos, ◌*ℤ◌}
use maroon_ledger.Go.Bytes.{Bytes, bytes, bytes_eq, is_empty, valid_utf8}
use maroon_ledger.Ai.Category.{categories}
use maroon_ledger.Ai.Severity.{severity_none}
use maroon_ledger.Ai.Stub.Usd.{
  group_rest, group_thousands, without_commas, IsGrouped, group_thousands-IsGrouped,
}
use maroon_ledger.Ai.Types.{Reply, TransactionInput, truncate}
use maroon_ledger.Ai.Bedrock.{
  Bedrock, text_block, response_text, categorize_task, anomaly_task, categorize, detect_anomaly,
}
use maroon_ledger.Ai.Bedrock.Schemas.{
  category_enum, categorization_schema, anomaly_schema, schema_of,
}
use maroon_ledger.Ai.Bedrock.Conforming.{Conforms, listed, conforming_kept}
use maroon_ledger.Ai.Bedrock.Answers.{
  Safe, UnitInterval, IsCategorization, IsAssessment, categorize-Safe, detect_anomaly-Safe,
}
use maroon_ledger.Tests.Fixtures.{Money, money, dollars, minus_dollars}

-- A model that answers beyond its schema.
abbrev unruly : Bedrock Money
unruly = record {
  messages = λ params. some (record { refused = false; content = text_block (bytes "{}") ∷ [] });
  model = bytes "m";
  unmarshal = record {
    categorization = λ s.
        some
          (record { category = bytes "gambling"; confidence = dollars 7; rationale = bytes "bet" });
    assessment =
        λ s. some (record { anomalous = true; severity = bytes "extreme"; reason = bytes "odd" });
    insights = λ s. some (record { summary = []; observations = []; recommendations = [] });
  };
}

abbrev taxi : TransactionInput Money
taxi = record {
  description = bytes "Taxi";
  amount = minus_dollars 20;
  account_type = bytes "checking";
  category = [];
}

money-UnitInterval : UnitInterval money
unfolding ◌*ℤ◌
money-UnitInterval = (refl, refl, refl, refl)

categorize-Safe_example : Safe (IsCategorization unruly) (categorize unruly taxi)
categorize-Safe_example = categorize-Safe unruly money-UnitInterval taxi

detect_anomaly-Safe_example : Safe (IsAssessment unruly) (detect_anomaly unruly taxi [])
detect_anomaly-Safe_example = detect_anomaly-Safe unruly taxi []

-- Two letters of two bytes each, cut behind the third byte, are no text any more.
truncate_splits :
    (valid_utf8 (195 ∷ 169 ∷ 195 ∷ 169 ∷ []) ≡ true)
    × (valid_utf8 (truncate (195 ∷ 169 ∷ 195 ∷ 169 ∷ []) 3) ≡ false)
unfolding valid_utf8 truncate
truncate_splits = (refl, refl)

thousands : group_thousands (bytes "1234567") ≡ bytes "1,234,567"
unfolding group_thousands group_rest bytes
thousands = refl

abbrev hundreds : Bytes
hundreds = b'0' ∷ b'0' ∷ b'0' ∷ []

abbrev thousand : Bytes
thousand = b'1' ∷ hundreds

thousand-IsGrouped :
    (without_commas (group_thousands thousand) ≡ thousand)
    × IsGrouped (group_thousands thousand)
    × (length (group_thousands thousand) ≡ length thousand + length hundreds / 3)
thousand-IsGrouped =
    group_thousands-IsGrouped b'1' hundreds
      ((λ e. omega arith), ((λ e. omega arith), ((λ e. omega arith), ((λ e. omega arith), tt))))

-- A model that keeps to its schema.
abbrev orderly : Bedrock Money
orderly = record {
  messages = λ params. some (record { refused = false; content = text_block (bytes "{}") ∷ [] });
  model = bytes "m";
  unmarshal = record {
    categorization = λ s.
        some (record {
          category = bytes "transport";
          confidence = dollars 1;
          rationale = bytes "ride";
        });
    assessment =
        λ s. some (record { anomalous = true; severity = bytes "low"; reason = bytes "odd" });
    insights = λ s. some (record { summary = []; observations = []; recommendations = [] });
  };
}

transport-Conforms : Conforms categorize_task (bytes "category") (bytes "transport")
unfolding schema_of categorization_schema category_enum categories listed bytes bytes_eq
transport-Conforms = Memᴰ.tail (Memᴰ.tail (Memᴰ.head refl))

low-Conforms : Conforms anomaly_task (bytes "severity") (bytes "low")
unfolding schema_of anomaly_schema listed bytes bytes_eq
low-Conforms = Memᴰ.tail (Memᴰ.head refl)

one_inside :
    (money.lt (dollars 1) (money.decimal (pos 0) 0) ≡ false)
    × (money.lt (money.decimal (pos 1) 0) (dollars 1) ≡ false)
unfolding ◌*ℤ◌
one_inside = (refl, refl)

texts_read : is_empty (response_text (text_block (bytes "{}") ∷ [])) ≡ false
unfolding is_empty response_text bytes
texts_read = refl

short_texts : (length (bytes "ride") ≤ 200) × (length (bytes "odd") ≤ 300)
unfolding bytes
short_texts = omega arith

conforming_kept_example :
    (categorize orderly taxi
      ≡ Reply.ok (record {
        category = bytes "transport";
        confidence = dollars 1;
        rationale = bytes "ride";
      }))
    × (detect_anomaly orderly taxi []
        ≡ Reply.ok (record {
          anomalous = true && not (bytes_eq (bytes "low") severity_none);
          severity = bytes "low";
          reason = bytes "odd";
        }))
conforming_kept_example =
    conforming_kept orderly taxi []
      (record { category = bytes "transport"; confidence = dollars 1; rationale = bytes "ride" })
      (record { anomalous = true; severity = bytes "low"; reason = bytes "odd" })
      (
        record { refused = false; content = text_block (bytes "{}") ∷ [] },
        refl,
        refl,
        texts_read,
        refl,
      )
      transport-Conforms one_inside.0 one_inside.1 short_texts.0
      (
        record { refused = false; content = text_block (bytes "{}") ∷ [] },
        refl,
        refl,
        texts_read,
        refl,
      )
      low-Conforms short_texts.1
