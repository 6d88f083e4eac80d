-- ===== src/Handlers/Summary/Series.antt =====
-- The reconstructed balances of balanceSeries against a description from the front.
use mathlib.Core.List.{append-nil, append_assoc, reverse, reverse-cons, reverse-reverse}
use maroon_ledger.Base.{ℕ, ◌≡◌, refl, ◌∙◌, List, [], ◌∷◌, ◌++◌}
use maroon_ledger.Go.Bytes.{Bytes}
use maroon_ledger.Go.Float.{Float64}
use maroon_ledger.Go.Time.{format_date}
use maroon_ledger.Handlers.Aggregate.{round2}
use maroon_ledger.Handlers.Summary.{walk_back, balance_series}

module _ {F : Type 0} ⦃fl : Float64 F⦄ (deltas : Bytes → F) (current : F) where
  -- The balance before the movements of the given days, latest first: each is taken off again.
  abbrev pub undone : List ℕ → F
  undone [] = current
  undone (t ∷ ts) = fl.sub (undone ts) (deltas (format_date t))

  -- For each day, the balance at its end: what remains when all later days are undone.
  abbrev pub end_of_day : List ℕ → List F
  end_of_day [] = []
  end_of_day (t ∷ ts) = round2 (undone ts) ∷ end_of_day ts

  walk_back-end_of_day :
      (latest_first later : List ℕ)
      → walk_back deltas (undone later) latest_first (end_of_day later)
        ≡ end_of_day (reverse latest_first ++ later)
  unfolding walk_back
  walk_back-end_of_day [] later = refl
  walk_back-end_of_day (t ∷ ts) later =
      rw (reverse-cons t ts, append_assoc) (walk_back-end_of_day ts (t ∷ later))

  -- The backward loop gives, for every day of any timeline, the rounded balance with all later days'
  -- movements undone, the last of them first; so its last entry is the current balance, rounded.
  pub balance_series_correct :
      (timeline : List ℕ) → balance_series current deltas timeline ≡ end_of_day timeline
  unfolding balance_series
  balance_series_correct timeline =
      walk_back-end_of_day (reverse timeline) [] ∙ rw (reverse-reverse, append-nil)
