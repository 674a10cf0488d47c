-- ===== src/Scoring/Points/Laws.antt =====
-- What a prediction is worth, and how a share is rounded.
use native.Mathlib.Nat.{div-lt_iff_lt-mul, le-div_iff_mul-le, div-mul-le_self, le_trans}
use cs2_predictor.Base.{ℕ, ◌≤◌, none, ◌<◌, ◌*◌, ◌+◌, ◌≡◌, ◌↔◌, some, ◌≢◌, arith, ap, suc, ◌/◌, zero}
use cs2_predictor.Scoring.Points.{accuracy_percent, calculate, AwardKind, exact_score, outcome_only}
use cs2_predictor.Competition.Series.{MatchScore, SeriesFormat, swap, exact_points, outcome}
use cs2_predictor.Competition.Series.Outcomes.{
  score_eq-swap, outcome-swap, outcome_eq-opposite, exact_points_pos, score_eq_iff, outcome_eq_iff,
}

-- No award exactly when the outcome is missed; the exact award exactly at the exact score.
pub calculate-cases :
    (predicted actual : MatchScore) (format : SeriesFormat)
    → ((calculate predicted actual format ≡ none) ↔ (outcome predicted ≢ outcome actual))
      × ((calculate predicted actual format ≡ some (exact_points format, exact_score))
          ↔ (predicted ≡ actual))
      × ((calculate predicted actual format ≡ some (1, outcome_only))
          ↔ ((predicted ≢ actual) × (outcome predicted ≡ outcome actual)))
unfolding calculate
calculate-cases predicted actual format = ground (
  arith,
  score_eq_iff predicted actual,
  outcome_eq_iff (outcome predicted) (outcome actual),
  ap outcome {x = predicted} {y = actual},
)

-- An award is worth a point or more and never more than the exact hit.
pub calculate_bounds :
    (predicted actual : MatchScore) (format : SeriesFormat) {n : ℕ} {k : AwardKind}
    → 0 < format.size
    → calculate predicted actual format ≡ some (n, k)
    → (0 < n) × (n ≤ exact_points format)
unfolding calculate
calculate_bounds predicted actual format h e = ground (arith, exact_points_pos format)

-- It does not matter which team the score is told from, as long as both are told from one.
pub calculate-swap :
    (predicted actual : MatchScore) (format : SeriesFormat)
    → calculate (swap predicted) (swap actual) format ≡ calculate predicted actual format
unfolding calculate
calculate-swap predicted actual format = rw (
  score_eq-swap predicted actual,
  outcome-swap predicted,
  outcome-swap actual,
  outcome_eq-opposite (outcome predicted) (outcome actual),
)

-- The share is the nearest whole percent: within half a percent of the true share, at any sample
-- that is not empty.
pub accuracy_percent_nearest :
    (correct total : ℕ)
    → 0 < total
    → (2 * (accuracy_percent correct total * total) ≤ 200 * correct + total)
      × (200 * correct < 2 * (accuracy_percent correct total * total) + total)
unfolding accuracy_percent
accuracy_percent_nearest correct total h = grind arith

pub accuracy_percent-le :
    (correct total : ℕ) → correct ≤ total → accuracy_percent correct total ≤ 100
unfolding accuracy_percent
accuracy_percent-le correct zero h = omega arith
accuracy_percent-le correct (suc n) h =
    let below : (correct * 100 + suc n / 2) / suc n < 101 =
      (div-lt_iff_lt-mul {k = suc n} (omega arith)).1 (omega arith) in
    ground arith

-- More correct calls out of the same sample never show a smaller share.
pub accuracy_percent_mono :
    (a b total : ℕ) → a ≤ b → accuracy_percent a total ≤ accuracy_percent b total
unfolding accuracy_percent
accuracy_percent_mono a b zero h = omega arith
accuracy_percent_mono a b (suc n) h =
    let below : (a * 100 + suc n / 2) / suc n ≤ (b * 100 + suc n / 2) / suc n =
      (le-div_iff_mul-le {k = suc n} (omega arith)).1
        (le_trans (div-mul-le_self (a * 100 + suc n / 2) (suc n)) (omega arith)) in
    ground arith
