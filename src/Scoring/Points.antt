-- ===== src/Scoring/Points.antt =====
-- `Calculate` and `accuracyPercent` of internal/domain/scoring/scoring.go. The result
-- `(0, "", false)` of a wrong outcome is `none`.
pub mod Laws
use cs2_predictor.Base.{ℕ, if◌then◌else◌, ◌==◌, ◌*◌, Option, ◌+◌, some, ◌/◌, none}
use cs2_predictor.Competition.Series.{
  MatchScore, SeriesFormat, score_eq, exact_points, outcome_eq, outcome,
}

pub data AwardKind : Type 0 where
  exact_score outcome_only : AwardKind

unfoldable pub calculate : MatchScore → MatchScore → SeriesFormat → Option (ℕ × AwardKind)
calculate predicted actual format =
    if score_eq predicted actual
    then some (exact_points format, exact_score)
    else if outcome_eq (outcome predicted) (outcome actual)
    then some (1, outcome_only)
    else none

unfoldable pub accuracy_percent : ℕ → ℕ → ℕ
accuracy_percent correct total = if total == 0 then 0 else (correct * 100 + total / 2) / total
