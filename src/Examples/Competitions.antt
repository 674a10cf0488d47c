-- ===== src/Examples/Competitions.antt =====
-- Series, broadcasts: the theorems at concrete inputs.
use cs2_predictor.Competition.Series.Scores.{possible_scores_iff}
use cs2_predictor.Base.{true, ◌↔◌, ◌≡◌}
use cs2_predictor.Competition.Series.{score, possible_scores, IsFinal, has_score}
use cs2_predictor.Examples.Data.{bo3}

possible_scores_iff_example :
    (has_score (score 2 1) (possible_scores bo3) ≡ true) ↔ IsFinal bo3 (score 2 1)
possible_scores_iff_example = possible_scores_iff bo3 (score 2 1)
