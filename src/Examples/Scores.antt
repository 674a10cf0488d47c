-- ===== src/Examples/Scores.antt =====
-- Points, ranks and settlement: the theorems at concrete inputs.
use mathlib.Core.List.Perm
use cs2_predictor.Scoring.Ranking.Deterministic.{dense_rank_of_perm}
use cs2_predictor.Base.{List, ◌∷◌, ok, refl, ◌≡◌, All, [], arith, none, ℕ, is_some}
use cs2_predictor.Scoring.Settle.{awards_for, settle, Award}
use cs2_predictor.Examples.Data.{spirit, final, vitality, final_poll, vote_by, bo3}
use cs2_predictor.Scoring.Settle.Awards.{award_to-awards_for, owed, award_to, as_award}
use cs2_predictor.Scoring.Points.{outcome_only}
use cs2_predictor.Scoring.Ranking.Dense.{IsDense, dense_rank-IsDense, IsFromOne}
use cs2_predictor.Scoring.Settle.Sides.{IsAnchored, settle-flip, flip}
use cs2_predictor.Scoring.Ranking.{UserStanding, dense_rank}
use cs2_predictor.Competition.Series.{score}
use cs2_predictor.Prediction.Poll.{Vote}
use cs2_predictor.Scoring.Nominations.{EventSpecials, pick_event_awards, candidates_of}
use cs2_predictor.Scoring.Nominations.Fairness.{pick_event_awards-IsFair, IsFair}
use cs2_predictor.Scoring.Milestones.{
  crossed_milestone, reaches, crossed_milestone-next_milestone, next_milestone,
}

abbrev row : ℕ → ℕ → UserStanding
row user_id points = record {
  user_id = user_id;
  display_name = "fan";
  points = points;
  exact_predictions = 0;
  correct_predictions = points;
  predictions = 5;
  tournaments = 0;
  gold_medals = 0;
  silver_medals = 0;
  bronze_medals = 0;
  rank = 0;
  previous_rank = none;
  points_delta = 0;
}

abbrev rows : List UserStanding
rows = row 1 3 ∷ row 2 5 ∷ row 3 3 ∷ []

abbrev votes : List Vote
votes = vote_by 31 1 ∷ vote_by 32 0 ∷ []

final_IsAnchored : IsAnchored final_poll spirit vitality
final_IsAnchored = ground arith

settle-flip_example :
    settle (flip final) final_poll (ok votes) 2000 none []
    ≡ settle final final_poll (ok votes) 2000 none []
settle-flip_example =
    settle-flip final final_poll spirit vitality (ok votes) 2000 none [] refl refl final_IsAnchored

award_to-awards_for_example :
    All
      (λ v.
        award_to v.user_id (awards_for final_poll (score 1 2) bo3 2000 votes)
        ≡ as_award final_poll 2000 v.user_id (owed final_poll (score 1 2) bo3 v))
      votes
award_to-awards_for_example =
    award_to-awards_for final_poll (score 1 2) bo3 2000 votes (refl, (refl, tt))

abbrev old_award : Award
old_award = record { poll_id = 5; user_id = 31; points = 1; kind = outcome_only; awarded_at = 1500 }

dense_rank-IsDense_example : IsFromOne (dense_rank rows) × IsDense 0 (dense_rank rows)
dense_rank-IsDense_example = dense_rank-IsDense rows

dense_rank_of_perm_example :
    dense_rank (row 1 3 ∷ row 2 5 ∷ []) ≡ dense_rank (row 2 5 ∷ row 1 3 ∷ [])
dense_rank_of_perm_example =
    dense_rank_of_perm (row 1 3 ∷ row 2 5 ∷ []) (row 2 5 ∷ row 1 3 ∷ []) ((refl, tt), (tt, tt))
      (Perm.swap _ _ _)

-- Both called 5 polls; the first was alone in one of them.
abbrev specials : EventSpecials
specials = record {
  total_polls = 5;
  users =
      record {
        user_id = 1;
        display_name = "fan";
        contrarian_wins = 2;
        lone_correct = 1;
        voted_polls = 5;
        longest_streak = 3;
      }
      ∷ [];
}

pick_event_awards-IsFair_example :
    IsFair 3 (candidates_of rows specials) (pick_event_awards rows specials 0)
pick_event_awards-IsFair_example = pick_event_awards-IsFair rows specials 0

crossed_milestone-next_milestone_example :
    is_some (crossed_milestone 24 26) ≡ reaches (next_milestone 24) 26
crossed_milestone-next_milestone_example = crossed_milestone-next_milestone 24 26
