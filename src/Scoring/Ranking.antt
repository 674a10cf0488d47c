-- ===== src/Scoring/Ranking.antt =====
-- `UserStanding` and `DenseRank` of internal/domain/scoring/scoring.go. Points and counts are sums
-- of numbers that are not negative.
pub mod Order
pub mod Dense
pub mod Deterministic
use cs2_predictor.Base.{
  ℕ, Bool, String, List, Option, true, none, ◌∷◌, if◌then◌else◌, not, some, ◌+◌, ◌==◌, [], ltb,
}
use cs2_predictor.Base.Sort.{stable_sort}

pub record UserStanding : Type 0 where
  pub user_id : ℕ
  pub display_name : String
  pub points : ℕ
  pub exact_predictions : ℕ
  pub correct_predictions : ℕ
  pub predictions : ℕ
  pub tournaments : ℕ
  pub gold_medals : ℕ
  pub silver_medals : ℕ
  pub bronze_medals : ℕ
  pub rank : ℕ
  pub previous_rank : Option ℕ
  pub points_delta : ℕ

-- The `less` of the sort: points, exact predictions and predictions falling, user ids rising.
unfoldable pub goes_before : UserStanding → UserStanding → Bool
goes_before a b =
    if not (a.points == b.points)
    then ltb b.points a.points
    else if not (a.exact_predictions == b.exact_predictions)
    then ltb b.exact_predictions a.exact_predictions
    else if not (a.predictions == b.predictions)
    then ltb b.predictions a.predictions
    else ltb a.user_id b.user_id

new_points : Option ℕ → ℕ → Bool
new_points none p = true
new_points (some q) p = not (p == q)

pub next_rank : ℕ → Option ℕ → ℕ → ℕ
unfolding new_points
next_rank rank previous points = if new_points previous points then rank + 1 else rank

-- The loop over the sorted rows, with the last rank given and the points of the row before.
unfoldable pub assign_ranks : ℕ → Option ℕ → List UserStanding → List UserStanding
unfolding next_rank
assign_ranks rank previous [] = []
assign_ranks rank previous (row ∷ rows) =
    record row { rank = next_rank rank previous row.points }
    ∷ assign_ranks (next_rank rank previous row.points) (some row.points) rows

unfoldable pub dense_rank : List UserStanding → List UserStanding
unfolding assign_ranks
dense_rank rows = assign_ranks 0 none (stable_sort goes_before rows)
