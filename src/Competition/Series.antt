-- ===== src/Competition/Series.antt =====
-- internal/domain/competition/competition.go: series formats, scores and outcomes.
-- A Go string type with named constants is a data type with one constructor for each constant
-- and one for every other string. Sizes and scores are counted up from 0 by the code.
pub mod Scores
pub mod Outcomes
pub mod Text
use cs2_predictor.Base.{
  ℕ, zero, suc, ◌+◌, ◌-◌, ◌/◌, ◌<◌, ◌≡◌, ◌⊎◌, Bool, true, false, ◌&&◌, ◌||◌, List, [], ◌∷◌, ◌++◌,
  String, ltb, ◌==◌, if◌then◌else◌, ℤ, pos, negsuc, Result, ok, err, error,
}

pub data SeriesKind : Type 0 where
  best_of fixed_maps first_to : SeriesKind
  other_kind : String → SeriesKind

pub record SeriesFormat : Type 0 where
  pub kind : SeriesKind
  pub size : ℕ

pub record MatchScore : Type 0 where
  pub first : ℕ
  pub second : ℕ

pub data Outcome : Type 0 where
  first_wins second_wins draw : Outcome

abbrev pub score : ℕ → ℕ → MatchScore
score a b = record { first = a; second = b }

-- The constructor that validates: the size must be positive.
unfoldable pub new_series_format : SeriesKind → ℤ → Result SeriesFormat
new_series_format kind (pos zero) = err (error "series size must be positive")
new_series_format kind (pos (suc n)) = ok (record { kind = kind; size = suc n })
new_series_format kind (negsuc n) = err (error "series size must be positive")

unfoldable pub new_match_score : ℤ → ℤ → Result MatchScore
new_match_score (pos a) (pos b) = ok (score a b)
new_match_score (pos a) (negsuc b) = err (error "match score components must be non-negative")
new_match_score (negsuc a) b = err (error "match score components must be non-negative")

-- `for i := …; i < target; i++`, over the rounds left: the first side reaches the target.
unfoldable pub first_reaches : ℕ → ℕ → ℕ → List MatchScore
first_reaches target i zero = []
first_reaches target i (suc rounds) = score target i ∷ first_reaches target (suc i) rounds

-- `for i := target - 1; i >= 0; i--`, over i + 1: the second side reaches the target.
unfoldable pub second_reaches : ℕ → ℕ → List MatchScore
second_reaches target zero = []
second_reaches target (suc i) = score i target ∷ second_reaches target i

-- `for first := n; first >= 0; first--`.
unfoldable pub splits : ℕ → ℕ → List MatchScore
splits n zero = score zero (n - zero) ∷ []
splits n (suc first) = score (suc first) (n - suc first) ∷ splits n first

unfoldable pub race_to : ℕ → List MatchScore
unfolding first_reaches second_reaches
race_to target = first_reaches target 0 target ++ second_reaches target target

unfoldable pub scores_of : SeriesKind → ℕ → List MatchScore
unfolding race_to splits
scores_of best_of size = race_to (size / 2 + 1)
scores_of first_to size = race_to size
scores_of fixed_maps size = splits size size
scores_of (other_kind k) size = []

unfoldable pub possible_scores : SeriesFormat → List MatchScore
unfolding scores_of
possible_scores f = scores_of f.kind f.size

points_of : SeriesKind → ℕ → ℕ
points_of best_of size = size / 2 + 1
points_of fixed_maps size = size
points_of first_to size = size
points_of (other_kind k) size = size

unfoldable pub exact_points : SeriesFormat → ℕ
unfolding points_of
exact_points f = points_of f.kind f.size

unfoldable pub outcome : MatchScore → Outcome
outcome s =
    if ltb s.second s.first then first_wins else if ltb s.first s.second then second_wins else draw

-- `predicted == actual` on structs, and `==` on outcomes.
unfoldable pub score_eq : MatchScore → MatchScore → Bool
score_eq s t = s.first == t.first && s.second == t.second

unfoldable pub outcome_eq : Outcome → Outcome → Bool
outcome_eq first_wins first_wins = true
outcome_eq second_wins second_wins = true
outcome_eq draw draw = true
outcome_eq _ _ = false

-- The two sides exchanged.
abbrev pub swap : MatchScore → MatchScore
swap s = score s.second s.first

abbrev pub has_score : MatchScore → List MatchScore → Bool
has_score s [] = false
has_score s (t ∷ ts) = score_eq s t || has_score s ts

-- Which final scores a series can end with, said of the numbers alone.
abbrev pub Races : ℕ → MatchScore → Type 0
Races target s =
    ((s.first ≡ target) × (s.second < target)) ⊎ ((s.second ≡ target) × (s.first < target))

abbrev pub IsFinalOf : SeriesKind → ℕ → MatchScore → Type 0
IsFinalOf best_of size s = Races (size / 2 + 1) s
IsFinalOf first_to size s = Races size s
IsFinalOf fixed_maps size s = s.first + s.second ≡ size
IsFinalOf (other_kind k) size s = ⊥

abbrev pub IsFinal : SeriesFormat → MatchScore → Type 0
IsFinal f s = IsFinalOf f.kind f.size s

-- No score stands twice in the list.
abbrev pub DistinctScores : List MatchScore → Type 0
DistinctScores [] = Unit {0}
DistinctScores (s ∷ ss) = (has_score s ss ≡ false) × DistinctScores ss
