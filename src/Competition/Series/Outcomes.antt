-- ===== src/Competition/Series/Outcomes.antt =====
-- Outcomes under an exchange of the two sides, and the equality tests on scores.
use cs2_predictor.Base.{◌<◌, ◌≡◌, refl, ◌↔◌, true, arith, ℤ, ok}
use cs2_predictor.Competition.Series.{
  SeriesKind, SeriesFormat, MatchScore, Outcome, best_of, fixed_maps, first_to, other_kind,
  first_wins, second_wins, draw, new_series_format, exact_points, points_of, outcome, score_eq,
  outcome_eq, swap,
}

pub score_eq_iff : (s t : MatchScore) → (score_eq s t ≡ true) ↔ (s ≡ t)
unfolding score_eq
score_eq_iff s t = ground arith

pub outcome_eq_iff : (a b : Outcome) → (outcome_eq a b ≡ true) ↔ (a ≡ b)
unfolding outcome_eq
outcome_eq_iff first_wins first_wins = ground arith
outcome_eq_iff a b = ground arith

abbrev pub opposite : Outcome → Outcome
opposite first_wins = second_wins
opposite second_wins = first_wins
opposite draw = draw

pub outcome-swap : (s : MatchScore) → outcome (swap s) ≡ opposite (outcome s)
unfolding outcome
outcome-swap s = ground arith

pub score_eq-swap : (s t : MatchScore) → score_eq (swap s) (swap t) ≡ score_eq s t
unfolding score_eq
score_eq-swap s t = ground arith

pub outcome_eq-opposite : (a b : Outcome) → outcome_eq (opposite a) (opposite b) ≡ outcome_eq a b
unfolding outcome_eq
outcome_eq-opposite first_wins first_wins = refl
outcome_eq-opposite a b = ground arith

-- An exact hit is worth at least one point, whatever the kind of series.
pub exact_points_pos : (f : SeriesFormat) → 0 < f.size → 0 < exact_points f
unfolding exact_points
exact_points_pos f h = go f.kind
  where
    go : (k : SeriesKind) → 0 < points_of k f.size
    go best_of = omega arith
    go fixed_maps = h
    go first_to = h
    go (other_kind k) = h

-- What the constructor lets through has the kind asked for and a positive size.
pub new_series_format_ok :
    (k : SeriesKind) (n : ℤ) (f : SeriesFormat)
    → new_series_format k n ≡ ok f
    → (f.kind ≡ k) × (0 < f.size) × (n ≡ ℤ.pos f.size)
unfolding new_series_format
new_series_format_ok k n f h = ground arith
