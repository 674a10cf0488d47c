-- ===== src/Competition/Series/Scores.antt =====
-- What `PossibleScores` lists: every final score of the format, each once, at its option index.
use cs2_predictor.Base.{
  ℕ, zero, suc, ◌+◌, ◌-◌, ◌*◌, ◌/◌, ◌≤◌, ◌<◌, ◌≡◌, refl, ◌↔◌, ◌⊎◌, true, false, List, [], ◌∷◌, ◌++◌,
  arith, length, length-append,
}
use cs2_predictor.Competition.Series.{
  SeriesKind, SeriesFormat, MatchScore, best_of, fixed_maps, first_to, other_kind, score,
  first_reaches, second_reaches, splits, race_to, possible_scores, score_eq, has_score, Races,
  IsFinalOf, IsFinal, DistinctScores, scores_of,
}

has_score-append :
    (s : MatchScore) (xs ys : List MatchScore)
    → (has_score s (xs ++ ys) ≡ true) ↔ ((has_score s xs ≡ true) ⊎ (has_score s ys ≡ true))
has_score-append s [] ys = ground arith
has_score-append s (x ∷ xs) ys = ground (arith, has_score-append s xs ys)

first_reaches_iff :
    (target i rounds : ℕ) (s : MatchScore)
    → (has_score s (first_reaches target i rounds) ≡ true)
      ↔ ((s.first ≡ target) × (i ≤ s.second) × (s.second < i + rounds))
unfolding first_reaches score_eq
first_reaches_iff target i zero s = ground arith
first_reaches_iff target i (suc rounds) s =
    ground (arith, first_reaches_iff target (suc i) rounds s)

second_reaches_iff :
    (target i : ℕ) (s : MatchScore)
    → (has_score s (second_reaches target i) ≡ true) ↔ ((s.second ≡ target) × (s.first < i))
unfolding second_reaches score_eq
second_reaches_iff target zero s = ground arith
second_reaches_iff target (suc i) s = ground (arith, second_reaches_iff target i s)

splits_iff :
    (n first : ℕ) (s : MatchScore)
    → first ≤ n
    → (has_score s (splits n first) ≡ true) ↔ ((s.first + s.second ≡ n) × (s.first ≤ first))
unfolding splits score_eq
splits_iff n zero s h = ground arith
splits_iff n (suc first) s h = ground (arith, splits_iff n first s)

race_to_iff : (target : ℕ) (s : MatchScore) → (has_score s (race_to target) ≡ true) ↔ Races target s
unfolding race_to
race_to_iff target s = ground (
  arith,
  has_score-append s (first_reaches target 0 target) (second_reaches target target),
  first_reaches_iff target 0 target s,
  second_reaches_iff target target s,
)

-- A score is offered exactly when the series can end with it.
pub possible_scores_iff :
    (f : SeriesFormat) (s : MatchScore) → (has_score s (possible_scores f) ≡ true) ↔ IsFinal f s
unfolding possible_scores
possible_scores_iff f s = go f.kind
  where
    go : (k : SeriesKind) → (has_score s (scores_of k f.size) ≡ true) ↔ IsFinalOf k f.size s
    go best_of = race_to_iff (f.size / 2 + 1) s
    go first_to = race_to_iff f.size s
    go fixed_maps = ground (arith, splits_iff f.size f.size s)
    go (other_kind k) = ground arith

DistinctScores-append :
    (xs ys : List MatchScore)
    → DistinctScores xs
    → DistinctScores ys
    → ((s : MatchScore) → has_score s xs ≡ true → has_score s ys ≡ false)
    → DistinctScores (xs ++ ys)
unfolding score_eq
DistinctScores-append [] ys h k apart = k
DistinctScores-append (x ∷ xs) ys h k apart = (
  ground (arith, has_score-append x xs ys, apart x),
  DistinctScores-append xs ys h.1 k (λ s e. apart s (ground arith)),
)

first_reaches-DistinctScores :
    (target i rounds : ℕ) → DistinctScores (first_reaches target i rounds)
unfolding first_reaches
first_reaches-DistinctScores target i zero = tt
first_reaches-DistinctScores target i (suc rounds) = (
  ground (arith, first_reaches_iff target (suc i) rounds (score target i)),
  first_reaches-DistinctScores target (suc i) rounds,
)

second_reaches-DistinctScores : (target i : ℕ) → DistinctScores (second_reaches target i)
unfolding second_reaches
second_reaches-DistinctScores target zero = tt
second_reaches-DistinctScores target (suc i) = (
  ground (arith, second_reaches_iff target i (score i target)),
  second_reaches-DistinctScores target i,
)

splits-DistinctScores : (n first : ℕ) → first ≤ n → DistinctScores (splits n first)
unfolding splits
splits-DistinctScores n zero h = (refl, tt)
splits-DistinctScores n (suc first) h = (
  ground (arith, splits_iff n first (score (suc first) (n - suc first))),
  splits-DistinctScores n first (omega arith),
)

race_to-DistinctScores : (target : ℕ) → DistinctScores (race_to target)
unfolding race_to
race_to-DistinctScores target =
    DistinctScores-append (first_reaches target 0 target) (second_reaches target target)
      (first_reaches-DistinctScores target 0 target) (second_reaches-DistinctScores target target)
      (λ s e.
        ground (arith, first_reaches_iff target 0 target s, second_reaches_iff target target s))

-- No score is offered twice.
pub possible_scores-DistinctScores : (f : SeriesFormat) → DistinctScores (possible_scores f)
unfolding possible_scores
possible_scores-DistinctScores f = go f.kind
  where
    go : (k : SeriesKind) → DistinctScores (scores_of k f.size)
    go best_of = race_to-DistinctScores (f.size / 2 + 1)
    go first_to = race_to-DistinctScores f.size
    go fixed_maps = splits-DistinctScores f.size f.size (omega arith)
    go (other_kind k) = tt

length-first_reaches : (target i rounds : ℕ) → length (first_reaches target i rounds) ≡ rounds
unfolding first_reaches
length-first_reaches target i zero = refl
length-first_reaches target i (suc rounds) =
    omega (arith, length-first_reaches target (suc i) rounds)

length-second_reaches : (target i : ℕ) → length (second_reaches target i) ≡ i
unfolding second_reaches
length-second_reaches target zero = refl
length-second_reaches target (suc i) = omega (arith, length-second_reaches target i)

length-splits : (n first : ℕ) → length (splits n first) ≡ first + 1
unfolding splits
length-splits n zero = refl
length-splits n (suc first) = omega (arith, length-splits n first)

length-race_to : (target : ℕ) → length (race_to target) ≡ 2 * target
unfolding race_to
length-race_to target = omega (
  arith,
  length-append (first_reaches target 0 target) (second_reaches target target),
  length-first_reaches target 0 target,
  length-second_reaches target target,
)

abbrev pub score_count : SeriesKind → ℕ → ℕ
score_count best_of size = 2 * (size / 2 + 1)
score_count first_to size = 2 * size
score_count fixed_maps size = size + 1
score_count (other_kind k) size = 0

-- The number of scores offered, by the kind and the size of the series.
pub length-possible_scores :
    (f : SeriesFormat) → length (possible_scores f) ≡ score_count f.kind f.size
unfolding possible_scores
length-possible_scores f = go f.kind
  where
    go : (k : SeriesKind) → length (scores_of k f.size) ≡ score_count k f.size
    go best_of = length-race_to (f.size / 2 + 1)
    go first_to = length-race_to f.size
    go fixed_maps = length-splits f.size f.size
    go (other_kind k) = refl
