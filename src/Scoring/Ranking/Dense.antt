-- ===== src/Scoring/Ranking/Dense.antt =====
-- What the ranks of `DenseRank` mean.
use mathlib.Core.List.Perm
use mathlib.Core.List.{Perm}
use cs2_predictor.Base.{
  ℕ, Option, false, ap, refl, ◌↔◌, some, ◌+◌, ◌≡◌, ◌≤◌, List, map, [], All, ◌∷◌, ◌<◌, All-map,
  arith, none,
}
use cs2_predictor.Scoring.Ranking.{goes_before, assign_ranks, UserStanding, next_rank, dense_rank}
use cs2_predictor.Scoring.Ranking.Order.{goes_before-points, goes_before-IsWeakOrder}
use cs2_predictor.Base.Sort.{stable_sort-perm, stable_sort, stable_sort-IsSorted, IsSorted}

-- A row with its rank taken off: what the ranking leaves as it was.
abbrev pub unranked : UserStanding → UserStanding
unranked row = record row { rank = 0 }

map-unranked-assign_ranks :
    (rank : ℕ) (previous : Option ℕ) (rows : List UserStanding)
    → map unranked (assign_ranks rank previous rows) ≡ map unranked rows
unfolding assign_ranks
map-unranked-assign_ranks rank previous [] = refl
map-unranked-assign_ranks rank previous (row ∷ rows) =
    ap (◌∷◌ (unranked row))
      (map-unranked-assign_ranks (next_rank rank previous row.points) (some row.points) rows)

-- Points fall along the list.
abbrev Falling : List UserStanding → Type 0
Falling [] = Unit {0}
Falling (a ∷ rest) = All (λ b. b.points ≤ a.points) rest × Falling rest

IsSorted-Falling : (rows : List UserStanding) → IsSorted goes_before rows → Falling rows
IsSorted-Falling [] s = tt
IsSorted-Falling (a ∷ rest) s = (
  All-map (λ b. goes_before b a ≡ false) (λ b. b.points ≤ a.points) (λ b. goes_before-points a b)
      rest s.0,
  IsSorted-Falling rest s.1,
)

-- Two rows agree on rank exactly when they agree on points, and the one with more points has the
-- smaller rank.
abbrev pub Agrees : UserStanding → UserStanding → Type 0
Agrees a b = (a.rank < b.rank ↔ b.points < a.points) × (a.rank ≡ b.rank ↔ a.points ≡ b.points)

-- Every two rows agree, and the rank rises by at most one from row to row.
abbrev pub IsDense : ℕ → List UserStanding → Type 0
IsDense before [] = Unit {0}
IsDense before (a ∷ rest) = (a.rank ≤ before + 1) × All (Agrees a) rest × IsDense a.rank rest

-- Rows that are ranked after a row with rank `r` and `p` points.
abbrev After : ℕ → ℕ → UserStanding → Type 0
After r p b =
    (r ≤ b.rank) × (b.points ≤ p) × ((b.rank ≡ r → b.points ≡ p) × (b.points ≡ p → b.rank ≡ r))

After-trans :
    (r p s q : ℕ) (c : UserStanding)
    → r ≤ s
    → q ≤ p
    → (s ≡ r → q ≡ p)
    → (q ≡ p → s ≡ r)
    → After s q c
    → After r p c
After-trans r p s q c h k f g a = ground arith

assign_ranks-After :
    (r p : ℕ) (rows : List UserStanding)
    → All (λ b. b.points ≤ p) rows
    → Falling rows
    → All (After r p) (assign_ranks r (some p) rows)
unfolding assign_ranks
assign_ranks-After r p [] h f = tt
assign_ranks-After r p (b ∷ rows) h f = (
  ground arith,
  All-map (After (next_rank r (some p) b.points) b.points) (After r p)
      (λ c k.
        After-trans r p (next_rank r (some p) b.points) b.points c (ground arith) (ground arith)
          (ground arith) (ground arith) k)
      _ (assign_ranks-After (next_rank r (some p) b.points) b.points rows f.0 f.1),
)

assign_ranks-IsDense :
    (r : ℕ) (previous : Option ℕ) (rows : List UserStanding)
    → Falling rows
    → IsDense r (assign_ranks r previous rows)
unfolding assign_ranks
assign_ranks-IsDense r previous [] f = tt
assign_ranks-IsDense r previous (a ∷ rows) f = (
  ground arith,
  All-map (After (next_rank r previous a.points) a.points)
      (Agrees (record a { rank = next_rank r previous a.points })) (λ b k. ground arith) _
      (assign_ranks-After (next_rank r previous a.points) a.points rows f.0 f.1),
  assign_ranks-IsDense (next_rank r previous a.points) (some a.points) rows f.1,
)

-- The first row has rank 1.
pub dense_rank_first :
    (rows rest : List UserStanding) (a : UserStanding) → dense_rank rows ≡ a ∷ rest → a.rank ≡ 1
unfolding dense_rank
dense_rank_first rows rest a e = go (stable_sort goes_before rows) e
  where
    go : (l : List UserStanding) → assign_ranks 0 none l ≡ a ∷ rest → a.rank ≡ 1
    go [] e = cc
    go (b ∷ l) e = ground arith

-- The first rank is 1.
abbrev pub IsFromOne : List UserStanding → Type 0
IsFromOne [] = Unit {0}
IsFromOne (a ∷ rest) = a.rank ≡ 1

dense_rank-IsFromOne :
    (rows ranked : List UserStanding) → dense_rank rows ≡ ranked → IsFromOne ranked
dense_rank-IsFromOne rows [] e = tt
dense_rank-IsFromOne rows (a ∷ rest) e = dense_rank_first rows rest a e

-- The rows of `DenseRank`: ranks start at 1, rise by at most one from row to row, are equal exactly
-- at equal points, and are smaller exactly at more points.
pub dense_rank-IsDense :
    (rows : List UserStanding) → IsFromOne (dense_rank rows) × IsDense 0 (dense_rank rows)
unfolding dense_rank
dense_rank-IsDense rows = (
  dense_rank-IsFromOne rows (dense_rank rows) refl,
  assign_ranks-IsDense 0 none (stable_sort goes_before rows)
      (IsSorted-Falling _ (stable_sort-IsSorted goes_before goes_before-IsWeakOrder rows)),
)

-- Ranking keeps every row, and changes nothing in it but the rank.
pub dense_rank-perm :
    (rows : List UserStanding) → Perm (map unranked (dense_rank rows)) (map unranked rows)
unfolding dense_rank
dense_rank-perm rows =
    rw (map-unranked-assign_ranks 0 none (stable_sort goes_before rows))
      (Perm.map unranked (stable_sort-perm goes_before rows))

All-assign_ranks :
    (a : UserStanding) (s r : ℕ) (previous : Option ℕ) (rows : List UserStanding)
    → All (λ b. goes_before b a ≡ false) rows
    → All (λ b. goes_before b (record a { rank = s }) ≡ false) (assign_ranks r previous rows)
unfolding assign_ranks goes_before
All-assign_ranks a s r previous [] h = tt
All-assign_ranks a s r previous (b ∷ rows) h =
    (h.0, All-assign_ranks a s (next_rank r previous b.points) (some b.points) rows h.1)

pub assign_ranks-IsSorted :
    (r : ℕ) (previous : Option ℕ) (rows : List UserStanding)
    → IsSorted goes_before rows
    → IsSorted goes_before (assign_ranks r previous rows)
unfolding assign_ranks
assign_ranks-IsSorted r previous [] s = tt
assign_ranks-IsSorted r previous (a ∷ rows) s = (
  All-assign_ranks a _ _ _ rows s.0,
  assign_ranks-IsSorted (next_rank r previous a.points) (some a.points) rows s.1,
)
