-- ===== src/Scoring/Ranking/Deterministic.antt =====
-- What `DenseRank` returns does not depend on the order in which the database gives the rows.
use mathlib.Core.List.Perm
use mathlib.Core.Bool.{Bool-set}
use mathlib.Core.List.{Perm}
use cs2_predictor.Base.Sort.{
  stable_sort, IsStrictlySorted, stable_sort-IsSorted, IsSorted, IsStrictlySorted-eq,
  stable_sort-perm,
}
use cs2_predictor.Base.Pairs.{Pairs, IsSorted-IsStrictlySorted, Pairs-perm}
use cs2_predictor.Scoring.Ranking.{dense_rank, UserStanding, assign_ranks, goes_before}
use cs2_predictor.Scoring.Ranking.Order.{
  goes_before-asym, goes_before-total, UserStanding-set, goes_before_irrefl,
  goes_before-IsWeakOrder,
}
use cs2_predictor.Base.{none, ◌≡◌, false, ◌==◌, List, ap, arith}
use cs2_predictor.Scoring.Ranking.Dense.{assign_ranks-IsSorted}

-- Rows of two users.
abbrev pub OtherUser : UserStanding → UserStanding → Type 0
OtherUser a b = (a.user_id == b.user_id) ≡ false

OtherUser-symm : (a b : UserStanding) → OtherUser a b → OtherUser b a
OtherUser-symm a b h = ground arith

-- The table is sorted by the order of the leaderboard.
pub dense_rank-IsSorted : (rows : List UserStanding) → IsSorted goes_before (dense_rank rows)
unfolding dense_rank
dense_rank-IsSorted rows =
    assign_ranks-IsSorted 0 none _ (stable_sort-IsSorted goes_before goes_before-IsWeakOrder rows)

-- With one row for each user, every order of the rows gives the same table.
pub dense_rank_of_perm :
    (xs ys : List UserStanding) → Pairs OtherUser xs → Perm xs ys → dense_rank xs ≡ dense_rank ys
unfolding dense_rank
dense_rank_of_perm xs ys h p = ap (assign_ranks 0 none) (
    IsStrictlySorted-eq goes_before goes_before_irrefl goes_before-asym UserStanding-set
      (stable_sort goes_before xs) (stable_sort goes_before ys) (strict xs h)
      (strict ys (Pairs-perm OtherUser OtherUser-symm (λ a b. Bool-set _ _) p h))
      (λ z m. (Perm.mem_iff same).0 m) (λ z m. (Perm.mem_iff same).1 m))
  where
    same : Perm (stable_sort goes_before xs) (stable_sort goes_before ys)
    same =
        Perm.trans (stable_sort-perm goes_before xs)
          (Perm.trans p (Perm.symm (stable_sort-perm goes_before ys)))

    strict :
        (l : List UserStanding)
        → Pairs OtherUser l
        → IsStrictlySorted goes_before (stable_sort goes_before l)
    strict l h =
        IsSorted-IsStrictlySorted goes_before OtherUser goes_before-total _
          (stable_sort-IsSorted goes_before goes_before-IsWeakOrder l)
          (Pairs-perm OtherUser OtherUser-symm (λ a b. Bool-set _ _)
            (Perm.symm (stable_sort-perm goes_before l)) h)
