-- ===== src/Scoring/Ranking/Order.antt =====
-- The order of the leaderboard is a strict order, total on rows of different users.
use cs2_predictor.Base.{◌≡◌, arith, ◌==◌, true, false, ◌≤◌, String-set}
use cs2_predictor.Scoring.Ranking.{goes_before, UserStanding}
use cs2_predictor.Base.Sort.{IsWeakOrder}

pub goes_before_irrefl : (a : UserStanding) → goes_before a a ≡ false
unfolding goes_before
goes_before_irrefl a = ground arith

pub goes_before-asym : (a b : UserStanding) → goes_before a b ≡ true → goes_before b a ≡ false
unfolding goes_before
goes_before-asym a b h = ground arith

pub goes_before-cotrans :
    (a b c : UserStanding)
    → goes_before a b ≡ false
    → goes_before b c ≡ false
    → goes_before a c ≡ false
unfolding goes_before
goes_before-cotrans a b c h k = ground arith

pub goes_before-IsWeakOrder : IsWeakOrder goes_before
goes_before-IsWeakOrder = record { asym = goes_before-asym; cotrans = goes_before-cotrans }

-- Rows of different users are never tied.
pub goes_before-total :
    (a b : UserStanding)
    → (a.user_id == b.user_id) ≡ false
    → goes_before b a ≡ false
    → goes_before a b ≡ true
unfolding goes_before
goes_before-total a b d h = ground arith

-- A row is never before one with more points.
pub goes_before-points : (a b : UserStanding) → goes_before b a ≡ false → b.points ≤ a.points
unfolding goes_before
goes_before-points a b h = ground arith

pub UserStanding-set : IsSet UserStanding
UserStanding-set = hlevel String-set
