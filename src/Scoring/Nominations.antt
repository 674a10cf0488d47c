-- ===== src/Scoring/Nominations.antt =====
-- internal/domain/scoring/awards.go: the nominations of a tournament. Counts are numbers; a limit of
-- 0 stands for every limit that is not positive. The strength of an accuracy below a coin flip, which
-- is 0 or negative in the code, is 0, and either is dropped.
pub mod Fairness
use text.Mathlib.Text.{◌==◌ as str_eq}
use cs2_predictor.Base.Sort.{stable_sort}
use cs2_predictor.Base.{
  ◌+◌, ◌||◌, List, ◌++◌, ◌&&◌, ltb, ◌*◌, some, Bool, suc, not, contains, if◌then◌else◌, ◌==◌, none,
  ℕ, String, [], ◌-◌, Option, zero, leb, ◌∷◌, ◌/◌,
}
use cs2_predictor.Scoring.Ranking.{UserStanding}
use cs2_predictor.Scoring.Points.{accuracy_percent}

pub data Nomination : Type 0 where
  award_underdog award_lone_voice award_streak award_exact award_flawless award_sniper award_ironman
        award_volume :
      Nomination

pub record EventAward : Type 0 where
  pub kind : Nomination
  pub user_id : ℕ
  pub display_name : String
  pub value : ℕ
  pub detail : ℕ

pub record EventUserSpecials : Type 0 where
  pub user_id : ℕ
  pub display_name : String
  pub contrarian_wins : ℕ
  pub lone_correct : ℕ
  pub voted_polls : ℕ
  pub longest_streak : ℕ

pub record EventSpecials : Type 0 where
  pub total_polls : ℕ
  pub users : List EventUserSpecials

pub record Candidate : Type 0 where
  pub award : EventAward
  pub strength : ℕ
  pub priority : ℕ

-- `best`: the first row that qualifies, then whatever beats it.
module _ {A : Type 0} (eligible : A → Bool) (better : A → A → Bool) where
  unfoldable pub challenge : A → Option A → Option A
  challenge r none = if eligible r then some r else none
  challenge r (some s) = if eligible r && better r s then some r else some s

  unfoldable pub best_from : Option A → List A → Option A
  unfolding challenge
  best_from current [] = current
  best_from current (r ∷ rs) = best_from (challenge r current) rs

unfoldable pub add_candidate : ℕ → ℕ → EventAward → List Candidate → List Candidate
add_candidate priority strength award cs =
    if str_eq award.display_name "" || (strength == 0)
    then cs
    else cs ++ record { award = award; strength = strength; priority = priority } ∷ []

unfoldable pub crowd_award : Nomination → ℕ → EventUserSpecials → EventAward
crowd_award kind value u = record {
  kind = kind;
  user_id = u.user_id;
  display_name = u.display_name;
  value = value;
  detail = 0;
}

-- One nomination of a collector: nothing if nobody qualifies.
unfoldable pub nominate :
    {A : Type 0} → Option A → ℕ → (A → ℕ) → (A → EventAward) → List Candidate → List Candidate
nominate none priority strength award cs = cs
nominate (some r) priority strength award cs = add_candidate priority (strength r) (award r) cs

unfoldable pub collect_crowd_awards : EventSpecials → List Candidate → List Candidate
unfolding best_from crowd_award nominate
collect_crowd_awards s cs =
    let c1 =
      nominate
        (best_from (λ u. leb 2 u.contrarian_wins) (λ c d. ltb d.contrarian_wins c.contrarian_wins)
          none s.users)
        0 (λ u. u.contrarian_wins * 2) (λ u. crowd_award award_underdog u.contrarian_wins u) cs in
    let c2 =
      nominate
        (best_from (λ u. leb 1 u.lone_correct) (λ c d. ltb d.lone_correct c.lone_correct) none
          s.users)
        1 (λ u. u.lone_correct * 5) (λ u. crowd_award award_lone_voice u.lone_correct u) c1 in
    let c3 =
      nominate
        (best_from (λ u. leb 3 u.longest_streak) (λ c d. ltb d.longest_streak c.longest_streak) none
          s.users)
        2 (λ u. u.longest_streak * 3 / 2) (λ u. crowd_award award_streak u.longest_streak u) c2 in
    nominate
      (best_from (λ u. leb 5 s.total_polls && (u.voted_polls == s.total_polls))
        (λ c d. ltb d.voted_polls c.voted_polls) none s.users)
      6 (λ u. s.total_polls / 3) (λ u. crowd_award award_ironman u.voted_polls u) c3

unfoldable pub row_award : Nomination → ℕ → ℕ → UserStanding → EventAward
row_award kind value detail r = record {
  kind = kind;
  user_id = r.user_id;
  display_name = r.display_name;
  value = value;
  detail = detail;
}

unfoldable pub percent_of : UserStanding → ℕ
percent_of r = accuracy_percent r.correct_predictions r.predictions

unfoldable pub better_event_accuracy : UserStanding → UserStanding → Bool
unfolding percent_of
better_event_accuracy a b =
    if not (percent_of a == percent_of b)
    then ltb (percent_of b) (percent_of a)
    else ltb b.predictions a.predictions

unfoldable pub collect_standing_awards : List UserStanding → List Candidate → List Candidate
unfolding best_from row_award nominate percent_of
collect_standing_awards rows cs =
    let c1 =
      nominate
        (best_from (λ r. leb 2 r.exact_predictions)
          (λ c d. ltb d.exact_predictions c.exact_predictions) none rows)
        3 (λ r. r.exact_predictions * 2) (λ r. row_award award_exact r.exact_predictions 0 r) cs in
    let c2 =
      nominate
        (best_from (λ r. leb 4 r.predictions && (r.correct_predictions == r.predictions))
          (λ c d. ltb d.predictions c.predictions) none rows)
        4 (λ r. r.predictions + 2) (λ r. row_award award_flawless r.predictions 0 r) c1 in
    let c3 =
      nominate
        (best_from (λ r. leb 5 r.predictions && ltb r.correct_predictions r.predictions)
          better_event_accuracy none rows)
        5 (λ r. (percent_of r - 50) / 5)
        (λ r. row_award award_sniper (percent_of r) r.predictions r) c2 in
    nominate
      (best_from (λ r. leb 5 r.predictions) (λ c d. ltb d.predictions c.predictions) none rows) 7
      (λ r. r.predictions / 4) (λ r. row_award award_volume r.predictions 0 r) c3

-- The `less` of the sort: strengths falling, priorities rising.
unfoldable pub is_stronger : Candidate → Candidate → Bool
is_stronger a b =
    if not (a.strength == b.strength) then ltb b.strength a.strength else ltb a.priority b.priority

-- The last loop: one title for a person, until `places` more are given.
unfoldable pub give : ℕ → List ℕ → List Candidate → List EventAward
give zero seen cs = []
give (suc places) seen [] = []
give (suc places) seen (c ∷ cs) =
    let skip = give (suc places) seen cs in
    let next = give places (c.award.user_id ∷ seen) cs in
    if contains seen c.award.user_id then skip else c.award ∷ next

abbrev pub shown : ℕ → ℕ
shown limit = if limit == 0 then 3 else limit

unfoldable pub candidates_of : List UserStanding → EventSpecials → List Candidate
unfolding collect_crowd_awards
candidates_of rows s = collect_standing_awards rows (collect_crowd_awards s [])

unfoldable pub pick_event_awards : List UserStanding → EventSpecials → ℕ → List EventAward
unfolding candidates_of
pick_event_awards rows s limit =
    give (shown limit) [] (stable_sort is_stronger (candidates_of rows s))
