-- ===== src/Scoring/Settle/Awards.antt =====
-- The awards of one settlement, and the table under several.
use cs2_predictor.Base.{
  ℕ, [], ◌≤◌, arith, Option, All, none, find_first, ◌==◌, any, false, List, ◌≡◌, ◌<◌, ◌∷◌, refl,
  some, ◌++◌, ap, not, keep_if, ◌∙◌, All-zip, All-map, inr, inl, Option-cases, sym,
}
use cs2_predictor.Competition.Series.{MatchScore, exact_points, SeriesFormat}
use cs2_predictor.Prediction.Poll.{option_at, Poll, Vote}
use cs2_predictor.Scoring.Settle.{awards_for, replace_awards, Award, predicted_award, award_of}
use cs2_predictor.Scoring.Points.{AwardKind}
use cs2_predictor.Scoring.Points.Laws.{calculate_bounds}

-- What a settlement owes for one vote.
unfoldable pub owed : Poll → MatchScore → SeriesFormat → Vote → Option (ℕ × AwardKind)
unfolding predicted_award
owed p actual format v = predicted_award (option_at v.option_index p.options) actual format

abbrev pub award_to : ℕ → List Award → Option Award
award_to user_id = find_first (λ a. a.user_id == user_id)

-- One vote for each person: PRIMARY KEY (poll_id, user_id).
abbrev pub OneVoteEach : List Vote → Type 0
OneVoteEach [] = Unit {0}
OneVoteEach (v ∷ vs) = (any (λ w. w.user_id == v.user_id) vs ≡ false) × OneVoteEach vs

no_award :
    (p : Poll) (actual : MatchScore) (format : SeriesFormat) (moment u : ℕ) (vs : List Vote)
    → any (λ w. w.user_id == u) vs ≡ false
    → award_to u (awards_for p actual format moment vs) ≡ none
unfolding awards_for
no_award p actual format moment u [] h = refl
no_award p actual format moment u (v ∷ vs) h = ground (arith, no_award p actual format moment u vs)

abbrev pub as_award : Poll → ℕ → ℕ → Option (ℕ × AwardKind) → Option Award
as_award p moment user_id none = none
as_award p moment user_id (some (n, k)) =
    some (record { poll_id = p.id; user_id = user_id; points = n; kind = k; awarded_at = moment })

none_equal :
    (u : ℕ) (vs : List Vote)
    → any (λ w. w.user_id == u) vs ≡ false
    → All (λ w. (w.user_id == u) ≡ false) vs
none_equal u [] h = tt
none_equal u (v ∷ vs) h = (ground (arith, h), none_equal u vs (ground (arith, h)))

-- The award for one vote is not looked at for another voter.
award_of-other :
    (p : Poll) (moment : ℕ) (v : Vote) (u : ℕ) (o : Option (ℕ × AwardKind)) (rest : List Award)
    → (u == v.user_id) ≡ false
    → award_to u (award_of v p moment o rest) ≡ award_to u rest
unfolding award_of
award_of-other p moment v u none rest h = refl
award_of-other p moment v u (some (n, k)) rest h = ground (arith, h)

award_of-own :
    (p : Poll) (moment : ℕ) (v : Vote) (o : Option (ℕ × AwardKind)) (rest : List Award)
    → award_to v.user_id rest ≡ none
    → award_to v.user_id (award_of v p moment o rest) ≡ as_award p moment v.user_id o
unfolding award_of
award_of-own p moment v none rest h = h
award_of-own p moment v (some (n, k)) rest h = ground (arith, h)

-- With one vote for each person, each voter has the award that the vote earned, and none if it
-- earned none.
pub award_to-awards_for :
    (p : Poll) (actual : MatchScore) (format : SeriesFormat) (moment : ℕ) (vs : List Vote)
    → OneVoteEach vs
    → All
        (λ v.
          award_to v.user_id (awards_for p actual format moment vs)
          ≡ as_award p moment v.user_id (owed p actual format v))
        vs
unfolding awards_for owed
award_to-awards_for p actual format moment [] h = tt
award_to-awards_for p actual format moment (v ∷ vs) h = (
  award_of-own p moment v (owed p actual format v) (awards_for p actual format moment vs)
      (no_award p actual format moment v.user_id vs h.0),
  All-map
      (λ w.
        (award_to w.user_id (awards_for p actual format moment vs)
          ≡ as_award p moment w.user_id (owed p actual format w))
        × ((w.user_id == v.user_id) ≡ false))
      (λ w.
        award_to w.user_id (awards_for p actual format moment (v ∷ vs))
        ≡ as_award p moment w.user_id (owed p actual format w))
      (λ w k.
        award_of-other p moment v w.user_id (owed p actual format v)
          (awards_for p actual format moment vs) k.1
        ∙ k.0)
      vs
      (All-zip
        (λ w.
          award_to w.user_id (awards_for p actual format moment vs)
          ≡ as_award p moment w.user_id (owed p actual format w))
        (λ w. (w.user_id == v.user_id) ≡ false) vs
        (award_to-awards_for p actual format moment vs h.1) (none_equal v.user_id vs h.0)),
)

owed_bounds :
    (p : Poll) (actual : MatchScore) (format : SeriesFormat) (v : Vote) (n : ℕ) (k : AwardKind)
    → 0 < format.size
    → owed p actual format v ≡ some (n, k)
    → (0 < n) × (n ≤ exact_points format)
unfolding owed predicted_award
owed_bounds p actual format v n k h e = elim (Option-cases (option_at v.option_index p.options)) [
  | inl no_option ↦ ground (arith, sym (ap (λ o. predicted_award o actual format) no_option) ∙ e)
  | inr (o, found) ↦
      calculate_bounds o.result actual format h
        (sym (ap (λ o. predicted_award o actual format) found) ∙ e)
]

award_of-All :
    (P : Award → Type 0) (p : Poll) (moment : ℕ) (v : Vote) (o : Option (ℕ × AwardKind))
    (rest : List Award)
    → ((n : ℕ) (k : AwardKind)
        → o ≡ some (n, k)
        → P (record {
          poll_id = p.id;
          user_id = v.user_id;
          points = n;
          kind = k;
          awarded_at = moment;
        }))
    → All P rest
    → All P (award_of v p moment o rest)
unfolding award_of
award_of-All P p moment v none rest f h = h
award_of-All P p moment v (some (n, k)) rest f h = (f n k refl, h)

pub awards_for-own :
    (p : Poll) (actual : MatchScore) (format : SeriesFormat) (moment : ℕ) (vs : List Vote)
    → All (λ a. a.poll_id ≡ p.id) (awards_for p actual format moment vs)
unfolding awards_for owed
awards_for-own p actual format moment [] = tt
awards_for-own p actual format moment (v ∷ vs) =
    award_of-All (λ a. a.poll_id ≡ p.id) p moment v (owed p actual format v)
      (awards_for p actual format moment vs) (λ n k e. refl)
      (awards_for-own p actual format moment vs)

-- In a series of positive size, every award is for this poll and is worth a point or more, as the
-- table's constraint asks, and no more than an exact hit.
pub awards_for_pos :
    (p : Poll) (actual : MatchScore) (format : SeriesFormat) (moment : ℕ) (vs : List Vote)
    → 0 < format.size
    → All
        (λ a. (a.poll_id ≡ p.id) × (0 < a.points) × (a.points ≤ exact_points format))
        (awards_for p actual format moment vs)
unfolding awards_for owed
awards_for_pos p actual format moment [] h = tt
awards_for_pos p actual format moment (v ∷ vs) h =
    award_of-All (λ a. (a.poll_id ≡ p.id) × (0 < a.points) × (a.points ≤ exact_points format)) p
      moment v (owed p actual format v) (awards_for p actual format moment vs)
      (λ n k e. ground (arith, owed_bounds p actual format v n k h e))
      (awards_for_pos p actual format moment vs h)

not-own :
    (poll_id : ℕ) (old : List Award)
    → All (λ a. a.poll_id ≡ poll_id) old
    → keep_if (λ a. not (a.poll_id == poll_id)) old ≡ []
not-own poll_id [] h = refl
not-own poll_id (a ∷ old) h = ground (arith, not-own poll_id old)

pub kept_twice :
    (poll_id : ℕ) (table old : List Award)
    → All (λ a. a.poll_id ≡ poll_id) old
    → keep_if
        (λ a. not (a.poll_id == poll_id))
        (keep_if (λ a. not (a.poll_id == poll_id)) table ++ old)
      ≡ keep_if (λ a. not (a.poll_id == poll_id)) table
kept_twice poll_id [] old h = not-own poll_id old h
kept_twice poll_id (a ∷ table) old h = ground (arith, kept_twice poll_id table old)

-- A second settlement leaves nothing of the first, whose awards are the poll's: the table is as
-- after the second alone.
pub replace_awards-again :
    (poll_id : ℕ) (old new table : List Award)
    → All (λ a. a.poll_id ≡ poll_id) old
    → replace_awards poll_id new (replace_awards poll_id old table)
      ≡ replace_awards poll_id new table
unfolding replace_awards
replace_awards-again poll_id old new table h = ap (λ x. x ++ new) (kept_twice poll_id table old h)
