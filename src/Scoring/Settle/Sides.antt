-- ===== src/Scoring/Settle/Sides.antt =====
-- Settlement does not depend on the order in which the provider names the two teams.
use cs2_predictor.Base.{
  ℕ, List, or_else, ok, ◌≢◌, Error, none, ◌==◌, Result, refl, ◌<◌, err, arith, if◌then◌else◌, ◌⊎◌,
  ap, Option, some, ◌≡◌,
}
use cs2_predictor.Scoring.Settle.{
  realign_to_poll_team_order, store_awards, settle_started, realign_teams, settle_votes,
  settle_scored, realign_known, awards_for, settle, Award,
}
use cs2_predictor.Competition.Catalog.{Team, Match}
use cs2_predictor.Prediction.Poll.{Vote, Poll}
use cs2_predictor.Competition.Series.{MatchScore, swap}

-- The match as the provider tells it with the teams the other way round.
abbrev pub flip_result : Option MatchScore → Option MatchScore
flip_result none = none
flip_result (some s) = some (swap s)

abbrev pub flip : Match → Match
flip m = record m {
  first_team = m.second_team;
  second_team = m.first_team;
  result = flip_result m.result;
}

-- The maps that the team with this id won.
abbrev pub maps_of : ℕ → MatchScore → Team → Team → ℕ
maps_of id s first second = if id == first.id then s.first else s.second

-- The poll is about the two teams of the match, in one order or the other.
abbrev pub IsAnchored : Poll → Team → Team → Type 0
IsAnchored p first second =
    (0 < p.first_team_id)
    × (first.id ≢ second.id)
    × (((p.first_team_id ≡ first.id) × (p.second_team_id ≡ second.id))
        ⊎ ((p.first_team_id ≡ second.id) × (p.second_team_id ≡ first.id)))

-- For a poll anchored to the two teams of the match, the score that the votes are held against gives
-- each of the poll's teams the maps that it won.
pub realign-maps :
    (s : MatchScore) (m : Match) (p : Poll) (first second : Team)
    → m.first_team ≡ some first
    → m.second_team ≡ some second
    → IsAnchored p first second
    → ((realign_to_poll_team_order s m p).first ≡ maps_of p.first_team_id s first second)
      × ((realign_to_poll_team_order s m p).second ≡ maps_of p.second_team_id s first second)
unfolding realign_to_poll_team_order realign_known realign_teams
realign-maps s m p first second e f a = ground arith

realign-flip :
    (s : MatchScore) (m : Match) (p : Poll) (first second : Team)
    → m.first_team ≡ some first
    → m.second_team ≡ some second
    → IsAnchored p first second
    → realign_to_poll_team_order (swap s) (flip m) p ≡ realign_to_poll_team_order s m p
unfolding realign_to_poll_team_order realign_known realign_teams
realign-flip s m p first second e f a = ground arith

-- Where both teams are known, they differ, and the poll is anchored to them in either order, settling
-- it gives one result, error and table of awards whichever team the provider names first.
pub settle-flip :
    (m : Match) (p : Poll) (first second : Team) (votes : Result (List Vote)) (moment : ℕ)
    (fault : Option Error) (table : List Award)
    → m.first_team ≡ some first
    → m.second_team ≡ some second
    → IsAnchored p first second
    → settle (flip m) p votes moment fault table ≡ settle m p votes moment fault table
unfolding settle
settle-flip m p first second votes moment fault table e f a = go m.result
  where
    voted :
        (s : MatchScore) (r : Result (List Vote))
        → settle_votes (flip m) p (swap s) r moment fault table
          ≡ settle_votes m p s r moment fault table
    voted s (err x) = refl
    voted s (ok vs) =
        ap (λ (t : MatchScore). store_awards p.id (awards_for p t m.format moment vs) fault table)
          (realign-flip s m p first second e f a)

    started :
        (s : MatchScore) (o : Option ℕ)
        → settle_started (flip m) p (swap s) o votes moment fault table
          ≡ settle_started m p s o votes moment fault table
    started s none = refl
    started s (some at) = voted s votes

    go :
        (r : Option MatchScore)
        → settle_scored (flip m) p (flip_result r) votes moment fault table
          ≡ settle_scored m p r votes moment fault table
    go none = refl
    go (some s) = started s (or_else m.actual_started_at m.scheduled_at)
