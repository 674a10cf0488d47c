-- ===== src/Scoring/Settle.antt =====
-- internal/domain/scoring/service.go: `Settle` and `realignToPollTeamOrder`, over the table of
-- awards (`ReplaceAwards` of internal/adapter/postgres/scoring.go). What the queries answer is an
-- argument: the votes of the poll, and whether the statements of `ReplaceAwards` fail, in which case
-- the transaction around them leaves the table as it was.
pub mod Sides
pub mod Awards
use cs2_predictor.Base.{
  ℕ, err, Result, Option, some, none, ◌++◌, ◌&&◌, or_else, keep_if, List, error, not, [], ◌∷◌,
  if◌then◌else◌, Error, ◌==◌, ok,
}
use cs2_predictor.Competition.Series.{score, SeriesFormat, MatchScore, swap}
use cs2_predictor.Scoring.Points.{calculate, AwardKind}
use cs2_predictor.Prediction.Poll.{PollOption, option_at, Poll, Vote}
use cs2_predictor.Competition.Catalog.{Match, Team}

pub record Award : Type 0 where
  pub poll_id : ℕ
  pub user_id : ℕ
  pub points : ℕ
  pub kind : AwardKind
  pub awarded_at : ℕ

-- The test of `realignToPollTeamOrder` where both teams are known.
unfoldable pub realign_teams : MatchScore → Team → Team → Poll → MatchScore
realign_teams actual first second p =
    if p.first_team_id == 0
    then actual
    else if p.first_team_id == second.id && p.second_team_id == first.id
    then swap actual
    else actual

unfoldable pub realign_known : MatchScore → Option Team → Option Team → Poll → MatchScore
realign_known actual none second p = actual
realign_known actual (some first) none p = actual
realign_known actual (some first) (some second) p = realign_teams actual first second p

unfoldable pub realign_to_poll_team_order : MatchScore → Match → Poll → MatchScore
realign_to_poll_team_order actual m p = realign_known actual m.first_team m.second_team p

unfoldable pub award_of : Vote → Poll → ℕ → Option (ℕ × AwardKind) → List Award → List Award
award_of v p moment none rest = rest
award_of v p moment (some (n, k)) rest =
    record { poll_id = p.id; user_id = v.user_id; points = n; kind = k; awarded_at = moment } ∷ rest

unfoldable pub predicted_award :
    Option PollOption → MatchScore → SeriesFormat → Option (ℕ × AwardKind)
predicted_award none actual format = none
predicted_award (some o) actual format = calculate o.result actual format

-- The loop over the votes: a vote with no option, or with the wrong outcome, is skipped.
unfoldable pub awards_for : Poll → MatchScore → SeriesFormat → ℕ → List Vote → List Award
unfolding award_of predicted_award
awards_for p actual format moment [] = []
awards_for p actual format moment (v ∷ vs) =
    award_of v p moment (predicted_award (option_at v.option_index p.options) actual format)
      (awards_for p actual format moment vs)

-- DELETE the awards of the poll, INSERT the new ones.
unfoldable pub replace_awards : ℕ → List Award → List Award → List Award
replace_awards poll_id awards table = keep_if (λ a. not (a.poll_id == poll_id)) table ++ awards

-- ReplaceAwards, and what Settle returns.
store_awards : ℕ → List Award → Option Error → List Award → Result (List Award) × List Award
store_awards poll_id awards none table = (ok awards, replace_awards poll_id awards table)
store_awards poll_id awards (some e) table = (err e, table)

settle_votes :
    Match
    → Poll
    → MatchScore
    → Result (List Vote)
    → ℕ
    → Option Error
    → List Award
    → Result (List Award) × List Award
unfolding store_awards
settle_votes m p score (err e) moment fault table = (err e, table)
settle_votes m p score (ok votes) moment fault table =
    store_awards p.id (awards_for p (realign_to_poll_team_order score m p) m.format moment votes)
      fault table

settle_started :
    Match
    → Poll
    → MatchScore
    → Option ℕ
    → Result (List Vote)
    → ℕ
    → Option Error
    → List Award
    → Result (List Award) × List Award
unfolding settle_votes
settle_started m p score none votes moment fault table =
    (err (error "match start is required"), table)
settle_started m p score (some at) votes moment fault table =
    settle_votes m p score votes moment fault table

settle_scored :
    Match
    → Poll
    → Option MatchScore
    → Result (List Vote)
    → ℕ
    → Option Error
    → List Award
    → Result (List Award) × List Award
unfolding settle_started
settle_scored m p none votes moment fault table =
    (err (error "finished match must have a score"), table)
settle_scored m p (some score) votes moment fault table =
    settle_started m p score (or_else m.actual_started_at m.scheduled_at) votes moment fault table

unfoldable pub settle :
    Match
    → Poll
    → Result (List Vote)
    → ℕ
    → Option Error
    → List Award
    → Result (List Award) × List Award
unfolding settle_scored
settle m p votes moment fault table = settle_scored m p m.result votes moment fault table
