-- ===== src/Prediction/Poll.antt =====
-- internal/domain/prediction/prediction.go: polls, options and votes. Ids are numbers, the zero UUID
-- is 0, and a chat or user id, an int64, is the number of its bit pattern.
use cs2_predictor.Base.{
  ℕ, List, true, Bool, ◌==◌, ◌∷◌, [], if◌then◌else◌, some, none, Option, false, String,
}
use cs2_predictor.Competition.Series.{MatchScore}

pub data PollStatus : Type 0 where
  poll_open poll_closed poll_cancelled : PollStatus
  other_poll_status : String → PollStatus

pub record PollOption : Type 0 where
  pub index : ℕ
  pub result : MatchScore

pub record Poll : Type 0 where
  pub id : ℕ
  pub chat_id : ℕ
  pub match_id : ℕ
  pub topic_id : Option ℕ
  pub telegram_poll_id : Option String
  pub telegram_message_id : Option ℕ
  pub stream_url : String
  pub options : List PollOption
  pub status : PollStatus
  pub closes_at : ℕ
  pub first_team_id : ℕ
  pub second_team_id : ℕ

pub record Vote : Type 0 where
  pub poll_id : ℕ
  pub user_id : ℕ
  pub option_index : ℕ
  pub username : Option String
  pub display_name : String
  pub voted_at : ℕ

pub record SentPoll : Type 0 where
  pub poll_id : String
  pub message_id : ℕ
  pub topic_id : Option ℕ

abbrev pub is_open : PollStatus → Bool
is_open poll_open = true
is_open poll_closed = false
is_open poll_cancelled = false
is_open (other_poll_status s) = false

-- The first option with the index, as the loops over `poll.Options` find it.
unfoldable pub option_at : ℕ → List PollOption → Option PollOption
option_at i [] = none
option_at i (o ∷ os) = if o.index == i then some o else option_at i os
