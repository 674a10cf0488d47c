-- ===== src/Examples/Data.antt =====
-- Two teams, a match between them, a poll on it, and a world in which nothing fails.
use cs2_predictor.Competition.Series.{score, best_of, SeriesFormat}
use cs2_predictor.Base.{
  none, ℕ, String, [], ok, ◌+◌, ◌∷◌, true, some, leb, ◌==◌, ◌&&◌, if◌then◌else◌,
}
use cs2_predictor.Competition.Catalog.{Stream, Team, Match, match_finished}
use cs2_predictor.Prediction.Effects.{PollRow, World, Env}
use cs2_predictor.Prediction.Poll.{Poll, Vote, poll_open}
use cs2_predictor.Enrichment.Names.{Unicode}

abbrev pub team : ℕ → String → Team
team id name = record {
  id = id;
  name = name;
  external_id = "";
  logo_url = "";
  hltv_logo_url = "";
  location = "";
  hltv_location = "";
}

abbrev pub spirit : Team
spirit = team 1 "Spirit"

abbrev pub vitality : Team
vitality = team 2 "Vitality"

abbrev pub bo3 : SeriesFormat
bo3 = record { kind = best_of; size = 3 }

abbrev pub english_stream : Stream
english_stream = record {
  language = "en";
  url = "https://twitch.tv/esl";
  main = true;
  official = true;
}

-- Spirit won the final 2-1.
abbrev pub final : Match
final = record {
  id = 10;
  event_id = 20;
  external_id = "77";
  first_team = some spirit;
  second_team = some vitality;
  stage = none;
  scheduled_at = some 1000;
  actual_started_at = some 1005;
  status = match_finished;
  format = bo3;
  result = some (score 2 1);
  stage_external_id = none;
  streams = english_stream ∷ [];
}

-- The poll names the teams the other way round.
abbrev pub final_poll : Poll
final_poll = record {
  id = 5;
  chat_id = 7;
  match_id = 10;
  topic_id = none;
  telegram_poll_id = some "tg";
  telegram_message_id = some 8;
  stream_url = "";
  options =
      record { index = 0; result = score 2 0 } ∷ record { index = 1; result = score 1 2 } ∷ [];
  status = poll_open;
  closes_at = 1000;
  first_team_id = 2;
  second_team_id = 1;
}

abbrev pub vote_by : ℕ → ℕ → Vote
vote_by user_id option_index = record {
  poll_id = 5;
  user_id = user_id;
  option_index = option_index;
  username = none;
  display_name = "fan";
  voted_at = 900;
}

abbrev pub quiet : Env
quiet = record {
  fault = λ n. none;
  clock = λ n. 100 + n;
  new_id = λ n. 50 + n;
  send = λ n p. ok (record { poll_id = "sent"; message_id = 3; topic_id = none });
  close = λ n p. none;
  cancel = λ n p. none;
}

abbrev pub final_row : PollRow
final_row = record {
  id = 5;
  chat_id = 7;
  match_id = 10;
  topic_id = none;
  telegram_poll_id = some "tg";
  telegram_message_id = some 8;
  status = poll_open;
  closes_at = 1000;
  first_team_id = some 2;
  second_team_id = some 1;
  stream_url = none;
  reminded_at = none;
}

-- The final's poll is stored.
abbrev pub one_poll : World
one_poll = record {
  store = record {
    polls = final_row ∷ [];
    options = record { poll_id = 5; option = record { index = 1; result = score 1 2 } } ∷ [];
    votes = [];
    users = [];
  };
  calls = 0;
  sent = [];
}

abbrev pub no_poll : World
no_poll = record {
  store = record { polls = []; options = []; votes = []; users = [] };
  calls = 0;
  sent = [];
}

-- Case and white space of ASCII.
abbrev pub ascii : Unicode
ascii = record {
  lower = λ c. if leb b'A' c && leb c b'Z' then c + 32 else c;
  is_space = λ c. c == b' ';
}
