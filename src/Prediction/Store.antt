-- ===== src/Prediction/Store.antt =====
-- internal/adapter/postgres/prediction.go: the statements of the repository over the tables of
-- migrations 0001 and 0022, with the constraints that they declare.
use text.Mathlib.Text.{◌==◌ as str_eq}
use cs2_predictor.Base.Sort.{stable_sort}
use cs2_predictor.Prediction.Effects.{OptionRow, Store, PollRow}
use cs2_predictor.Base.{
  Result, ◌∷◌, if◌then◌else◌, String, Error, any, some, Option, ◌||◌, ℕ, error, none, List, ◌==◌,
  false, ◌++◌, err, not, ok, [], ◌&&◌, Bool, ltb,
}
use cs2_predictor.Prediction.Poll.{Poll, PollOption}
use cs2_predictor.Competition.Series.{score_eq}

abbrev pub violation : Error
violation = error "unique constraint violated"

unfoldable pub null_if_empty : String → Option String
null_if_empty s = if str_eq s "" then none else some s

unfoldable pub null_if_zero : ℕ → Option ℕ
null_if_zero id = if id == 0 then none else some id

unfoldable pub or_zero : Option ℕ → ℕ
or_zero none = 0
or_zero (some id) = id

unfoldable pub or_empty : Option String → String
or_empty none = ""
or_empty (some s) = s

unfoldable pub has_id : ℕ → PollRow → Bool
has_id id r = r.id == id

unfoldable pub row_of : ℕ → List PollRow → Option PollRow
row_of id [] = none
row_of id (r ∷ rs) = if r.id == id then some r else row_of id rs

-- `SELECT option_index, first_score, second_score … ORDER BY option_index`.
unfoldable pub by_index : PollOption → PollOption → Bool
by_index a b = ltb a.index b.index

unfoldable pub options_of : ℕ → List OptionRow → List PollOption
options_of id [] = []
options_of id (o ∷ os) =
    let rest = options_of id os in if o.poll_id == id then o.option ∷ rest else rest

unfoldable pub load_options : ℕ → Store → List PollOption
unfolding options_of by_index
load_options id s = stable_sort by_index (options_of id s.options)

-- The scanned row with its options: `scanPoll`, `applyPollTeamAnchor`, `coalesce(stream_url, '')`.
unfoldable pub to_poll : PollRow → List PollOption → Poll
unfolding or_zero or_empty
to_poll r options = record {
  id = r.id;
  chat_id = r.chat_id;
  match_id = r.match_id;
  topic_id = r.topic_id;
  telegram_poll_id = r.telegram_poll_id;
  telegram_message_id = r.telegram_message_id;
  stream_url = or_empty r.stream_url;
  options = options;
  status = r.status;
  closes_at = r.closes_at;
  first_team_id = or_zero r.first_team_id;
  second_team_id = or_zero r.second_team_id;
}

-- The row that `INSERT INTO match_poll` would add.
unfoldable pub new_row : Poll → PollRow
unfolding null_if_zero null_if_empty
new_row p = record {
  id = p.id;
  chat_id = p.chat_id;
  match_id = p.match_id;
  topic_id = p.topic_id;
  telegram_poll_id = p.telegram_poll_id;
  telegram_message_id = p.telegram_message_id;
  status = p.status;
  closes_at = p.closes_at;
  first_team_id = null_if_zero p.first_team_id;
  second_team_id = null_if_zero p.second_team_id;
  stream_url = null_if_empty p.stream_url;
  reminded_at = none;
}

-- `ON CONFLICT (id) DO UPDATE`: the team anchor, the chat and the match stay.
unfoldable pub updated_row : Poll → PollRow → PollRow
unfolding null_if_empty
updated_row p r = record r {
  topic_id = p.topic_id;
  telegram_poll_id = p.telegram_poll_id;
  telegram_message_id = p.telegram_message_id;
  status = p.status;
  closes_at = p.closes_at;
  stream_url = null_if_empty p.stream_url;
}

unfoldable pub same_text : Option String → Option String → Bool
same_text none t = false
same_text (some s) none = false
same_text (some s) (some t) = str_eq s t

-- UNIQUE (telegram_poll_id) against the other rows, and UNIQUE (chat_id, match_id).
unfoldable pub clashes_telegram : Poll → PollRow → Bool
unfolding same_text
clashes_telegram p r = not (r.id == p.id) && same_text r.telegram_poll_id p.telegram_poll_id

unfoldable pub clashes_match : Poll → PollRow → Bool
clashes_match p r = r.chat_id == p.chat_id && r.match_id == p.match_id

unfoldable pub write_row : (PollRow → PollRow) → ℕ → List PollRow → List PollRow
write_row f id [] = []
write_row f id (r ∷ rs) =
    let rest = write_row f id rs in if r.id == id then f r ∷ rest else r ∷ rest

unfoldable pub upsert_poll : Poll → Store → Result Store
upsert_poll p s =
    if any (clashes_telegram p) s.polls
    then err violation
    else if any (has_id p.id) s.polls
    then ok (record s { polls = write_row (updated_row p) p.id s.polls })
    else if any (clashes_match p) s.polls
    then err violation
    else ok (record s { polls = s.polls ++ new_row p ∷ [] })

-- PRIMARY KEY (poll_id, option_index), UNIQUE (poll_id, first_score, second_score).
unfoldable pub clashes_option : ℕ → PollOption → OptionRow → Bool
clashes_option id o r =
    r.poll_id == id && (r.option.index == o.index || score_eq r.option.result o.result)

unfoldable pub insert_option : ℕ → PollOption → Store → Result Store
unfolding clashes_option
insert_option id o s =
    if any (clashes_option id o) s.options
    then err violation
    else ok (record s { options = s.options ++ record { poll_id = id; option = o } ∷ [] })
