-- ===== src/Prediction/Service.antt =====
-- internal/domain/prediction/service.go: `Service`.
use cs2_predictor.Prediction.Effects.{
  ◌>>=◌, ◌>>◌, pure, fresh_id, gateway_cancel, now, gateway_close, World, Env, gateway_send, fail,
  M,
}
use cs2_predictor.Base.{
  suc, List, err, Option, [], not, ltb, Error, ok, length, ◌∷◌, some, ◌||◌, Result, if◌then◌else◌,
  error, none, ℕ, String, Bool, ◌&&◌,
}
use cs2_predictor.Prediction.Poll.{
  poll_cancelled, PollOption, poll_open, poll_closed, PollStatus, is_open, option_at, SentPoll,
  Poll, Vote,
}
use cs2_predictor.Prediction.Repository.{
  find_by_match_and_chat, open_polls_for_match, save_vote, open_polls_due, find_by_telegram_poll_id,
  remove_vote, save_poll,
}
use cs2_predictor.Competition.Series.{MatchScore, possible_scores}
use cs2_predictor.Competition.Catalog.{Team, participants_known, Match}

-- `(count, errors.Join(errs...))`: the polls done, and the failures with their polls.
pub record Batch : Type 0 where
  pub count : ℕ
  pub failed : List (ℕ × Error)

abbrev pub nothing_done : Batch
nothing_done = record { count = 0; failed = [] }

abbrev pub tally : ℕ → Result (Unit {0}) → Batch → Batch
tally id (ok u) b = record b { count = suc b.count }
tally id (err e) b = record b { failed = (id, e) ∷ b.failed }

-- One poll moved and the rest done, or the batch ends here.
abbrev pub moved_or : ℕ → Result Poll → World → Batch × World → Batch × World
moved_or id (ok q) w rest = (record rest.0 { count = suc rest.0.count }, rest.1)
moved_or id (err e) w rest = (record { count = 0; failed = (id, e) ∷ [] }, w)

-- A batch over polls that could be listed.
abbrev pub run_batch :
    (List Poll → World → Batch × World) → Result (List Poll) → World → Result Batch × World
run_batch f (ok ps) w = (ok (f ps w).0, (f ps w).1)
run_batch f (err e) w = (err e, w)

unfoldable pub number_from : ℕ → List MatchScore → List PollOption
number_from i [] = []
number_from i (s ∷ ss) = record { index = i; result = s } ∷ number_from (suc i) ss

unfoldable pub team_id : Option Team → ℕ
team_id none = 0
team_id (some t) = t.id

unfoldable pub draft : Match → ℕ → Option ℕ → ℕ → ℕ → Poll
unfolding number_from team_id
draft m chat_id topic_id at id = record {
  id = id;
  chat_id = chat_id;
  match_id = m.id;
  topic_id = topic_id;
  telegram_poll_id = none;
  telegram_message_id = none;
  stream_url = "";
  options = number_from 0 (possible_scores m.format);
  status = poll_open;
  closes_at = at;
  first_team_id = team_id m.first_team;
  second_team_id = team_id m.second_team;
}

unfoldable pub after_send : Poll → SentPoll → Poll
after_send p s = record p {
  telegram_poll_id = some s.poll_id;
  telegram_message_id = some s.message_id;
  topic_id = s.topic_id;
}

unfoldable pub vote_of : Poll → ℕ → ℕ → Option String → String → ℕ → Vote
vote_of p user_id o username name t = record {
  poll_id = p.id;
  user_id = user_id;
  option_index = o;
  username = username;
  display_name = name;
  voted_at = t;
}

-- Telegram's limits on the number of options.
abbrev pub fits_telegram : ℕ → Bool
fits_telegram n = not (ltb n 2 || ltb 12 n)

module _ (env : Env) where
  -- The draft is stored, sent, and stored again with what Telegram answered.
  unfoldable pub send_stored : Poll → M Poll
  send_stored stored = gateway_send env stored >>= λ s. save_poll env (after_send stored s)

  unfoldable pub create_as : Match → ℕ → Option ℕ → ℕ → ℕ → M Poll
  create_as m chat_id topic_id at id =
      save_poll env (draft m chat_id topic_id at id) >>= send_stored

  unfoldable pub create_new : Match → ℕ → Option ℕ → ℕ → M Poll
  create_new m chat_id topic_id at =
      if fits_telegram (length (possible_scores m.format))
      then fresh_id env >>= create_as m chat_id topic_id at
      else fail (error "telegram polls support between 2 and 12 options")

  unfoldable pub create_unless : Match → ℕ → Option ℕ → ℕ → Option Poll → M Poll
  create_unless m chat_id topic_id at (some p) = pure p
  create_unless m chat_id topic_id at none = create_new m chat_id topic_id at

  unfoldable pub create_at : Match → ℕ → Option ℕ → Option ℕ → ℕ → M Poll
  create_at m chat_id topic_id none t = fail (error "match must be scheduled in the future")
  create_at m chat_id topic_id (some at) t =
      if ltb t at
      then find_by_match_and_chat env m.id chat_id >>= create_unless m chat_id topic_id at
      else fail (error "match must be scheduled in the future")

  unfoldable pub create : Match → ℕ → Option ℕ → M Poll
  create m chat_id topic_id =
      if participants_known m
      then now env >>= create_at m chat_id topic_id m.scheduled_at
      else fail (error "both participants must be known")

  -- `poll.Status != PollOpen || !now.Before(poll.ClosesAt)` is false.
  abbrev pub takes_votes : Poll → ℕ → Bool
  takes_votes p t = is_open p.status && ltb t p.closes_at

  -- One option is a vote if it is one of the poll's; any other number of them withdraws.
  unfoldable pub save_valid : Poll → Vote → Option PollOption → M (Unit {0})
  save_valid p v none = pure tt
  save_valid p v (some o) = save_vote env v

  unfoldable pub apply_vote : Poll → ℕ → List ℕ → Option String → String → ℕ → M (Unit {0})
  apply_vote p user_id [] username name t = remove_vote env p.id user_id
  apply_vote p user_id (o ∷ []) username name t =
      save_valid p (vote_of p user_id o username name t) (option_at o p.options)
  apply_vote p user_id (a ∷ b ∷ os) username name t = remove_vote env p.id user_id

  unfoldable pub vote_at : Poll → ℕ → List ℕ → Option String → String → ℕ → M (Unit {0})
  vote_at p user_id option_ids username name t =
      if takes_votes p t then apply_vote p user_id option_ids username name t else pure tt

  unfoldable pub vote_on : ℕ → List ℕ → Option String → String → Option Poll → M (Unit {0})
  vote_on user_id option_ids username name none = pure tt
  vote_on user_id option_ids username name (some p) =
      now env >>= vote_at p user_id option_ids username name

  unfoldable pub record_vote : String → ℕ → List ℕ → Option String → String → M (Unit {0})
  record_vote telegram_poll_id user_id option_ids username name =
      find_by_telegram_poll_id env telegram_poll_id >>= vote_on user_id option_ids username name

  -- The loops that go on after a failure.
  unfoldable pub run_each : (Poll → M (Unit {0})) → List Poll → World → Batch × World
  run_each f [] w = (nothing_done, w)
  run_each f (p ∷ ps) w =
      let rest = run_each f ps (f p w).1 in (tally p.id (f p w).0 rest.0, rest.1)

  -- The poll is marked only after Telegram agreed.
  unfoldable pub close_with : (Poll → M (Unit {0})) → PollStatus → Poll → M (Unit {0})
  close_with gateway status p =
      gateway p >> (do saved ← save_poll env (record p { status = status }); pure tt)

  unfoldable pub each_of : M (List Poll) → (Poll → M (Unit {0})) → M Batch
  unfolding run_each
  each_of polls f w = run_batch (run_each f) (polls w).0 (polls w).1

  unfoldable pub close_due : ℕ → M Batch
  unfolding each_of close_with
  close_due at = each_of (open_polls_due env at) (close_with (gateway_close env) poll_closed)

  unfoldable pub close_for_running_match : ℕ → M Batch
  unfolding each_of close_with
  close_for_running_match match_id =
      each_of (open_polls_for_match env match_id) (close_with (gateway_close env) poll_closed)

  unfoldable pub cancel_for_match : ℕ → M Batch
  unfolding each_of close_with
  cancel_for_match match_id =
      each_of (open_polls_for_match env match_id) (close_with (gateway_cancel env) poll_cancelled)

  -- Stops at the first failure.
  unfoldable pub move_each : ℕ → List Poll → World → Batch × World
  move_each closes_at [] w = (nothing_done, w)
  move_each closes_at (p ∷ ps) w =
      let saved = save_poll env (record p { closes_at = closes_at }) w in
      moved_or p.id saved.0 saved.1 (move_each closes_at ps saved.1)

  unfoldable pub reschedule : ℕ → ℕ → M Batch
  unfolding move_each
  reschedule match_id closes_at w =
      run_batch (move_each closes_at) (open_polls_for_match env match_id w).0
        (open_polls_for_match env match_id w).1
