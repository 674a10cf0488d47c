-- ===== src/Prediction/Repository.antt =====
-- internal/adapter/postgres/prediction.go: the methods of `PredictionRepository`, each a sequence of
-- statements. Rows come in the order of insertion where the SQL asks for no order.
use cs2_predictor.Base.Sort.{stable_sort}
use cs2_predictor.Prediction.Effects.{
  ◌>>=◌, ◌>>◌, Env, OptionRow, M, PollRow, VoteRow, pure, UserRow, Store, query, exec,
}
use cs2_predictor.Base.{
  leb, some, map, take, ok, ℕ, ◌==◌, none, error, Result, ℤ, [], suc, not, negsuc, ◌&&◌, false,
  keep_if, List, err, length, Bool, true, String, pos, any, zero, if◌then◌else◌, Option, find_first,
  ltb, ◌∷◌,
}
use cs2_predictor.Prediction.Store.{
  options_of, write_row, to_poll, insert_option, upsert_poll, load_options, has_id, same_text,
}
use cs2_predictor.Prediction.Poll.{PollOption, Poll, Vote, is_open}

module _ (env : Env) where
  -- `scanPoll`: the first row that passes, then its options.
  unfoldable pub load_row : Option PollRow → M (Option Poll)
  load_row none = pure none
  load_row (some r) = query env (λ s. some (to_poll r (load_options r.id s)))

  unfoldable pub scan_poll : (PollRow → Bool) → M (Option Poll)
  scan_poll test = query env (λ s. find_first test s.polls) >>= load_row

  unfoldable pub find_by_telegram_poll_id : String → M (Option Poll)
  find_by_telegram_poll_id id = scan_poll (λ r. same_text r.telegram_poll_id (some id))

  unfoldable pub find_by_match_and_chat : ℕ → ℕ → M (Option Poll)
  find_by_match_and_chat match_id chat_id =
      scan_poll (λ r. r.match_id == match_id && r.chat_id == chat_id)

  unfoldable pub find_poll : ℕ → M (Option Poll)
  find_poll id = scan_poll (has_id id)

  unfoldable pub attach : List PollRow → Store → List Poll
  attach rows s = map (λ r. to_poll r (load_options r.id s)) rows

  -- `queryPolls`: the rows, then the options of all of them.
  unfoldable pub with_options : List PollRow → M (List Poll)
  with_options [] = pure []
  with_options (r ∷ rs) = query env (attach (r ∷ rs))

  unfoldable pub query_polls : (List PollRow → List PollRow) → M (List Poll)
  query_polls select = query env (λ s. select s.polls) >>= with_options

  unfoldable pub open_polls_for_match : ℕ → M (List Poll)
  open_polls_for_match match_id =
      query_polls (keep_if (λ r. r.match_id == match_id && is_open r.status))

  unfoldable pub polls_for_match : ℕ → M (List Poll)
  polls_for_match match_id = query_polls (keep_if (λ r. r.match_id == match_id))

  unfoldable pub open_polls_due : ℕ → M (List Poll)
  open_polls_due at = query_polls (keep_if (λ r. is_open r.status && leb r.closes_at at))

  unfoldable pub awaits_reminder : ℕ → PollRow → Bool
  awaits_reminder closing_before r =
      is_open r.status
      && elim r.reminded_at [ none ↦ true | some t ↦ false ]
      && leb r.closes_at closing_before

  unfoldable pub closes_sooner : PollRow → PollRow → Bool
  closes_sooner a b = ltb a.closes_at b.closes_at

  unfoldable pub polls_awaiting_reminder : ℕ → ℤ → M (List Poll)
  unfolding query_polls awaits_reminder closes_sooner
  polls_awaiting_reminder closing_before (pos (suc n)) = query_polls (λ rows.
      take (suc n) (stable_sort closes_sooner (keep_if (awaits_reminder closing_before) rows)))
  polls_awaiting_reminder closing_before (pos zero) = pure []
  polls_awaiting_reminder closing_before (negsuc n) = pure []

  -- `SET reminded_at = $2 WHERE id = $1 AND reminded_at IS NULL`.
  unfoldable pub stamp : ℕ → PollRow → PollRow
  stamp at r = record r { reminded_at = elim r.reminded_at [ none ↦ some at | some t ↦ some t ] }

  unfoldable pub mark_reminded : ℕ → ℕ → M (Unit {0})
  unfolding stamp
  mark_reminded id at = exec env (λ s. ok (record s { polls = write_row (stamp at) id s.polls }))

  unfoldable pub mark_poll_stream_announced : ℕ → String → M (Unit {0})
  mark_poll_stream_announced id url = exec env (λ s.
      ok (record s { polls = write_row (λ r. record r { stream_url = some url }) id s.polls }))

  unfoldable pub insert_options : ℕ → List PollOption → M (Unit {0})
  insert_options id [] = pure tt
  insert_options id (o ∷ os) = exec env (insert_option id o) >> insert_options id os

  -- Options are written once: only for a poll that has none.
  unfoldable pub write_options : Poll → ℕ → M Poll
  write_options p existing =
      (if existing == 0 then insert_options p.id p.options else pure tt) >> pure p

  unfoldable pub save_options : Poll → M Poll
  save_options p = query env (λ s. length (options_of p.id s.options)) >>= write_options p

  unfoldable pub save_poll : Poll → M Poll
  save_poll p = exec env (upsert_poll p) >> save_options p

  unfoldable pub put_user : Vote → List UserRow → List UserRow
  put_user v [] =
      record { id = v.user_id; username = v.username; display_name = v.display_name } ∷ []
  put_user v (u ∷ us) =
      if u.id == v.user_id
      then record u { username = v.username; display_name = v.display_name } ∷ us
      else u ∷ put_user v us

  unfoldable pub put_vote : Vote → List VoteRow → List VoteRow
  put_vote v [] =
      record {
        poll_id = v.poll_id;
        user_id = v.user_id;
        option_index = v.option_index;
        voted_at = v.voted_at;
      }
      ∷ []
  put_vote v (r ∷ rs) =
      if r.poll_id == v.poll_id && r.user_id == v.user_id
      then record r { option_index = v.option_index; voted_at = v.voted_at } ∷ rs
      else r ∷ put_vote v rs

  -- FOREIGN KEY (poll_id, option_index) REFERENCES poll_option.
  unfoldable pub is_option : ℕ → ℕ → OptionRow → Bool
  is_option poll_id index r = r.poll_id == poll_id && r.option.index == index

  unfoldable pub upsert_vote : Vote → Store → Result Store
  unfolding put_vote is_option
  upsert_vote v s =
      if any (is_option v.poll_id v.option_index) s.options
      then ok (record s { votes = put_vote v s.votes })
      else err (error "foreign key violated")

  unfoldable pub save_vote : Vote → M (Unit {0})
  unfolding put_user upsert_vote
  save_vote v =
      exec env (λ s. ok (record s { users = put_user v s.users })) >> exec env (upsert_vote v)

  unfoldable pub is_vote : ℕ → ℕ → VoteRow → Bool
  is_vote poll_id user_id r = r.poll_id == poll_id && r.user_id == user_id

  unfoldable pub drop_vote : ℕ → ℕ → Store → Result Store
  drop_vote poll_id user_id s =
      ok (record s { votes = keep_if (λ r. not (is_vote poll_id user_id r)) s.votes })

  unfoldable pub remove_vote : ℕ → ℕ → M (Unit {0})
  unfolding drop_vote
  remove_vote poll_id user_id = exec env (drop_vote poll_id user_id)
