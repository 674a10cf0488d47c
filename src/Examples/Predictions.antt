-- ===== src/Examples/Predictions.antt =====
-- Polls and votes: the theorems at concrete inputs.
use cs2_predictor.Prediction.Lifecycle.{Evolves}
use cs2_predictor.Prediction.Store.{
  options_of, same_text, to_poll, upsert_poll, or_zero, or_empty, by_index, load_options,
  clashes_option, null_if_zero, updated_row, new_row, null_if_empty, has_id, write_row,
  clashes_match, insert_option, row_of, clashes_telegram,
}
use cs2_predictor.Prediction.Creation.{create_ok, IsPollOf}
use cs2_predictor.Base.{refl, ◌∷◌, ◌≡◌, Result, some, [], ok, none}
use cs2_predictor.Prediction.VoteFrames.{VoteFrame, record_vote-VoteFrame}
use cs2_predictor.Prediction.Effects.{World}
use cs2_predictor.Prediction.Service.{
  number_from, cancel_for_match, vote_on, save_valid, vote_at, create, apply_vote,
  close_for_running_match, vote_of, close_due, reschedule, record_vote, create_as, send_stored,
  team_id, create_at, create_new, create_unless, after_send, draft,
}
use cs2_predictor.Prediction.Transitions.{transitions-Evolve}
use cs2_predictor.Prediction.Poll.{option_at, poll_open, Poll}
use cs2_predictor.Prediction.Repository.{
  scan_poll, load_row, find_by_telegram_poll_id, save_vote, put_user, put_vote, upsert_vote,
  find_by_match_and_chat, save_poll, insert_options, write_options, save_options,
}
use cs2_predictor.Prediction.Voting.{record_vote_ok, read_as, vote_row, vote_after, named_row}
use cs2_predictor.Examples.Data.{final_poll, bo3, quiet, final_row, no_poll, final, one_poll}
use cs2_predictor.Competition.Series.{
  possible_scores, splits, race_to, first_reaches, score_eq, scores_of, second_reaches,
}
use cs2_predictor.Prediction.Rows.{DistinctIds}
use cs2_predictor.Competition.Catalog.{participants_known}
use cs2_predictor.Base.Sort.{stable_sort}

abbrev voted_run : Result (Unit {0}) × World
voted_run = record_vote quiet "tg" 31 (1 ∷ []) none "fan" one_poll

named : named_row quiet "tg" one_poll.store ≡ some final_row
unfolding same_text
named = refl

vote_goes_through : voted_run.0 ≡ ok tt
unfolding record_vote find_by_telegram_poll_id scan_poll load_row to_poll vote_on vote_at apply_vote
    save_valid save_vote upsert_vote vote_of option_at same_text load_options options_of by_index
    put_user put_vote or_empty or_zero stable_sort
vote_goes_through = refl

record_vote_ok_example :
    vote_row 5 31 voted_run.1.store
    ≡ vote_after quiet
        (read_as quiet final_row one_poll.store)
        31
        (1 ∷ [])
        102
        (vote_row 5 31 one_poll.store)
record_vote_ok_example =
    record_vote_ok quiet "tg" 31 (1 ∷ []) none "fan" one_poll final_row named vote_goes_through

record_vote-VoteFrame_example : VoteFrame quiet 5 31 one_poll.store voted_run.1.store
record_vote-VoteFrame_example =
    record_vote-VoteFrame quiet "tg" 31 (1 ∷ []) none "fan" one_poll final_row named

one_poll_DistinctIds : DistinctIds one_poll.store
one_poll_DistinctIds = (tt, tt)

abbrev made : Poll
made = record {
  id = 52;
  chat_id = 7;
  match_id = 10;
  topic_id = none;
  telegram_poll_id = some "sent";
  telegram_message_id = some 3;
  stream_url = "";
  options = number_from 0 (possible_scores bo3);
  status = poll_open;
  closes_at = 1000;
  first_team_id = 1;
  second_team_id = 2;
}

poll_is_made : (create quiet final 7 none no_poll).0 ≡ ok made
unfolding create participants_known create_at find_by_match_and_chat scan_poll load_row
    create_unless create_new possible_scores scores_of create_as save_poll upsert_poll save_options
    write_options options_of insert_options draft stable_sort first_reaches race_to score_eq
    second_reaches splits after_send number_from send_stored team_id by_index clashes_match
    clashes_option clashes_telegram has_id insert_option load_options new_row null_if_empty
    null_if_zero or_empty or_zero same_text to_poll updated_row write_row row_of
poll_is_made = refl

create_ok_example : IsPollOf final 7 made
create_ok_example = create_ok quiet final 7 none no_poll made refl poll_is_made

upserted : upsert_poll final_poll one_poll.store ≡ ok one_poll.store
unfolding upsert_poll clashes_telegram has_id write_row updated_row
upserted = refl

transitions-Evolve_example :
    Evolves one_poll.store (close_due quiet 1000 one_poll).1.store
    × Evolves one_poll.store (close_for_running_match quiet 10 one_poll).1.store
    × Evolves one_poll.store (cancel_for_match quiet 10 one_poll).1.store
    × Evolves one_poll.store (reschedule quiet 10 1000 one_poll).1.store
transitions-Evolve_example = transitions-Evolve quiet 10 1000 one_poll one_poll_DistinctIds
