-- ===== src/Examples/Settlements.antt =====
-- A settlement of one poll: the theorems at concrete inputs.
use cs2_predictor.Examples.Data.{final, final_poll, vote_by}
use cs2_predictor.Base.{
  [], ◌≡◌, ◌∷◌, refl, length, List, if◌then◌else◌, some, ◌==◌, ◌+◌, ℕ, none, error, false,
}
use cs2_predictor.Competition.Series.Text.{score_text}
use cs2_predictor.Competition.Catalog.{tier_s, event_running, Event}
use cs2_predictor.Settlement.Again.{NothingNew, settled_once}
use cs2_predictor.Settlement.Tables.{
  Ledger, SettlementOutside, run_in_tx, mark_row, result_hash, enqueue,
}
use cs2_predictor.Settlement.Calm.{settles_calmly, AllMarked}
use cs2_predictor.Settlement.{
  settle_one, settle_match, standings_after, after_polls, settle_awards, unless_settled,
  after_recipients, after_tx, recap_voters, after_hash, settle_final, store_awards, enqueue_recaps,
  settle_polls, finish, recaps_for, with_audience, settle_from, announce, score_votes,
  settle_started,
}
use cs2_predictor.Settlement.Atomic.{settled_whole, AllOrNothing}
use cs2_predictor.Competition.Series.{score}
use cs2_predictor.Scoring.Ranking.{UserStanding}

abbrev major : Event
major = record {
  id = 20;
  game = "cs2";
  name = "Major";
  external_id = "m";
  status = event_running;
  starts_at = some 500;
  ends_at = none;
  provider = "grid";
  tier = tier_s;
}

abbrev fan_standing : UserStanding
fan_standing = record {
  user_id = 31;
  display_name = "fan";
  points = 4;
  exact_predictions = 1;
  correct_predictions = 1;
  predictions = 2;
  tournaments = 0;
  gold_medals = 0;
  silver_medals = 0;
  bronze_medals = 0;
  rank = 1;
  previous_rank = none;
  points_delta = 0;
}

-- Everything is done; the first voter alone wants a recap.
abbrev settlement_outside : SettlementOutside
settlement_outside = record {
  fault = λ n. none;
  moment = λ n. 2000 + n;
  new_id = λ n. 100 + n;
  polls_of = λ id. final_poll ∷ [];
  votes_of = λ id. vote_by 31 1 ∷ vote_by 32 0 ∷ [];
  leaderboard = λ books chat_id event_id. fan_standing ∷ [];
  encode_result = λ n. n.event_name;
  encode_recap = λ n. n.chat_title;
  poll_text = λ id. "poll";
  audience = some (λ users. 31 ∷ []);
  chat_titles = some (λ chat_id. "Fans");
}

-- The mark fails.
abbrev unmarked_outside : SettlementOutside
unmarked_outside = record settlement_outside {
  fault = λ n. if n == 13 then some (error "connection lost") else none;
}

abbrev blank_ledger : Ledger
blank_ledger = record {
  books = record { awards = []; outbox = []; settled = [] };
  calls = 0;
  aborted = false;
}

abbrev final_hash : List ℕ
final_hash = score_text (score 2 1)

-- Two messages and two awards are stored where nothing fails, and nothing where the mark fails.
settled_counts :
    length (settle_match settlement_outside major final blank_ledger).1.books.outbox ≡ 2
unfolding settle_match settle_final after_polls settle_polls after_hash unless_settled result_hash
    after_tx run_in_tx settle_one settle_from settle_awards settle_started score_votes store_awards
    standings_after announce enqueue enqueue_recaps with_audience recap_voters after_recipients
    recaps_for finish mark_row
settled_counts = refl

unsettled_counts :
    length (settle_match unmarked_outside major final blank_ledger).1.books.outbox ≡ 0
unfolding settle_match settle_final after_polls settle_polls after_hash unless_settled result_hash
    after_tx run_in_tx settle_one settle_from settle_awards settle_started score_votes store_awards
    standings_after announce enqueue enqueue_recaps with_audience recap_voters after_recipients
    recaps_for finish mark_row
unsettled_counts = refl

settled_whole_example :
    AllOrNothing settlement_outside final final_poll final_hash blank_ledger.books
      (run_in_tx settlement_outside
        (settle_one settlement_outside major final final_poll final_hash)
        blank_ledger).0
      (run_in_tx settlement_outside
        (settle_one settlement_outside major final final_poll final_hash)
        blank_ledger).1.books
settled_whole_example =
    settled_whole settlement_outside major final final_poll final_hash blank_ledger

settles_calmly_example :
    AllMarked settlement_outside
      (λ n. refl)
      major
      final
      (score 2 1)
      (settle_match settlement_outside major final blank_ledger)
settles_calmly_example =
    settles_calmly settlement_outside (λ n. refl) major final (score 2 1) refl refl refl
      blank_ledger

settled_once_example :
    NothingNew settlement_outside major final
      (settle_match settlement_outside major final
        (settle_match settlement_outside major final blank_ledger).1)
      (settle_match settlement_outside major final blank_ledger).1.books
settled_once_example =
    settled_once settlement_outside major final blank_ledger
      (settle_match settlement_outside major final blank_ledger).1
      (settles_calmly settlement_outside (λ n. refl) major final (score 2 1) refl refl refl
        blank_ledger).0
      refl
