-- ===== src/Settlement.antt =====
-- ResultSettlementService of internal/app/settlement.go, composed of the scoring service's Settle and
-- the outbox, under the transaction of internal/adapter/postgres/db.go. Parameters: which statements
-- fail, the polls and votes of the tables that a settlement only reads, the leaderboard's query, the
-- encoding of payloads, and who wants a recap. The milestone service is left out, as where it is nil.
pub mod Tables
pub mod Steady
pub mod Owed
pub mod Settled
pub mod Atomic
pub mod Again
pub mod Calm
use cs2_predictor.Settlement.Tables.{
  ◌>>=◌, ◌>>◌, SettlementOutside, MatchResultNotification, StandingNotification, Ledger, next_call,
  team_name, rank_before, S, write, run_in_tx, result_hash, delta_of, ask, title_of, attempt,
  enqueue, mark_settled, predicted_text, pure, fail, now,
}
use cs2_predictor.Scoring.Settle.{awards_for, realign_to_poll_team_order, Award, replace_awards}
use cs2_predictor.Competition.Series.Text.{label, score_text}
use cs2_predictor.Competition.Catalog.{MatchStatus, match_finished, Match, Event}
use cs2_predictor.Base.{
  ◌+◌, [], Error, Option, ◌∷◌, Result, ℕ, ok, error, err, List, take, contains, none, map, Bool,
  String, true, false, some, if◌then◌else◌, or_else,
}
use cs2_predictor.Prediction.Poll.{Vote, Poll}
use cs2_predictor.Base.Splits.{same_bytes}
use cs2_predictor.Competition.Series.{MatchScore}
use cs2_predictor.Scoring.Ranking.{UserStanding}

-- The part of a leaderboard that a message shows, with the ranks of before.
abbrev pub standing_of : List UserStanding → List Award → UserStanding → StandingNotification
standing_of before awards st = record {
  user_id = st.user_id;
  display_name = st.display_name;
  rank = st.rank;
  previous_rank = rank_before st.user_id before;
  points = st.points;
  points_delta = delta_of st.user_id awards;
  exact_predictions = st.exact_predictions;
  correct_predictions = st.correct_predictions;
  predictions = st.predictions;
}

unfoldable pub result_notification :
    Event
    → Match
    → Poll
    → List ℕ
    → List UserStanding
    → List UserStanding
    → List Award
    → MatchResultNotification
result_notification event m p hash before after awards = record {
  chat_id = p.chat_id;
  topic_id = p.topic_id;
  reply_to_message_id = p.telegram_message_id;
  event_id = event.id;
  event_name = event.name;
  stage = m.stage;
  format = label m.format;
  first_team = team_name m.first_team;
  second_team = team_name m.second_team;
  result = hash;
  standings = map (standing_of before awards) (take 5 after);
}

unfoldable pub recap_payload :
    SettlementOutside → Event → Match → Poll → List ℕ → List Award → String → Vote → String
recap_payload out event m p hash awards title v = out.encode_recap (record {
  user_id = v.user_id;
  chat_title = title;
  event_name = event.name;
  first_team = team_name m.first_team;
  second_team = team_name m.second_team;
  result = hash;
  predicted = predicted_text v.option_index p.options;
  points = delta_of v.user_id awards;
})

-- The recaps of the votes whose voters want one.
unfoldable pub recaps_for :
    SettlementOutside
    → Event
    → Match
    → Poll
    → List ℕ
    → List Award
    → String
    → List ℕ
    → List Vote
    → S (Unit {0})
recaps_for out event m p hash awards title wants [] = pure tt
recaps_for out event m p hash awards title wants (v ∷ vs) =
    let rest = recaps_for out event m p hash awards title wants vs in
    if contains wants v.user_id
    then (enqueue out p.id "telegram.result-recap" (recap_payload out event m p hash awards title v)
        >> rest)
    else rest

-- What follows the lookup of the recipients; its error is swallowed.
unfoldable pub after_recipients :
    SettlementOutside
    → Event
    → Match
    → Poll
    → List ℕ
    → List Award
    → List Vote
    → Result (List ℕ)
    → S (Unit {0})
after_recipients out event m p hash awards votes (err e) = pure tt
after_recipients out event m p hash awards votes (ok []) = pure tt
after_recipients out event m p hash awards votes (ok (w ∷ ws)) =
    recaps_for out event m p hash awards (title_of out.chat_titles p.chat_id) (w ∷ ws) votes

-- Nobody is asked for where nobody voted.
unfoldable pub recap_voters :
    (List ℕ → List ℕ)
    → SettlementOutside
    → Event
    → Match
    → Poll
    → List ℕ
    → List Award
    → List Vote
    → S (Unit {0})
recap_voters wanting out event m p hash awards [] = pure tt
recap_voters wanting out event m p hash awards (v ∷ vs) = do
  recipients ← attempt (ask out (λ books. wanting (map (λ x. x.user_id) (v ∷ vs))))
  after_recipients out event m p hash awards (v ∷ vs) recipients

unfoldable pub with_audience :
    Option (List ℕ → List ℕ)
    → SettlementOutside
    → Event
    → Match
    → Poll
    → List ℕ
    → List Award
    → S (Unit {0})
with_audience none out event m p hash awards = pure tt
with_audience (some wanting) out event m p hash awards = do
  votes ← ask out (λ books. out.votes_of p.id)
  recap_voters wanting out event m p hash awards votes

unfoldable pub enqueue_recaps :
    SettlementOutside → Event → Match → Poll → List ℕ → List Award → S (Unit {0})
enqueue_recaps out event m p hash awards = with_audience out.audience out event m p hash awards

-- ReplaceAwards, and the awards as the answer.
unfoldable pub store_awards : SettlementOutside → ℕ → List Award → S (List Award)
store_awards out poll_id awards =
    write out (λ books. record books { awards = replace_awards poll_id awards books.awards })
    >> pure awards

unfoldable pub score_votes :
    SettlementOutside → Match → Poll → MatchScore → List Vote → S (List Award)
score_votes out m p result votes = do
  moment ← now out
  store_awards out p.id (awards_for p (realign_to_poll_team_order result m p) m.format moment votes)

-- The scoring service's Settle: the start and the score are there, the votes, the clock, and the
-- awards replaced.
unfoldable pub settle_started :
    SettlementOutside → Match → Poll → Option ℕ → Option MatchScore → S (List Award)
settle_started out m p start none = fail (error "finished match must have a score")
settle_started out m p none (some result) = fail (error "match start is required")
settle_started out m p (some start) (some result) = do
  votes ← ask out (λ books. out.votes_of p.id)
  score_votes out m p result votes

unfoldable pub settle_awards : SettlementOutside → Match → Poll → S (List Award)
settle_awards out m p = settle_started out m p (or_else m.actual_started_at m.scheduled_at) m.result

-- MarkSettled with the clock's moment.
unfoldable pub finish : SettlementOutside → Poll → List ℕ → S (Unit {0})
finish out p hash = do moment ← now out; write out (mark_settled p.id hash moment)

-- The message for the chat, the recaps, and the mark.
unfoldable pub announce :
    SettlementOutside
    → Event
    → Match
    → Poll
    → List ℕ
    → List UserStanding
    → List Award
    → List UserStanding
    → S (Unit {0})
announce out event m p hash before awards after =
    enqueue out p.id "telegram.match-result"
      (out.encode_result (result_notification event m p hash before after awards))
    >> (enqueue_recaps out event m p hash awards >> finish out p hash)

unfoldable pub standings_after :
    SettlementOutside
    → Event
    → Match
    → Poll
    → List ℕ
    → List UserStanding
    → List Award
    → S (Unit {0})
standings_after out event m p hash before awards =
    ask out (λ books. out.leaderboard books p.chat_id event.id)
    >>= announce out event m p hash before awards

unfoldable pub settle_from :
    SettlementOutside → Event → Match → Poll → List ℕ → List UserStanding → S (Unit {0})
settle_from out event m p hash before =
    settle_awards out m p >>= standings_after out event m p hash before

unfoldable pub settle_one : SettlementOutside → Event → Match → Poll → List ℕ → S (Unit {0})
settle_one out event m p hash =
    ask out (λ books. out.leaderboard books p.chat_id event.id) >>= settle_from out event m p hash

-- One poll of the loop: a poll whose hash is the score's is skipped, an error ends the loop.
unfoldable pub after_tx :
    Result (Unit {0})
    → (ℕ → Ledger → (ℕ × Option Error) × Ledger)
    → ℕ
    → Ledger
    → (ℕ × Option Error) × Ledger
after_tx (err e) further n w = ((n, some e), w)
after_tx (ok done) further n w = further (n + 1) w

abbrev pub has_hash : Option (List ℕ) → List ℕ → Bool
has_hash none hash = false
has_hash (some existing) hash = same_bytes existing hash

unfoldable pub unless_settled :
    Bool
    → SettlementOutside
    → S (Unit {0})
    → (ℕ → Ledger → (ℕ × Option Error) × Ledger)
    → ℕ
    → Ledger
    → (ℕ × Option Error) × Ledger
unless_settled true out body further n w = further n w
unless_settled false out body further n w =
    after_tx (run_in_tx out body w).0 further n (run_in_tx out body w).1

-- A statement outside a transaction that fails leaves nothing behind.
unfoldable pub after_hash :
    Option Error
    → SettlementOutside
    → Event
    → Match
    → List ℕ
    → Poll
    → (ℕ → Ledger → (ℕ × Option Error) × Ledger)
    → ℕ
    → Ledger
    → (ℕ × Option Error) × Ledger
after_hash (some e) out event m hash p further n w = ((n, some e), next_call w)
after_hash none out event m hash p further n w =
    unless_settled (has_hash (result_hash p.id w.books) hash) out (settle_one out event m p hash)
      further n (next_call w)

unfoldable pub settle_polls :
    SettlementOutside
    → Event
    → Match
    → List ℕ
    → List Poll
    → ℕ
    → Ledger
    → (ℕ × Option Error) × Ledger
settle_polls out event m hash [] n w = ((n, none), w)
settle_polls out event m hash (p ∷ ps) n w =
    after_hash (out.fault w.calls) out event m hash p (settle_polls out event m hash ps) n w

unfoldable pub after_polls :
    Option Error → SettlementOutside → Event → Match → List ℕ → Ledger → (ℕ × Option Error) × Ledger
after_polls (some e) out event m hash w = ((0, some e), next_call w)
after_polls none out event m hash w =
    settle_polls out event m hash (out.polls_of m.id) 0 (next_call w)

abbrev pub is_finished : MatchStatus → Bool
is_finished match_finished = true
is_finished other = false

unfoldable pub settle_final :
    SettlementOutside
    → Event
    → Match
    → Bool
    → Option MatchScore
    → Ledger
    → (ℕ × Option Error) × Ledger
settle_final out event m over none w = ((0, none), w)
settle_final out event m false (some result) w = ((0, none), w)
settle_final out event m true (some result) w =
    after_polls (out.fault w.calls) out event m (score_text result) w

-- Settle: how many polls were settled, and the error.
unfoldable pub settle_match :
    SettlementOutside → Event → Match → Ledger → (ℕ × Option Error) × Ledger
unfolding settle_final
settle_match out event m w = settle_final out event m (is_finished m.status) m.result w
