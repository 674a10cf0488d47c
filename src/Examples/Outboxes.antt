-- ===== src/Examples/Outboxes.antt =====
-- Runs of the outbox: one message that is due at its twentieth attempt, and one that is published.
use cs2_predictor.Outbox.History.{IsSound}
use cs2_predictor.Outbox.Dispatch.{
  Fate, dispatch, Surroundings, Publisher, Dispatcher, dispatch_one, broken, sent, held,
}
use cs2_predictor.Outbox.Retries.{handlings_bounded, handlings, runs}
use cs2_predictor.Base.{
  true, ◌≤◌, leb, keep_if, length, refl, ◌*◌, ◌∷◌, [], none, ◌+◌, find_first, bytes, arith, some,
  ◌≡◌, false, ap, ◌∙◌, ◌++◌, ℕ, suc, not, zero,
}
use cs2_predictor.Outbox.Signals.{
  AreDead, HasAttempts, runs-split, failure_signals, IsSplit, ends_in_lead,
}
use cs2_predictor.Outbox.Once.{sendings, is_published, Reach-sendings}
use cs2_predictor.Outbox.Table.{
  replay_dead_letters, OutboxRow, pending, Bytes, is_pending, message_of, OutboxMessage,
  outbox_max_attempts,
}
use cs2_predictor.Outbox.Delivery.{dispatch-drains}
use cs2_predictor.Outbox.Rows.{IsFresh, IsKeyed}
use cs2_predictor.Outbox.Letters.{dead_letters, replay-dead_letters, total}
use cs2_predictor.Outbox.Steps.{dispatch-Reach, at_rest}
use cs2_predictor.Outbox.Final.{Reach-Evolves, Evolves}
use cs2_predictor.Outbox.Sound.{Reach-IsSound}
use cs2_predictor.Outbox.Budget.{NeverHeld}

abbrev calm : Surroundings
calm = record { moment = λ n. 1000; fate = λ n. Fate.settled; storable = λ t. true }

-- A database that takes no text that ends within a character.
abbrev strict : Surroundings
strict = record {
  moment = λ n. 1000;
  fate = λ n. Fate.settled;
  storable = λ text. not (ends_in_lead text);
}

abbrev due_row : OutboxRow
due_row = record {
  id = 1;
  aggregate_type = "MATCH_POLL";
  aggregate_id = "5";
  event_type = "telegram.match-result";
  payload = "{}";
  occurred_at = 10;
  published_at = none;
  attempts = 19;
  last_error = none;
  next_attempt_at = 500;
}

abbrev sent_row : OutboxRow
sent_row = record due_row { id = 2; published_at = some 600 }

abbrev due_message : OutboxMessage
due_message = message_of due_row

abbrev taking : Publisher
taking = record { supports = λ t. true; publish = λ n m. sent }

abbrev breaking : Publisher
breaking = record { supports = λ t. true; publish = λ n m. broken (bytes "forbidden") }

abbrev two_rows : Dispatcher
two_rows = record {
  rows = due_row ∷ sent_row ∷ [];
  statements = 0;
  publishings = 0;
  delivered = [];
  counted = [];
}

two_rows-IsKeyed : IsKeyed two_rows.rows
two_rows-IsKeyed = ((refl, tt), (tt, tt))

two_rows-IsSound : IsSound (at_rest two_rows)
two_rows-IsSound = record {
  keyed = two_rows-IsKeyed;
  within = (omega arith, (omega arith, tt));
  fresh = tt;
  apart = tt;
}

Reach-IsSound_example : IsSound (at_rest (dispatch calm (breaking ∷ []) 10 true two_rows))
Reach-IsSound_example =
    Reach-IsSound calm (breaking ∷ []) two_rows-IsSound
      (dispatch-Reach calm (breaking ∷ []) 10 true two_rows)

Reach-Evolves_example : Evolves two_rows.rows (dispatch calm (breaking ∷ []) 10 true two_rows).rows
Reach-Evolves_example =
    Reach-Evolves calm (breaking ∷ []) two_rows-IsSound
      (dispatch-Reach calm (breaking ∷ []) 10 true two_rows)

Reach-sendings_example :
    (is_published 2 10 (dispatch calm (taking ∷ []) 10 true two_rows).rows ≡ true)
    × (sendings 2 10 (dispatch calm (taking ∷ []) 10 true two_rows) ≡ sendings 2 10 two_rows)
Reach-sendings_example =
    Reach-sendings calm (taking ∷ []) 2 10 two_rows-IsSound refl
      (dispatch-Reach calm (taking ∷ []) 10 true two_rows)

dispatch-drains_example :
    keep_if (is_pending 1000) (dispatch calm (taking ∷ []) 10 true two_rows).rows ≡ []
unfolding pending
dispatch-drains_example =
    dispatch-drains calm (taking ∷ []) 10 two_rows (λ n. refl) (omega arith)
      ((taking, refl, λ n. refl), tt)

breaking_never : (m : OutboxMessage) → NeverHeld (breaking ∷ []) m
breaking_never m p e n until h = absurd (clash (ap (λ q. q.publish n m) (same e) ∙ h))
  where
    same : {q r : Publisher} → some q ≡ some r → q ≡ r
    same d = cc

    clash : broken (bytes "forbidden") ≡ held until → ⊥
    clash d = cc

handlings_bounded_example :
    handlings calm (breaking ∷ []) 10 3 two_rows ≤ outbox_max_attempts * length two_rows.rows
handlings_bounded_example =
    handlings_bounded calm (breaking ∷ []) (λ n. refl) (λ t. refl) breaking_never 10 3 two_rows
      two_rows-IsKeyed

due_fresh : IsFresh two_rows.rows due_message
due_fresh = (λ e. (refl, omega arith), (λ e. absurd (clash e), tt))
  where
    clash : false ≡ true → ⊥
    clash e = cc

due_attempts : HasAttempts two_rows.rows due_message
due_attempts = (λ e. refl, (λ e. refl, tt))

failure_signals_example :
    ((p : Publisher) (text : Bytes)
      → find_first (λ q. q.supports due_message.event_type) (breaking ∷ []) ≡ some p
      → p.publish two_rows.publishings due_message ≡ broken text
      → AreDead
          (leb outbox_max_attempts (due_message.attempts + 1))
          (dispatch_one calm (breaking ∷ []) due_message two_rows).rows
          due_message
        × ((dispatch_one calm (breaking ∷ []) due_message two_rows).counted
            ≡ ("exhausted", "telegram.match-result") ∷ ("failed", "telegram.match-result") ∷ []))
    × (find_first (λ q. q.supports due_message.event_type) (breaking ∷ []) ≡ none
        → AreDead
            (leb outbox_max_attempts (due_message.attempts + 1))
            (dispatch_one calm (breaking ∷ []) due_message two_rows).rows
            due_message
          × ((dispatch_one calm (breaking ∷ []) due_message two_rows).counted
              ≡ ("unsupported", "telegram.match-result") ∷ []))
failure_signals_example =
    failure_signals calm (breaking ∷ []) due_message two_rows (λ n. refl) (λ t. refl) due_fresh
      due_attempts

-- An error text whose 4000th byte is the first of a Cyrillic letter.
repeated : ℕ → Bytes
repeated zero = []
repeated (suc n) = b'a' ∷ repeated n

length-repeated : (n : ℕ) → length (repeated n) ≡ n
unfolding repeated
length-repeated zero = refl
length-repeated (suc n) = omega (arith, length-repeated n)

long_text : Bytes
unfolding repeated
long_text = repeated 3999 ++ 208 ∷ 176 ∷ []

long_text-IsSplit : IsSplit long_text
unfolding long_text
long_text-IsSplit = (repeated 3999, [], 208, 176, refl, length-repeated 3999, omega arith)

abbrev verbose : Publisher
verbose = record breaking { publish = λ n m. broken long_text }

runs-split_example : (runs strict (verbose ∷ []) 10 50 two_rows).rows ≡ two_rows.rows
runs-split_example =
    runs-split strict (verbose ∷ []) 10 50 two_rows (λ n. refl) (λ text e. rw e refl)
      (λ m. (verbose, refl, λ n. (long_text, refl, long_text-IsSplit)))

abbrev dead_row : OutboxRow
dead_row = record due_row { id = 3; attempts = 20 }

replay-dead_letters_example :
    ((replay_dead_letters 1000 (due_row ∷ dead_row ∷ [])).1
      ≡ total (dead_letters (λ a b. false) (due_row ∷ dead_row ∷ [])))
    × (dead_letters (λ a b. false) (replay_dead_letters 1000 (due_row ∷ dead_row ∷ [])).0 ≡ [])
    × (length (keep_if (is_pending 1000) (replay_dead_letters 1000 (due_row ∷ dead_row ∷ [])).0)
        ≡ length (keep_if (is_pending 1000) (due_row ∷ dead_row ∷ []))
          + (replay_dead_letters 1000 (due_row ∷ dead_row ∷ [])).1)
replay-dead_letters_example = replay-dead_letters (λ a b. false) 1000 (due_row ∷ dead_row ∷ [])
