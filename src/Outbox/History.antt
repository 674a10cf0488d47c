-- ===== src/Outbox/History.antt =====
-- The outbox over time: the dispatcher handles its batch message by message, while other writers
-- enqueue and an operator replays dead letters. About internal/app/outbox_dispatcher.go.

-- The dispatcher with the messages of its batch that are still to be handled.
use cs2_predictor.Outbox.Rows.{ApartRows, Apart, IsFresh, IsKeyed}
use cs2_predictor.Outbox.Dispatch.{Dispatcher, Publisher, Surroundings, batch, dispatch_one}
use cs2_predictor.Outbox.Table.{
  OutboxMessage, insert_row, outbox_max_attempts, replay_dead_letters, OutboxRow,
}
use cs2_predictor.Base.{◌≤◌, [], none, All, ◌≡◌, ◌+◌, some, List, ℕ, ◌∷◌}
use cs2_predictor.Base.Pairs.{Pairs}

pub record Moment : Type 0 where
  pub dispatcher : Dispatcher
  pub left_over : List OutboxMessage

abbrev pub table : Moment → List OutboxRow
table s = s.dispatcher.rows

-- A change of the rows by somebody else, between two statements of the dispatcher.
abbrev pub elsewhere : List OutboxRow → Moment → Moment
elsewhere rows s = record s { dispatcher = record s.dispatcher { rows = rows } }

pub data Step (out : Surroundings) (publishers : List Publisher) (s t : Moment) : Type 0 where
  -- Enqueue, with a key that no row has
  enqueued :
      (row : OutboxRow)
      → row.published_at ≡ none
      → row.attempts ≡ 0
      → All (ApartRows row) (table s)
      → t ≡ elsewhere (insert_row row (table s)) s
      → Step out publishers s t
  -- ReplayDeadLetters
  replayed :
      (at : ℕ) → t ≡ elsewhere (replay_dead_letters at (table s)).0 s → Step out publishers s t
  -- Dispatch under the lock: the query answers with a batch, or fails
  selected :
      (size : ℕ) (ms : List OutboxMessage)
      → s.left_over ≡ []
      → batch out size s.dispatcher ≡ some ms
      → t ≡ record {
        dispatcher = record s.dispatcher { statements = s.dispatcher.statements + 1 };
        left_over = ms;
      }
      → Step out publishers s t
  unanswered :
      t ≡ record s { dispatcher = record s.dispatcher { statements = s.dispatcher.statements + 1 } }
      → Step out publishers s t
  -- dispatchOne on the next message
  handled :
      (m : OutboxMessage) (ms : List OutboxMessage)
      → s.left_over ≡ m ∷ ms
      → t ≡ record { dispatcher = dispatch_one out publishers m s.dispatcher; left_over = ms }
      → Step out publishers s t
  -- the process dies and the lock is released
  crashed : t ≡ record s { left_over = [] } → Step out publishers s t

pub data Reach (out : Surroundings) (publishers : List Publisher) (s : Moment)
    : Moment → Type 0 where
  still : Reach out publishers s s
  onward :
      {t u : Moment} → Reach out publishers s t → Step out publishers t u → Reach out publishers s u

-- The keys differ, no attempts beyond the budget, and the batch names open rows, each once.
pub record IsSound (s : Moment) : Type 0 where
  pub keyed : IsKeyed (table s)
  pub within : All (λ r. r.attempts ≤ outbox_max_attempts) (table s)
  pub fresh : All (IsFresh (table s)) s.left_over
  pub apart : Pairs Apart s.left_over
