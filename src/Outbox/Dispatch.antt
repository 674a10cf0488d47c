-- ===== src/Outbox/Dispatch.antt =====
-- OutboxDispatcher of internal/app/outbox_dispatcher.go over the statements of Table.
-- Parameters: when each statement runs and how it ends, which texts the database accepts, and the
-- answers of the publishers.
use cs2_predictor.Base.{
  some, false, leb, String, none, Option, ◌+◌, Bool, List, ℕ, true, ◌∷◌, ◌++◌, [], find_first,
  bytes,
}
use cs2_predictor.Outbox.Table.{
  failed_update, pending, mark_deferred, update_where, Bytes, is_row, outbox_max_attempts,
  OutboxRow, OutboxMessage, mark_published,
}

-- How a statement ends: it is done; it is refused; or it is done and the answer is lost.
pub data Fate : Type 0 where
  settled : Fate
  refused : Fate
  unheard : Fate

pub record Surroundings : Type 0 where
  -- `now()` in the statement of this number
  pub moment : ℕ → ℕ
  pub fate : ℕ → Fate
  pub storable : Bytes → Bool

-- What Publish returns: nil, a DeferredError, or another error with its text.
pub data Answer : Type 0 where
  sent : Answer
  held : ℕ → Answer
  broken : Bytes → Answer

-- The answer depends on the number of the call.
pub record Publisher : Type 0 where
  pub supports : String → Bool
  pub publish : ℕ → OutboxMessage → Answer

pub record Dispatcher : Type 0 where
  pub rows : List OutboxRow
  -- statements executed and publishers called so far
  pub statements : ℕ
  pub publishings : ℕ
  -- the messages that a publisher has taken, the last one first
  pub delivered : List OutboxMessage
  -- Metrics.OutboxEvents: outcome and event type of each count, the last one first
  pub counted : List (String × String)

-- The rows after a statement that would write `written`, and whether the caller sees an error.
unfoldable pub after_statement : Fate → Option (List OutboxRow) → Dispatcher → Dispatcher × Bool
after_statement Fate.settled (some written) d =
    (record d { rows = written; statements = d.statements + 1 }, true)
after_statement Fate.unheard (some written) d =
    (record d { rows = written; statements = d.statements + 1 }, false)
after_statement Fate.refused (some written) d = (record d { statements = d.statements + 1 }, false)
after_statement fate none d = (record d { statements = d.statements + 1 }, false)

unfoldable pub published : Surroundings → OutboxMessage → Dispatcher → Dispatcher × Bool
unfolding after_statement
published out m d =
    after_statement (out.fate d.statements)
      (some (
        update_where (is_row m.id m.occurred_at) (mark_published (out.moment d.statements)) d.rows))
      d

unfoldable pub failed : Surroundings → OutboxMessage → Bytes → Dispatcher → Dispatcher × Bool
unfolding after_statement failed_update
failed out m text d =
    after_statement (out.fate d.statements)
      (failed_update out.storable (out.moment d.statements) m.id m.occurred_at text d.rows) d

unfoldable pub defer : Surroundings → OutboxMessage → ℕ → Dispatcher → Dispatcher × Bool
unfolding after_statement
defer out m until d =
    after_statement (out.fate d.statements)
      (some (update_where (is_row m.id m.occurred_at) (mark_deferred until) d.rows)) d

abbrev pub count : String → OutboxMessage → Dispatcher → Dispatcher
count tag m d = record d { counted = (tag, m.event_type) ∷ d.counted }

-- A count that an `if` guards.
unfoldable pub count_if : Bool → String → OutboxMessage → Dispatcher → Dispatcher
count_if true tag m d = count tag m d
count_if false tag m d = d

-- "no publisher for "+message.Type
abbrev pub no_publisher_text : OutboxMessage → Bytes
no_publisher_text m = bytes "no publisher for " ++ bytes m.event_type

-- What dispatchOne does with the answer.
unfoldable pub after_answer : Surroundings → OutboxMessage → Answer → Dispatcher → Dispatcher
unfolding published failed defer count_if
after_answer out m sent d =
    let (d', stored) = published out m (record d { delivered = m ∷ d.delivered }) in
    count_if stored "published" m d'
after_answer out m (held until) d =
    let (d', stored) = defer out m until d in count_if stored "deferred" m d'
after_answer out m (broken text) d =
    let (d', stored) = failed out m text d in
    count_if (leb outbox_max_attempts (m.attempts + 1)) "exhausted" m (count "failed" m d')

-- What dispatchOne does with the publisher that it found.
unfoldable pub handle : Surroundings → Option Publisher → OutboxMessage → Dispatcher → Dispatcher
unfolding after_answer failed
handle out none m d = count "unsupported" m (failed out m (no_publisher_text m) d).0
handle out (some p) m d =
    after_answer out m (p.publish d.publishings m) (record d { publishings = d.publishings + 1 })

-- The publisher is the first that supports the type.
unfoldable pub dispatch_one :
    Surroundings → List Publisher → OutboxMessage → Dispatcher → Dispatcher
unfolding handle
dispatch_one out publishers m d =
    handle out (find_first (λ p. p.supports m.event_type) publishers) m d

-- The loop over the batch.
unfoldable pub dispatch_all :
    Surroundings → List Publisher → List OutboxMessage → Dispatcher → Dispatcher
unfolding dispatch_one
dispatch_all out publishers [] d = d
dispatch_all out publishers (m ∷ ms) d =
    dispatch_all out publishers ms (dispatch_one out publishers m d)

-- What the caller sees of a query.
unfoldable pub heard : Fate → List OutboxMessage → Option (List OutboxMessage)
heard Fate.settled ms = some ms
heard Fate.refused ms = none
heard Fate.unheard ms = none

-- The batch that the query answers with; none where the query fails.
unfoldable pub batch : Surroundings → ℕ → Dispatcher → Option (List OutboxMessage)
unfolding pending heard
batch out size d = heard (out.fate d.statements) (pending (out.moment d.statements) size d.rows)

-- The messages that came are handled one by one; an error of the query ends the run.
unfoldable pub run_batch :
    Surroundings → List Publisher → Option (List OutboxMessage) → Dispatcher → Dispatcher
unfolding dispatch_all
run_batch out publishers none d = d
run_batch out publishers (some ms) d = dispatch_all out publishers ms d

-- Dispatch; `acquired` is whether the cluster lock ran the body.
unfoldable pub dispatch : Surroundings → List Publisher → ℕ → Bool → Dispatcher → Dispatcher
unfolding run_batch batch
dispatch out publishers size false d = d
dispatch out publishers size true d =
    run_batch out publishers (batch out size d) (record d { statements = d.statements + 1 })
