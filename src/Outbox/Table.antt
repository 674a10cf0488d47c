-- ===== src/Outbox/Table.antt =====
-- The statements of internal/adapter/postgres/outbox.go, as functions on the rows of outbox_event.
-- A moment is in microseconds. A text that the code cuts by bytes is a list of bytes.
use cs2_predictor.Base.{
  ◌^◌, ◌∷◌, some, Option, Bool, ◌&&◌, [], ◌+◌, length, is_some, ◌++◌, keep_if, take, any, leb, ◌*◌,
  ℕ, none, ltb, map, ◌==◌, if◌then◌else◌, min, not, List, String,
}
use cs2_predictor.Base.Sort.{stable_sort}

abbrev pub Bytes : Type 0
Bytes = List ℕ

pub record OutboxRow : Type 0 where
  pub id : ℕ
  pub aggregate_type : String
  pub aggregate_id : String
  pub event_type : String
  pub payload : String
  pub occurred_at : ℕ
  pub published_at : Option ℕ
  pub attempts : ℕ
  pub last_error : Option Bytes
  pub next_attempt_at : ℕ

pub record OutboxMessage : Type 0 where
  pub id : ℕ
  pub event_type : String
  pub payload : String
  pub occurred_at : ℕ
  pub attempts : ℕ

abbrev pub outbox_max_attempts : ℕ
outbox_max_attempts = 20

abbrev pub second : ℕ
second = 1000000

-- The row that the INSERT leaves, with the defaults of the table.
abbrev pub new_row : ℕ → String → String → String → String → ℕ → OutboxRow
new_row id aggregate_type aggregate_id event_type payload at = record {
  id = id;
  aggregate_type = aggregate_type;
  aggregate_id = aggregate_id;
  event_type = event_type;
  payload = payload;
  occurred_at = at;
  published_at = none;
  attempts = 0;
  last_error = none;
  next_attempt_at = at;
}

abbrev pub insert_row : OutboxRow → List OutboxRow → List OutboxRow
insert_row row rows = rows ++ row ∷ []

-- `published_at IS NULL`
abbrev pub unpublished : OutboxRow → Bool
unpublished row = not (is_some row.published_at)

-- The WHERE clause of Pending.
abbrev pub is_pending : ℕ → OutboxRow → Bool
is_pending at row =
    unpublished row && (ltb row.attempts outbox_max_attempts && leb row.next_attempt_at at)

abbrev pub message_of : OutboxRow → OutboxMessage
message_of row = record {
  id = row.id;
  event_type = row.event_type;
  payload = row.payload;
  occurred_at = row.occurred_at;
  attempts = row.attempts;
}

abbrev pub occurred_before : OutboxRow → OutboxRow → Bool
occurred_before a b = ltb a.occurred_at b.occurred_at

unfoldable pub pending : ℕ → ℕ → List OutboxRow → List OutboxMessage
unfolding stable_sort
pending at limit rows =
    map message_of (take limit (stable_sort occurred_before (keep_if (is_pending at) rows)))

-- `WHERE id = $1 AND occurred_at = $2`
abbrev pub is_row : ℕ → ℕ → OutboxRow → Bool
is_row id occurred_at row = (row.id == id) && (row.occurred_at == occurred_at)

-- An UPDATE of the rows that pass a test.
abbrev pub update_where :
    (OutboxRow → Bool) → (OutboxRow → OutboxRow) → List OutboxRow → List OutboxRow
update_where test change = map (λ row. if test row then change row else row)

abbrev pub mark_published : ℕ → OutboxRow → OutboxRow
mark_published at row = record row { published_at = some at }

-- `least(300, power(2, attempts)::int)` seconds, with the attempts before the update.
abbrev pub backoff_seconds : ℕ → ℕ
backoff_seconds attempts = min 300 (2 ^ attempts)

abbrev pub mark_failed : ℕ → Bytes → OutboxRow → OutboxRow
mark_failed at text row = record row {
  attempts = row.attempts + 1;
  last_error = some text;
  next_attempt_at = at + backoff_seconds row.attempts * second;
}

abbrev pub mark_deferred : ℕ → OutboxRow → OutboxRow
mark_deferred until row = record row { next_attempt_at = until }

-- `errText[:4000]`
abbrev pub cut_error : Bytes → Bytes
cut_error text = if ltb 4000 (length text) then take 4000 text else text

-- The cast of `power(2, attempts)` to a four-byte integer is refused from 2 ^ 31 on.
abbrev pub cast_refused : OutboxRow → Bool
cast_refused row = leb (2 ^ 31) (2 ^ row.attempts)

-- The UPDATE of Failed; none where PostgreSQL refuses it, because the text is no valid text of the
-- database's encoding or the cast overflows.
unfoldable pub failed_update :
    (Bytes → Bool) → ℕ → ℕ → ℕ → Bytes → List OutboxRow → Option (List OutboxRow)
failed_update storable at id occurred_at text rows =
    if not (storable (cut_error text))
    then none
    else if any (λ row. is_row id occurred_at row && cast_refused row) rows
    then none
    else some (update_where (is_row id occurred_at) (mark_failed at (cut_error text)) rows)

-- `published_at IS NULL AND attempts >= $1`
abbrev pub is_dead : OutboxRow → Bool
is_dead row = unpublished row && leb outbox_max_attempts row.attempts

abbrev pub revive : ℕ → OutboxRow → OutboxRow
revive at row = record row { attempts = 0; next_attempt_at = at }

-- The UPDATE of ReplayDeadLetters with the number of rows that it changed.
unfoldable pub replay_dead_letters : ℕ → List OutboxRow → List OutboxRow × ℕ
replay_dead_letters at rows = (update_where is_dead (revive at) rows, length (keep_if is_dead rows))
