-- ===== src/Outbox/Outcomes.antt =====
-- What the handling of one message leaves in the table: an UPDATE of its row alone, or nothing.
-- About dispatchOne of internal/app/outbox_dispatcher.go.

-- The ways in which one message's handling can leave the rows.
use cs2_predictor.Base.{
  ℕ, Option, inr, some, ◌⊎◌, Bool, ◌+◌, none, refl, inl, ◌≡◌, List, false, ◌∷◌, true, arith, String,
  leb, find_first,
}
use cs2_predictor.Outbox.Table.{
  OutboxMessage, OutboxRow, Bytes, mark_deferred, update_where, is_row, cut_error, failed_update,
  mark_published, mark_failed, outbox_max_attempts,
}
use cs2_predictor.Outbox.Dispatch.{
  sent, Publisher, Fate, held, broken, after_answer, Dispatcher, no_publisher_text, Surroundings,
  after_statement, dispatch_one, failed, Answer, published, handle, defer, count_if, count,
}

pub data Handled (m : OutboxMessage) (rows : List OutboxRow) (rows' : List OutboxRow) : Type 0 where
  untouched : rows' ≡ rows → Handled m rows rows'
  marked :
      (at : ℕ)
      → rows' ≡ update_where (is_row m.id m.occurred_at) (mark_published at) rows
      → Handled m rows rows'
  postponed :
      (until : ℕ)
      → rows' ≡ update_where (is_row m.id m.occurred_at) (mark_deferred until) rows
      → Handled m rows rows'
  retried :
      (at : ℕ) (text : Bytes)
      → rows' ≡ update_where (is_row m.id m.occurred_at) (mark_failed at text) rows
      → Handled m rows rows'

-- A statement writes what it would write, or nothing.
pub after_statement_rows :
    (fate : Fate) (written : Option (List OutboxRow)) (d : Dispatcher)
    → ((after_statement fate written d).0.rows ≡ d.rows)
      ⊎ (some (after_statement fate written d).0.rows ≡ written)
unfolding after_statement
after_statement_rows Fate.settled (some written) d = inr refl
after_statement_rows Fate.refused (some written) d = inl refl
after_statement_rows Fate.unheard (some written) d = inr refl
after_statement_rows Fate.settled none d = inl refl
after_statement_rows Fate.refused none d = inl refl
after_statement_rows Fate.unheard none d = inl refl

pub failed_update-eq_some :
    (storable : Bytes → Bool) (at id occurred_at : ℕ) (text : Bytes) (rows rows' : List OutboxRow)
    → some rows' ≡ failed_update storable at id occurred_at text rows
    → rows' ≡ update_where (is_row id occurred_at) (mark_failed at (cut_error text)) rows
unfolding failed_update
failed_update-eq_some storable at id occurred_at text rows rows' h = ground arith

some_injective : {rows rows' : List OutboxRow} → some rows ≡ some rows' → rows ≡ rows'
some_injective h = cc

failed-Handled :
    (out : Surroundings) (m : OutboxMessage) (text : Bytes) (d : Dispatcher)
    → Handled m d.rows (failed out m text d).0.rows
unfolding failed
failed-Handled out m text d =
    elim (after_statement_rows (out.fate d.statements)
      (failed_update out.storable (out.moment d.statements) m.id m.occurred_at text d.rows) d) [
        | inl e ↦ untouched e
        | inr e ↦
            retried (out.moment d.statements) (cut_error text)
              (failed_update-eq_some out.storable _ _ _ text d.rows _ e)
      ]

published-Handled :
    (out : Surroundings) (m : OutboxMessage) (d : Dispatcher)
    → Handled m d.rows (published out m d).0.rows
unfolding published
published-Handled out m d = elim (after_statement_rows (out.fate d.statements) (some _) d) [
  | inl e ↦ untouched e
  | inr e ↦ marked (out.moment d.statements) (some_injective e)
]

defer-Handled :
    (out : Surroundings) (m : OutboxMessage) (until : ℕ) (d : Dispatcher)
    → Handled m d.rows (defer out m until d).0.rows
unfolding defer
defer-Handled out m until d = elim (after_statement_rows (out.fate d.statements) (some _) d) [
  | inl e ↦ untouched e
  | inr e ↦ postponed until (some_injective e)
]

pub count_if-rows :
    (b : Bool) (tag : String) (m : OutboxMessage) (d : Dispatcher)
    → (count_if b tag m d).rows ≡ d.rows
unfolding count_if
count_if-rows true tag m d = refl
count_if-rows false tag m d = refl

after_answer-Handled :
    (out : Surroundings) (m : OutboxMessage) (answer : Answer) (d : Dispatcher)
    → Handled m d.rows (after_answer out m answer d).rows
unfolding after_answer
after_answer-Handled out m sent d =
    rw
      (count_if-rows (published out m (record d { delivered = m ∷ d.delivered })).1 "published" m
        (published out m (record d { delivered = m ∷ d.delivered })).0)
      (published-Handled out m (record d { delivered = m ∷ d.delivered }))
after_answer-Handled out m (held until) d =
    rw (count_if-rows (defer out m until d).1 "deferred" m (defer out m until d).0)
      (defer-Handled out m until d)
after_answer-Handled out m (broken text) d =
    rw
      (count_if-rows (leb outbox_max_attempts (m.attempts + 1)) "exhausted" m
        (count "failed" m (failed out m text d).0))
      (failed-Handled out m text d)

handle-Handled :
    (out : Surroundings) (found : Option Publisher) (m : OutboxMessage) (d : Dispatcher)
    → Handled m d.rows (handle out found m d).rows
unfolding handle
handle-Handled out none m d = failed-Handled out m (no_publisher_text m) d
handle-Handled out (some p) m d =
    after_answer-Handled out m (p.publish d.publishings m)
      (record d { publishings = d.publishings + 1 })

pub dispatch_one-Handled :
    (out : Surroundings) (publishers : List Publisher) (m : OutboxMessage) (d : Dispatcher)
    → Handled m d.rows (dispatch_one out publishers m d).rows
unfolding dispatch_one
dispatch_one-Handled out publishers m d =
    handle-Handled out (find_first (λ p. p.supports m.event_type) publishers) m d
