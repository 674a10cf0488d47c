-- ===== src/Outbox/Spending.antt =====
-- Every handling spends attempts, so runs of the dispatcher with something to do come to an end.
-- About internal/app/outbox_dispatcher.go.
use cs2_predictor.Outbox.Dispatch.{
  dispatch_one, handle, after_statement, Dispatcher, no_publisher_text, count, broken, held,
  published, Surroundings, after_answer, Publisher, sent, Answer, failed,
}
use cs2_predictor.Outbox.Table.{
  OutboxMessage, mark_failed, mark_published, Bytes, outbox_max_attempts, is_row, cut_error,
}
use cs2_predictor.Outbox.Budget.{
  budget, failed_update-open, update-budget_lt, NeverHeld, TakesTexts, failed-remaining,
  published-remaining,
}
use cs2_predictor.Base.{
  ◌≢◌, leb, ◌≡◌, ◌<◌, Option, find_first, List, ◌∷◌, ℕ, some, none, ◌+◌, refl, true, any,
}
use cs2_predictor.Outbox.Rows.{IsFresh}
use cs2_predictor.Outbox.Delivery.{IsCalm}
use cs2_predictor.Outbox.Outcomes.{count_if-rows}

module _ (out : Surroundings) (publishers : List Publisher) (calm : IsCalm out)
    (takes : TakesTexts out) where
  failed-spends :
      (m : OutboxMessage) (text : Bytes) (d : Dispatcher)
      → IsFresh d.rows m
      → any (is_row m.id m.occurred_at) d.rows ≡ true
      → budget (failed out m text d).0.rows < budget d.rows
  unfolding failed after_statement
  failed-spends m text d fresh found =
      rw
        (
          calm d.statements,
          failed_update-open out.storable (out.moment d.statements) m.id m.occurred_at text d.rows
              takes fresh,
        )
        (update-budget_lt (is_row m.id m.occurred_at)
          (mark_failed (out.moment d.statements) (cut_error text))
          (failed-remaining (out.moment d.statements) (cut_error text)) d.rows fresh found)

  published-spends :
      (m : OutboxMessage) (d : Dispatcher)
      → IsFresh d.rows m
      → any (is_row m.id m.occurred_at) d.rows ≡ true
      → budget (published out m d).0.rows < budget d.rows
  unfolding published after_statement
  published-spends m d fresh found = rw (calm d.statements) (
      update-budget_lt (is_row m.id m.occurred_at) (mark_published (out.moment d.statements))
        (published-remaining (out.moment d.statements)) d.rows fresh found)

  answer-spends :
      (m : OutboxMessage) (answer : Answer) (d : Dispatcher)
      → ((until : ℕ) → answer ≢ held until)
      → IsFresh d.rows m
      → any (is_row m.id m.occurred_at) d.rows ≡ true
      → budget (after_answer out m answer d).rows < budget d.rows
  unfolding after_answer
  answer-spends m sent d never fresh found =
      rw
        (count_if-rows (published out m (record d { delivered = m ∷ d.delivered })).1 "published" m
          (published out m (record d { delivered = m ∷ d.delivered })).0)
        (published-spends m (record d { delivered = m ∷ d.delivered }) fresh found)
  answer-spends m (held until) d never fresh found = absurd (never until refl)
  answer-spends m (broken text) d never fresh found =
      rw
        (count_if-rows (leb outbox_max_attempts (m.attempts + 1)) "exhausted" m
          (count "failed" m (failed out m text d).0))
        (failed-spends m text d fresh found)

  handle-spends :
      (o : Option Publisher) (m : OutboxMessage) (d : Dispatcher)
      → ((p : Publisher) → o ≡ some p → (n until : ℕ) → p.publish n m ≢ held until)
      → IsFresh d.rows m
      → any (is_row m.id m.occurred_at) d.rows ≡ true
      → budget (handle out o m d).rows < budget d.rows
  unfolding handle
  handle-spends none m d never fresh found = failed-spends m (no_publisher_text m) d fresh found
  handle-spends (some p) m d never fresh found =
      answer-spends m (p.publish d.publishings m) (record d { publishings = d.publishings + 1 })
        (never p refl d.publishings) fresh found

  -- Handling an open message that is not held spends from the budget, whether it is taken or not.
  pub dispatch_one-spends :
      (m : OutboxMessage) (d : Dispatcher)
      → NeverHeld publishers m
      → IsFresh d.rows m
      → any (is_row m.id m.occurred_at) d.rows ≡ true
      → budget (dispatch_one out publishers m d).rows < budget d.rows
  unfolding dispatch_one
  dispatch_one-spends m d never fresh found =
      handle-spends (find_first (λ p. p.supports m.event_type) publishers) m d never fresh found
