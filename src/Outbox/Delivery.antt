-- ===== src/Outbox/Delivery.antt =====
-- Delivery: without faults a batch that the publishers take leaves nothing due behind.
-- About Dispatch of internal/app/outbox_dispatcher.go.

-- Every statement is done and answered.
use cs2_predictor.Base.{
  ◌∷◌, refl, arith, false, List, find_first, subst, All, Bool, [], any, some, sym, ℕ, true, ◌≡◌,
  All-map, keep_if, ◌∙◌, take-all, length, ◌≤◌, ◌+◌, any-map,
}
use cs2_predictor.Outbox.Table.{
  update_where, occurred_before, is_pending, is_row, OutboxRow, OutboxMessage, mark_published,
  pending, message_of,
}
use cs2_predictor.Outbox.Dispatch.{
  dispatch_one, after_answer, handle, Surroundings, Dispatcher, Publisher, dispatch_all, Fate, sent,
  count_if, after_statement, published, dispatch, batch, heard, run_batch,
}
use cs2_predictor.Base.Sort.{stable_sort, length-stable_sort, any-stable_sort}
use cs2_predictor.Outbox.Rows.{All-update}

abbrev pub IsCalm : Surroundings → Type 0
IsCalm out = (n : ℕ) → out.fate n ≡ Fate.settled

-- The first publisher that supports the message's type takes it, whenever it is called.
abbrev pub Accepts : List Publisher → OutboxMessage → Type 0
Accepts publishers m =
    (p : Publisher) × (find_first (λ q. q.supports m.event_type) publishers ≡ some p)
    × ((n : ℕ) → p.publish n m ≡ sent)

-- Without a fault the row of a message that is taken is marked, and no other.
pub dispatch_one-rows :
    (out : Surroundings) (publishers : List Publisher) (m : OutboxMessage) (d : Dispatcher)
    → IsCalm out
    → Accepts publishers m
    → (dispatch_one out publishers m d).rows
      ≡ update_where (is_row m.id m.occurred_at) (mark_published (out.moment d.statements)) d.rows
unfolding dispatch_one handle after_answer published after_statement count_if
dispatch_one-rows out publishers m d calm (p, found, takes) =
    rw (found, takes d.publishings, calm d.statements)

abbrev pub names_row : List OutboxMessage → OutboxRow → Bool
names_row ms r = any (λ m. is_row m.id m.occurred_at r) ms

-- If all rows due at a moment are named by the messages, none is due after these are handled.
dispatch_all-drains :
    (out : Surroundings) (publishers : List Publisher) (at : ℕ) (ms : List OutboxMessage)
    (d : Dispatcher)
    → IsCalm out
    → All (Accepts publishers) ms
    → All (λ r. is_pending at r ≡ true → names_row ms r ≡ true) d.rows
    → All (λ r. is_pending at r ≡ false) (dispatch_all out publishers ms d).rows
unfolding dispatch_all
dispatch_all-drains out publishers at [] d calm acc h =
    All-map _ _ (λ r k. ground (arith, k)) d.rows h
dispatch_all-drains out publishers at (m ∷ ms) d calm acc h =
    dispatch_all-drains out publishers at ms (dispatch_one out publishers m d) calm acc.1 (
      subst (All (λ r. is_pending at r ≡ true → names_row ms r ≡ true))
        (sym (dispatch_one-rows out publishers m d calm acc.0))
        (All-update (λ r. is_pending at r ≡ true → names_row (m ∷ ms) r ≡ true)
          (λ r. is_pending at r ≡ true → names_row ms r ≡ true) (is_row m.id m.occurred_at) _
          (λ r k e f. cc) (λ r k e f. ground (arith, k f)) d.rows h))

-- The batch names every row that is due, if it is large enough.
pending-names :
    (at limit : ℕ) (rows : List OutboxRow)
    → length (keep_if (is_pending at) rows) ≤ limit
    → All (λ r. is_pending at r ≡ true → names_row (pending at limit rows) r ≡ true) rows
unfolding pending
pending-names at limit rows room =
    All-map _ _
      (λ r k p.
        rw
          (take-all limit (stable_sort occurred_before (keep_if (is_pending at) rows))
            (subst (λ n. n ≤ limit) (sym (length-stable_sort occurred_before _)) room))
          (any-map (λ m. is_row m.id m.occurred_at r) message_of _
            ∙ any-stable_sort occurred_before (λ s. is_row s.id s.occurred_at r) _
            ∙ k p))
      rows (selected_named rows)
  where
    own : (r : OutboxRow) → is_row r.id r.occurred_at r ≡ true
    own r = ground arith

    selected_named :
        (l : List OutboxRow)
        → All
            (λ r.
              is_pending at r ≡ true
              → any (λ s. is_row s.id s.occurred_at r) (keep_if (is_pending at) l) ≡ true)
            l
    selected_named [] = tt
    selected_named (x ∷ l) = (
      λ p. rw p (ground (arith, own x)),
      All-map _ _ (λ r k p. ground (arith, k p)) l (selected_named l),
    )

none_left :
    (test : OutboxRow → Bool) (rows : List OutboxRow)
    → All (λ r. test r ≡ false) rows
    → keep_if test rows ≡ []
none_left test [] h = refl
none_left test (r ∷ rows) h = rw h.0 (none_left test rows h.1)

-- A query that is answered gives the batch.
pub dispatch_calm :
    (out : Surroundings) (publishers : List Publisher) (size : ℕ) (d : Dispatcher)
    → IsCalm out
    → dispatch out publishers size true d
      ≡ dispatch_all out publishers
          (pending (out.moment d.statements) size d.rows)
          (record d { statements = d.statements + 1 })
unfolding dispatch run_batch batch heard
dispatch_calm out publishers size d calm = rw (calm d.statements)

-- Where every statement is done, the batch has room for all rows that are due, and the publishers
-- take every due message, one run of the dispatcher leaves no row that was due at the moment of
-- its query.
pub dispatch-drains :
    (out : Surroundings) (publishers : List Publisher) (size : ℕ) (d : Dispatcher)
    → IsCalm out
    → length (keep_if (is_pending (out.moment d.statements)) d.rows) ≤ size
    → All (Accepts publishers) (pending (out.moment d.statements) size d.rows)
    → keep_if (is_pending (out.moment d.statements)) (dispatch out publishers size true d).rows ≡ []
dispatch-drains out publishers size d calm room acc =
    let at = out.moment d.statements in
    let started : Dispatcher = record d { statements = d.statements + 1 } in
    subst (λ e. keep_if (is_pending at) e.rows ≡ [])
      (sym (dispatch_calm out publishers size d calm))
      (none_left (is_pending at) _ (
        dispatch_all-drains out publishers at (pending at size d.rows) started calm acc
          (pending-names at size d.rows room)))
