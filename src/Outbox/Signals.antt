-- ===== src/Outbox/Signals.antt =====
-- What a failed handling leaves in the row and in the metrics: the signal of a spent budget, and
-- the texts that the database refuses. About dispatchOne of internal/app/outbox_dispatcher.go.

-- The rows of the message have the attempts that the message was read with.
use cs2_predictor.Outbox.Dispatch.{
  dispatch, Dispatcher, dispatch_all, after_statement, no_publisher_text, broken, Fate, handle,
  Publisher, Surroundings, count_if, dispatch_one, after_answer, failed,
}
use cs2_predictor.Outbox.Delivery.{IsCalm, dispatch_calm}
use cs2_predictor.Base.{
  inr, find_first, All-map, ◌∙◌, refl, List, leb, ℕ, false, inl, ◌+◌, none, All-zip, some, All, ap,
  if◌then◌else◌, Bool-cases, Bool, ◌∷◌, true, ◌≡◌, zero, [], suc, length, arith, ltb, subst, sym,
  ◌++◌, ◌≤◌, take,
}
use cs2_predictor.Outbox.Budget.{failed_update-open, TakesTexts}
use cs2_predictor.Outbox.Table.{
  is_row, is_dead, outbox_max_attempts, Bytes, failed_update, OutboxRow, mark_failed, update_where,
  OutboxMessage, pending, cut_error,
}
use cs2_predictor.Outbox.Retries.{runs}
use cs2_predictor.Outbox.Rows.{IsFresh, All-update}
use cs2_predictor.Outbox.Outcomes.{count_if-rows}
use cs2_predictor.Prediction.Effects.{answer}

abbrev pub HasAttempts : List OutboxRow → OutboxMessage → Type 0
HasAttempts rows m = All (λ r. is_row m.id m.occurred_at r ≡ true → r.attempts ≡ m.attempts) rows

-- After the handling the rows of the message are dead exactly if the test holds.
abbrev pub AreDead : Bool → List OutboxRow → OutboxMessage → Type 0
AreDead spent rows m = All (λ r. is_row m.id m.occurred_at r ≡ true → is_dead r ≡ spent) rows

failed_update-AreDead :
    (m : OutboxMessage) (at : ℕ) (text : Bytes) (rows : List OutboxRow)
    → IsFresh rows m
    → HasAttempts rows m
    → AreDead
        (leb outbox_max_attempts (m.attempts + 1))
        (update_where (is_row m.id m.occurred_at) (mark_failed at text) rows)
        m
failed_update-AreDead m at text rows fresh same =
    All-update (λ r. IsFresh (r ∷ []) m × HasAttempts (r ∷ []) m) _ (is_row m.id m.occurred_at)
      (mark_failed at text) (λ r k e f. becomes r (k.0.0 e).0 (k.1.0 e))
      (λ r k e f. absurd (clash r e f)) rows
      (All-zip _ _ rows (All-map _ _ (λ r k. (k, tt)) rows fresh)
        (All-map _ _ (λ r k. (k, tt)) rows same))
  where
    becomes :
        (r : OutboxRow)
        → r.published_at ≡ none
        → r.attempts ≡ m.attempts
        → is_dead (mark_failed at text r) ≡ leb outbox_max_attempts (m.attempts + 1)
    becomes r unset e = rw (unset, e)

    clash :
        (r : OutboxRow)
        → is_row m.id m.occurred_at r ≡ false
        → is_row m.id m.occurred_at r ≡ true
        → ⊥
    clash r e f = cc

module _ (out : Surroundings) (publishers : List Publisher) (m : OutboxMessage) (d : Dispatcher)
    (calm : IsCalm out) (takes : TakesTexts out) (fresh : IsFresh d.rows m)
    (same : HasAttempts d.rows m) where
  -- Where every statement is done and the database takes the text, a publisher's error counts as
  -- "failed", and as "exhausted" besides exactly if it is the twentieth, and then, and only then,
  -- the message's row is dead afterwards.
  broken_signal :
      (p : Publisher) (text : Bytes)
      → find_first (λ q. q.supports m.event_type) publishers ≡ some p
      → p.publish d.publishings m ≡ broken text
      → AreDead (leb outbox_max_attempts (m.attempts + 1)) (dispatch_one out publishers m d).rows m
        × ((dispatch_one out publishers m d).counted ≡ (
            if leb outbox_max_attempts (m.attempts + 1)
            then ("exhausted", m.event_type) ∷ ("failed", m.event_type) ∷ d.counted
            else ("failed", m.event_type) ∷ d.counted))
  unfolding dispatch_one handle after_answer failed after_statement count_if
  broken_signal p text found answer =
      let written =
        failed_update-open out.storable (out.moment d.statements) m.id m.occurred_at text d.rows
          takes fresh in
      let dead =
        failed_update-AreDead m (out.moment d.statements) (cut_error text) d.rows fresh same in
      elim (Bool-cases (leb outbox_max_attempts (m.attempts + 1))) [
        | inl e ↦ rw (found, answer, e, calm d.statements, written) (rw e at dead, refl)
        | inr e ↦ rw (found, answer, e, calm d.statements, written) (rw e at dead, refl)
      ]

  -- A message that no publisher supports counts as "unsupported" and as nothing else, also at the
  -- twentieth attempt, after which its row is dead.
  unsupported_signal :
      find_first (λ q. q.supports m.event_type) publishers ≡ none
      → AreDead (leb outbox_max_attempts (m.attempts + 1)) (dispatch_one out publishers m d).rows m
        × ((dispatch_one out publishers m d).counted ≡ ("unsupported", m.event_type) ∷ d.counted)
  unfolding dispatch_one handle failed after_statement
  unsupported_signal found =
      let written =
        failed_update-open out.storable (out.moment d.statements) m.id m.occurred_at
          (no_publisher_text m) d.rows takes fresh in
      rw (found, calm d.statements, written)
        (
          failed_update-AreDead m (out.moment d.statements) (cut_error (no_publisher_text m)) d.rows
              fresh same,
          refl,
        )

  -- Where every statement is done, the database takes the texts, and the message's rows are open
  -- with its attempts: a publisher's error counts as "failed", and as "exhausted" besides exactly if
  -- it is the twentieth attempt, and then, and only then, the message's rows are dead afterwards. A
  -- message that no publisher supports counts as "unsupported" and as nothing else, also if its
  -- rows are dead afterwards, which they are exactly if this was the twentieth attempt.
  pub failure_signals :
      ((p : Publisher) (text : Bytes)
        → find_first (λ q. q.supports m.event_type) publishers ≡ some p
        → p.publish d.publishings m ≡ broken text
        → AreDead
            (leb outbox_max_attempts (m.attempts + 1))
            (dispatch_one out publishers m d).rows
            m
          × ((dispatch_one out publishers m d).counted ≡ (
              if leb outbox_max_attempts (m.attempts + 1)
              then ("exhausted", m.event_type) ∷ ("failed", m.event_type) ∷ d.counted
              else ("failed", m.event_type) ∷ d.counted)))
      × (find_first (λ q. q.supports m.event_type) publishers ≡ none
          → AreDead
              (leb outbox_max_attempts (m.attempts + 1))
              (dispatch_one out publishers m d).rows
              m
            × ((dispatch_one out publishers m d).counted
                ≡ ("unsupported", m.event_type) ∷ d.counted))
  failure_signals = (broken_signal, unsupported_signal)

-- The last byte is the first of a longer character in UTF-8.
abbrev pub ends_in_lead : Bytes → Bool
ends_in_lead [] = false
ends_in_lead (c ∷ []) = leb 192 c
ends_in_lead (c ∷ d ∷ text) = ends_in_lead (d ∷ text)

-- PostgreSQL takes no text that ends within a character.
abbrev pub RefusesCutCharacters : Surroundings → Type 0
RefusesCutCharacters out = (text : Bytes) → ends_in_lead text ≡ true → out.storable text ≡ false

-- A character of several bytes stands over the 4000th byte.
abbrev pub IsSplit : Bytes → Type 0
IsSplit text =
    (front rest : Bytes) × (c d : ℕ) × (text ≡ front ++ c ∷ d ∷ rest)
    × (length front ≡ 3999)
    × (192 ≤ c)

-- The publisher answers with such an error text, whenever it is called.
abbrev pub BreaksLong : List Publisher → OutboxMessage → Type 0
BreaksLong publishers m =
    (p : Publisher) × (find_first (λ q. q.supports m.event_type) publishers ≡ some p)
    × ((n : ℕ) → (text : Bytes) × (p.publish n m ≡ broken text) × IsSplit text)

take-lead :
    (front rest : Bytes) (c n : ℕ)
    → length front ≡ n
    → 192 ≤ c
    → ends_in_lead (take (suc n) (front ++ c ∷ rest)) ≡ true
take-lead [] rest c zero e h = ground arith
take-lead [] rest c (suc n) e h = absurd (omega (arith, e))
take-lead (b ∷ front) rest c zero e h = absurd (omega (arith, e))
take-lead (b ∷ []) rest c (suc zero) e h = ground arith
take-lead (b ∷ []) rest c (suc (suc n)) e h = absurd (omega (arith, e))
take-lead (b ∷ a ∷ front) rest c (suc n) e h = take-lead (a ∷ front) rest c n (omega (arith, e)) h

length-split :
    (front rest : Bytes) (c d : ℕ) → length (front ++ c ∷ d ∷ rest) ≡ length front + 2 + length rest
length-split [] rest c d = omega arith
length-split (b ∷ front) rest c d = omega (arith, length-split front rest c d)

cut_error-split : (text : Bytes) → IsSplit text → ends_in_lead (cut_error text) ≡ true
cut_error-split text (front, rest, c, d, e, len, h) =
    subst (λ t. ends_in_lead (cut_error t) ≡ true) (sym e)
      (rw long (take-lead front (d ∷ rest) c 3999 len h))
  where
    long : ltb 4000 (length (front ++ c ∷ d ∷ rest)) ≡ true
    long = ground (arith, length-split front rest c d)

unwritten_rows : (fate : Fate) (d : Dispatcher) → (after_statement fate none d).0.rows ≡ d.rows
unfolding after_statement
unwritten_rows Fate.settled d = refl
unwritten_rows Fate.refused d = refl
unwritten_rows Fate.unheard d = refl

stuck_one :
    (out : Surroundings) (publishers : List Publisher) (m : OutboxMessage) (d : Dispatcher)
    → RefusesCutCharacters out
    → BreaksLong publishers m
    → (dispatch_one out publishers m d).rows ≡ d.rows
unfolding dispatch_one handle after_answer failed failed_update
stuck_one out publishers m d strict (p, found, breaks) =
    let (text, answer, split) = breaks d.publishings in
    rw (found, answer, count_if-rows, strict (cut_error text) (cut_error-split text split))
      (unwritten_rows (out.fate d.statements) (record d { publishings = d.publishings + 1 }))

stuck_all :
    (out : Surroundings) (publishers : List Publisher) (ms : List OutboxMessage) (d : Dispatcher)
    → RefusesCutCharacters out
    → ((m : OutboxMessage) → BreaksLong publishers m)
    → (dispatch_all out publishers ms d).rows ≡ d.rows
unfolding dispatch_all
stuck_all out publishers [] d strict breaks = refl
stuck_all out publishers (m ∷ ms) d strict breaks =
    stuck_all out publishers ms (dispatch_one out publishers m d) strict breaks
    ∙ stuck_one out publishers m d strict (breaks m)

-- Where the database takes no text that ends within a character and every statement is done, and the
-- publishers always fail with a text in which a character of several bytes, its first at least 192,
-- begins at the 4000th byte, no number of runs changes any row: no attempt is counted, and the same
-- messages stay due.
pub runs-split :
    (out : Surroundings) (publishers : List Publisher) (size k : ℕ) (d : Dispatcher)
    → IsCalm out
    → RefusesCutCharacters out
    → ((m : OutboxMessage) → BreaksLong publishers m)
    → (runs out publishers size k d).rows ≡ d.rows
runs-split out publishers size zero d calm strict breaks = refl
runs-split out publishers size (suc k) d calm strict breaks =
    runs-split out publishers size k (dispatch out publishers size true d) calm strict breaks
    ∙ ap (λ e. e.rows) (dispatch_calm out publishers size d calm)
    ∙ stuck_all out publishers (pending (out.moment d.statements) size d.rows)
        (record d { statements = d.statements + 1 }) strict breaks
