-- ===== src/Outbox/Sound.antt =====
-- The invariant of the outbox under every step. About internal/app/outbox_dispatcher.go.
use cs2_predictor.Outbox.Dispatch.{Surroundings, Dispatcher, batch, Publisher, Fate, heard}
use cs2_predictor.Outbox.Table.{
  OutboxRow, update_where, pending, insert_row, OutboxMessage, is_row, mark_published,
  replay_dead_letters, is_dead, outbox_max_attempts, revive, mark_failed, mark_deferred,
}
use cs2_predictor.Base.{
  sym, ◌≡◌, All-map, [], true, some, arith, refl, All-zip, All, ℕ, none, subst, All-append, List,
  ◌≤◌, ◌∷◌,
}
use cs2_predictor.Outbox.History.{
  still, onward, handled, selected, elsewhere, replayed, crashed, enqueued, table, Step, IsSound,
  Moment, Reach, unanswered,
}
use cs2_predictor.Outbox.Outcomes.{
  untouched, postponed, marked, retried, Handled, dispatch_one-Handled,
}
use cs2_predictor.Outbox.Rows.{
  Apart, ApartRows, All-update, update-IsKeyed, IsFresh, IsOpen, insert-IsKeyed, IsKeyed,
}
use cs2_predictor.Outbox.Batch.{pending-Apart, pending-IsFresh}
use cs2_predictor.Base.Pairs.{Pairs}

pub Handled-IsKeyed :
    (m : OutboxMessage) (rows rows' : List OutboxRow)
    → Handled m rows rows'
    → IsKeyed rows
    → IsKeyed rows'
Handled-IsKeyed m rows rows' (untouched e) h = subst IsKeyed (sym e) h
Handled-IsKeyed m rows rows' (marked at e) h =
    subst IsKeyed (sym e) (update-IsKeyed _ (mark_published at) (λ r. (refl, refl)) rows h)
Handled-IsKeyed m rows rows' (postponed until e) h =
    subst IsKeyed (sym e) (update-IsKeyed _ (mark_deferred until) (λ r. (refl, refl)) rows h)
Handled-IsKeyed m rows rows' (retried at text e) h =
    subst IsKeyed (sym e) (update-IsKeyed _ (mark_failed at text) (λ r. (refl, refl)) rows h)

abbrev IsWithin : List OutboxRow → Type 0
IsWithin = All (λ r. r.attempts ≤ outbox_max_attempts)

Handled-IsWithin :
    (m : OutboxMessage) (rows rows' : List OutboxRow)
    → Handled m rows rows'
    → IsFresh rows m
    → IsWithin rows
    → IsWithin rows'
Handled-IsWithin m rows rows' (untouched e) fresh h = subst IsWithin (sym e) h
Handled-IsWithin m rows rows' (marked at e) fresh h =
    subst IsWithin (sym e) (All-update _ _ _ (mark_published at) (λ r k e. k) (λ r k e. k) rows h)
Handled-IsWithin m rows rows' (postponed until e) fresh h =
    subst IsWithin (sym e) (All-update _ _ _ (mark_deferred until) (λ r k e. k) (λ r k e. k) rows h)
Handled-IsWithin m rows rows' (retried at text e) fresh h = subst IsWithin (sym e) (
    All-update (λ r. IsFresh (r ∷ []) m × (r.attempts ≤ outbox_max_attempts)) _ _
      (mark_failed at text) (λ r k e. omega (arith, (k.0.0 e).1)) (λ r k e. k.1) rows
      (All-zip _ _ rows (All-map _ _ (λ r k. (k, tt)) rows fresh) h))

-- What other messages need of the table is kept.
other_fresh :
    (m n : OutboxMessage) (change : OutboxRow → OutboxRow)
    → ((r : OutboxRow) → ((change r).id ≡ r.id) × ((change r).occurred_at ≡ r.occurred_at))
    → Apart m n
    → (rows : List OutboxRow) → IsFresh rows n
    → IsFresh (update_where (is_row m.id m.occurred_at) change rows) n
other_fresh m n change keep apart rows h =
    All-update (λ r. is_row n.id n.occurred_at r ≡ true → IsOpen r) _ _ change
      (λ r k e f. absurd (clash r (change r) (keep r) e f)) (λ r k e. k) rows h
  where
    clash :
        (r s : OutboxRow)
        → (s.id ≡ r.id) × (s.occurred_at ≡ r.occurred_at)
        → is_row m.id m.occurred_at r ≡ true
        → is_row n.id n.occurred_at s ≡ true
        → ⊥
    clash r s same e f = ground arith

pub Handled-IsFresh :
    (m n : OutboxMessage) (rows rows' : List OutboxRow)
    → Handled m rows rows'
    → Apart m n
    → IsFresh rows n
    → IsFresh rows' n
Handled-IsFresh m n rows rows' (untouched e) apart h = subst (λ l. IsFresh l n) (sym e) h
Handled-IsFresh m n rows rows' (marked at e) apart h =
    subst (λ l. IsFresh l n) (sym e)
      (other_fresh m n (mark_published at) (λ r. (refl, refl)) apart rows h)
Handled-IsFresh m n rows rows' (postponed until e) apart h =
    subst (λ l. IsFresh l n) (sym e)
      (other_fresh m n (mark_deferred until) (λ r. (refl, refl)) apart rows h)
Handled-IsFresh m n rows rows' (retried at text e) apart h =
    subst (λ l. IsFresh l n) (sym e)
      (other_fresh m n (mark_failed at text) (λ r. (refl, refl)) apart rows h)

enqueued-IsSound :
    (s : Moment) (row : OutboxRow)
    → row.published_at ≡ none
    → row.attempts ≡ 0
    → All (ApartRows row) (table s)
    → IsSound s
    → IsSound (elsewhere (insert_row row (table s)) s)
enqueued-IsSound s row p a apart h = record {
  keyed = insert-IsKeyed row (table s) h.keyed apart;
  within = All-append _ (table s) (row ∷ []) h.within (omega arith, tt);
  fresh =
      All-map (IsFresh (table s)) _
        (λ m k. All-append _ (table s) (row ∷ []) k (λ e. (p, omega arith), tt)) s.left_over
        h.fresh;
  apart = h.apart;
}

replayed-IsSound :
    (s : Moment) (at : ℕ) → IsSound s → IsSound (elsewhere (replay_dead_letters at (table s)).0 s)
unfolding replay_dead_letters
replayed-IsSound s at h = record {
  keyed = update-IsKeyed is_dead (revive at) (λ r. (refl, refl)) (table s) h.keyed;
  within =
      All-update _ _ is_dead (revive at) (λ r k e. omega arith) (λ r k e. k) (table s) h.within;
  fresh =
      All-map (IsFresh (table s)) _
        (λ m k.
          All-update _ _ is_dead (revive at) (λ r j e f. ((j f).0, omega arith)) (λ r j e. j)
            (table s) k)
        s.left_over h.fresh;
  apart = h.apart;
}

heard-eq_some : (fate : Fate) (l ms : List OutboxMessage) → heard fate l ≡ some ms → l ≡ ms
unfolding heard
heard-eq_some Fate.settled l ms h = cc
heard-eq_some Fate.refused l ms h = cc
heard-eq_some Fate.unheard l ms h = cc

batch-eq_some :
    (out : Surroundings) (size : ℕ) (d : Dispatcher) (ms : List OutboxMessage)
    → batch out size d ≡ some ms
    → pending (out.moment d.statements) size d.rows ≡ ms
unfolding batch
batch-eq_some out size d ms h = heard-eq_some (out.fate d.statements) _ ms h

pub Step-IsSound :
    (out : Surroundings) (publishers : List Publisher) (s t : Moment)
    → Step out publishers s t
    → IsSound s
    → IsSound t
Step-IsSound out ps s t (enqueued row p a apart e) h =
    subst IsSound (sym e) (enqueued-IsSound s row p a apart h)
Step-IsSound out ps s t (replayed at e) h = subst IsSound (sym e) (replayed-IsSound s at h)
Step-IsSound out ps s t (selected size ms idle b e) h = subst IsSound (sym e) (record {
  keyed = h.keyed;
  within = h.within;
  fresh =
      subst (All (IsFresh (table s))) (batch-eq_some out size s.dispatcher ms b)
        (pending-IsFresh _ size (table s) h.keyed);
  apart =
      subst (Pairs Apart) (batch-eq_some out size s.dispatcher ms b)
        (pending-Apart _ size (table s) h.keyed);
})
Step-IsSound out ps s t (unanswered e) h =
    subst IsSound (sym e)
      (record { keyed = h.keyed; within = h.within; fresh = h.fresh; apart = h.apart })
Step-IsSound out ps s t (handled m ms b e) h =
    let change = dispatch_one-Handled out ps m s.dispatcher in
    let fresh : All (IsFresh (table s)) (m ∷ ms) = subst (All (IsFresh (table s))) b h.fresh in
    let apart : Pairs Apart (m ∷ ms) = subst (Pairs Apart) b h.apart in
    subst IsSound (sym e) (record {
      keyed = Handled-IsKeyed m (table s) _ change h.keyed;
      within = Handled-IsWithin m (table s) _ change fresh.0 h.within;
      fresh =
          All-map (λ n. Apart m n × IsFresh (table s) n) _
            (λ n k. Handled-IsFresh m n (table s) _ change k.0 k.1) ms
            (All-zip _ _ ms apart.0 fresh.1);
      apart = apart.1;
    })
Step-IsSound out ps s t (crashed e) h =
    subst IsSound (sym e) (record { keyed = h.keyed; within = h.within; fresh = tt; apart = tt })

-- Whatever the dispatcher, other writers, replays and crashes do in whatever order, from a sound
-- moment on the keys of the rows stay different, no row has more than 20 attempts, and the batch
-- names rows that are unpublished and have attempts left, each at most once.
pub Reach-IsSound :
    (out : Surroundings) (publishers : List Publisher) {s t : Moment}
    → IsSound s
    → Reach out publishers s t
    → IsSound t
Reach-IsSound out ps h still = h
Reach-IsSound out ps h (onward r step) = Step-IsSound out ps _ _ step (Reach-IsSound out ps h r)
