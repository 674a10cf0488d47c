-- ===== src/Outbox/Final.antt =====
-- What the outbox does not take back until retention deletes it: a row keeps what it announces, and a
-- published row keeps all. About internal/app/outbox_dispatcher.go.
use cs2_predictor.Outbox.History.{
  still, onward, replayed, unanswered, crashed, handled, IsSound, enqueued, selected, Step, table,
  Reach, Moment,
}
use cs2_predictor.Outbox.Outcomes.{
  untouched, dispatch_one-Handled, postponed, Handled, marked, retried,
}
use cs2_predictor.Base.{
  [], ◌++◌, refl, none, ◌≡◌, All, ◌∙◌, subst, inl, inr, Option, List, arith, ℕ, true, some, ◌∷◌,
  is_some, Bool, sym, All-map, Bool-cases,
}
use cs2_predictor.Outbox.Rows.{IsFresh}
use cs2_predictor.Outbox.Table.{
  mark_failed, OutboxRow, OutboxMessage, mark_published, mark_deferred, replay_dead_letters, revive,
  update_where, is_dead,
}
use cs2_predictor.Outbox.Dispatch.{Surroundings, Publisher}
use cs2_predictor.Outbox.Sound.{Reach-IsSound}

-- What a row may become.
abbrev pub Becomes : OutboxRow → OutboxRow → Type 0
Becomes r s =
    (s.id ≡ r.id)
    × (s.occurred_at ≡ r.occurred_at)
    × (s.event_type ≡ r.event_type)
    × (s.payload ≡ r.payload)
    × (s.aggregate_type ≡ r.aggregate_type)
    × (s.aggregate_id ≡ r.aggregate_id)
    × (is_some r.published_at ≡ true → s ≡ r)

-- Row by row, with new rows at the end.
abbrev pub Evolves : List OutboxRow → List OutboxRow → Type 0
Evolves [] after = Unit {0}
Evolves (r ∷ rows) [] = ⊥
Evolves (r ∷ rows) (s ∷ after) = Becomes r s × Evolves rows after

Becomes-refl : (r : OutboxRow) → Becomes r r
Becomes-refl r = (refl, refl, refl, refl, refl, refl, λ p. refl)

Evolves-refl : (rows : List OutboxRow) → Evolves rows rows
Evolves-refl [] = tt
Evolves-refl (r ∷ rows) = (Becomes-refl r, Evolves-refl rows)

Becomes-trans : (r s t : OutboxRow) → Becomes r s → Becomes s t → Becomes r t
Becomes-trans r s t h k = (
  k.0 ∙ h.0,
  k.1 ∙ h.1,
  k.2 ∙ h.2,
  k.3 ∙ h.3,
  k.4 ∙ h.4,
  k.5 ∙ h.5,
  λ p. k.6 (subst (λ x. is_some x.published_at ≡ true) (sym (h.6 p)) p) ∙ h.6 p,
)

Evolves-trans : (a b c : List OutboxRow) → Evolves a b → Evolves b c → Evolves a c
Evolves-trans [] b c h k = tt
Evolves-trans (x ∷ a) [] c h k = absurd h
Evolves-trans (x ∷ a) (y ∷ b) [] h k = absurd k
Evolves-trans (x ∷ a) (y ∷ b) (z ∷ c) h k =
    (Becomes-trans x y z h.0 k.0, Evolves-trans a b c h.1 k.1)

Evolves-append : (rows more : List OutboxRow) → Evolves rows (rows ++ more)
Evolves-append [] more = tt
Evolves-append (r ∷ rows) more = (Becomes-refl r, Evolves-append rows more)

Evolves-update :
    (test : OutboxRow → Bool) (change : OutboxRow → OutboxRow)
    → ((r : OutboxRow) → r.published_at ≡ none → Becomes r (change r))
    → (rows : List OutboxRow) → All (λ r. test r ≡ true → r.published_at ≡ none) rows
    → Evolves rows (update_where test change rows)
Evolves-update test change fair [] h = tt
Evolves-update test change fair (r ∷ rows) h = elim (Bool-cases (test r)) [
  | inl e ↦ rw e (fair r (h.0 e), Evolves-update test change fair rows h.1)
  | inr e ↦ rw e (Becomes-refl r, Evolves-update test change fair rows h.1)
]

-- An open row is not published, so nothing is asked of its other columns.
open_Becomes :
    (r s : OutboxRow)
    → (s.id ≡ r.id)
      × (s.occurred_at ≡ r.occurred_at)
      × (s.event_type ≡ r.event_type)
      × (s.payload ≡ r.payload)
      × (s.aggregate_type ≡ r.aggregate_type)
      × (s.aggregate_id ≡ r.aggregate_id)
    → r.published_at ≡ none
    → Becomes r s
open_Becomes r s h p = (h.0, h.1, h.2, h.3, h.4, h.5, λ q. absurd (clash r.published_at p q))
  where
    clash : (o : Option ℕ) → o ≡ none → is_some o ≡ true → ⊥
    clash none e q = cc
    clash (some x) e q = cc

Handled-Evolves :
    (m : OutboxMessage) (rows rows' : List OutboxRow)
    → Handled m rows rows'
    → IsFresh rows m
    → Evolves rows rows'
Handled-Evolves m rows rows' (untouched e) h = subst (Evolves rows) (sym e) (Evolves-refl rows)
Handled-Evolves m rows rows' (marked at e) h = subst (Evolves rows) (sym e) (
    Evolves-update _ (mark_published at)
      (λ r. open_Becomes r (mark_published at r) (refl, refl, refl, refl, refl, refl)) rows
      (All-map _ _ (λ r k f. (k f).0) rows h))
Handled-Evolves m rows rows' (postponed until e) h = subst (Evolves rows) (sym e) (
    Evolves-update _ (mark_deferred until)
      (λ r. open_Becomes r (mark_deferred until r) (refl, refl, refl, refl, refl, refl)) rows
      (All-map _ _ (λ r k f. (k f).0) rows h))
Handled-Evolves m rows rows' (retried at text e) h = subst (Evolves rows) (sym e) (
    Evolves-update _ (mark_failed at text)
      (λ r. open_Becomes r (mark_failed at text r) (refl, refl, refl, refl, refl, refl)) rows
      (All-map _ _ (λ r k f. (k f).0) rows h))

replay-Evolves : (at : ℕ) (rows : List OutboxRow) → Evolves rows (replay_dead_letters at rows).0
unfolding replay_dead_letters
replay-Evolves at rows =
    Evolves-update is_dead (revive at)
      (λ r. open_Becomes r (revive at r) (refl, refl, refl, refl, refl, refl)) rows (dead rows)
  where
    unset : (r : OutboxRow) → is_dead r ≡ true → r.published_at ≡ none
    unset r h = ground arith

    dead : (l : List OutboxRow) → All (λ r. is_dead r ≡ true → r.published_at ≡ none) l
    dead [] = tt
    dead (r ∷ l) = (unset r, dead l)

pub Step-Evolves :
    (out : Surroundings) (publishers : List Publisher) (s t : Moment)
    → Step out publishers s t
    → IsSound s
    → Evolves (table s) (table t)
Step-Evolves out ps s t (enqueued row p a apart e) h =
    subst (λ u. Evolves (table s) (table u)) (sym e) (Evolves-append (table s) (row ∷ []))
Step-Evolves out ps s t (replayed at e) h =
    subst (λ u. Evolves (table s) (table u)) (sym e) (replay-Evolves at (table s))
Step-Evolves out ps s t (selected size ms idle b e) h =
    subst (λ u. Evolves (table s) (table u)) (sym e) (Evolves-refl (table s))
Step-Evolves out ps s t (unanswered e) h =
    subst (λ u. Evolves (table s) (table u)) (sym e) (Evolves-refl (table s))
Step-Evolves out ps s t (handled m ms b e) h =
    subst (λ u. Evolves (table s) (table u)) (sym e)
      (Handled-Evolves m (table s) _ (dispatch_one-Handled out ps m s.dispatcher)
        (subst (All (IsFresh (table s))) b h.fresh).0)
Step-Evolves out ps s t (crashed e) h =
    subst (λ u. Evolves (table s) (table u)) (sym e) (Evolves-refl (table s))

-- From a sound moment on, as long as the retention job deletes nothing, under every sequence of
-- enqueues, replays, queries and handlings of the dispatcher and crashes: every row stays and keeps
-- its key, its event type, its payload and its aggregate, and a row that is published keeps every
-- column.
pub Reach-Evolves :
    (out : Surroundings) (publishers : List Publisher) {s t : Moment}
    → IsSound s
    → Reach out publishers s t
    → Evolves (table s) (table t)
Reach-Evolves out ps {s} h still = Evolves-refl (table s)
Reach-Evolves out ps {s} h (onward {t} {u} r step) =
    Evolves-trans (table s) (table t) (table u) (Reach-Evolves out ps h r)
      (Step-Evolves out ps t u step (Reach-IsSound out ps h r))
