-- ===== src/Outbox/Once.antt =====
-- A published message is not sent again. About internal/app/outbox_dispatcher.go.
use cs2_predictor.Outbox.History.{
  still, onward, crashed, Moment, replayed, Reach, enqueued, handled, Step, unanswered, selected,
  table, IsSound,
}
use cs2_predictor.Outbox.Dispatch.{
  broken, Surroundings, Publisher, sent, after_statement, count, published, Fate, handle,
  after_answer, held, count_if, Dispatcher, defer, failed, Answer, dispatch_one,
}
use cs2_predictor.Base.{
  String, inr, sym, ◌&&◌, ◌≡◌, any, none, is_some, List, ◌∙◌, keep_if, All, ◌==◌, find_first, refl,
  true, some, inl, ◌∷◌, Option, false, Bool, subst, ◌+◌, arith, [], ℕ, Bool-cases, leb, length,
}
use cs2_predictor.Outbox.Rows.{IsFresh}
use cs2_predictor.Outbox.Sound.{Reach-IsSound}
use cs2_predictor.Outbox.Table.{is_row, OutboxRow, OutboxMessage, outbox_max_attempts}
use cs2_predictor.Outbox.Final.{Step-Evolves, Evolves}

-- How often a publisher took the message of this key.
abbrev pub sendings : ℕ → ℕ → Dispatcher → ℕ
sendings id at d = length (keep_if (λ m. (m.id == id) && (m.occurred_at == at)) d.delivered)

-- Whether a row of this key is published.
abbrev pub is_published : ℕ → ℕ → List OutboxRow → Bool
is_published id at = any (λ r. is_row id at r && is_some r.published_at)

after_statement-delivered :
    (fate : Fate) (written : Option (List OutboxRow)) (d : Dispatcher)
    → (after_statement fate written d).0.delivered ≡ d.delivered
unfolding after_statement
after_statement-delivered Fate.settled (some written) d = refl
after_statement-delivered Fate.refused (some written) d = refl
after_statement-delivered Fate.unheard (some written) d = refl
after_statement-delivered Fate.settled none d = refl
after_statement-delivered Fate.refused none d = refl
after_statement-delivered Fate.unheard none d = refl

count_if-delivered :
    (b : Bool) (tag : String) (m : OutboxMessage) (d : Dispatcher)
    → (count_if b tag m d).delivered ≡ d.delivered
unfolding count_if
count_if-delivered true tag m d = refl
count_if-delivered false tag m d = refl

-- Handling a message of another key sends nothing of this one.
after_answer-sendings :
    (out : Surroundings) (m : OutboxMessage) (answer : Answer) (d : Dispatcher) (id at : ℕ)
    → ((m.id == id) && (m.occurred_at == at)) ≡ false
    → sendings id at (after_answer out m answer d) ≡ sendings id at d
unfolding after_answer published defer failed
after_answer-sendings out m sent d id at other = rw (
  count_if-delivered (published out m (record d { delivered = m ∷ d.delivered })).1 "published" m
      (published out m (record d { delivered = m ∷ d.delivered })).0,
  after_statement-delivered,
  other,
)
after_answer-sendings out m (held until) d id at other = rw (
  count_if-delivered (defer out m until d).1 "deferred" m (defer out m until d).0,
  after_statement-delivered,
)
after_answer-sendings out m (broken text) d id at other = rw (
  count_if-delivered (leb outbox_max_attempts (m.attempts + 1)) "exhausted" m
      (count "failed" m (failed out m text d).0),
  after_statement-delivered,
)

handle-sendings :
    (out : Surroundings) (found : Option Publisher) (m : OutboxMessage) (d : Dispatcher) (id at : ℕ)
    → ((m.id == id) && (m.occurred_at == at)) ≡ false
    → sendings id at (handle out found m d) ≡ sendings id at d
unfolding handle failed
handle-sendings out none m d id at other = rw after_statement-delivered
handle-sendings out (some p) m d id at other =
    after_answer-sendings out m (p.publish d.publishings m)
      (record d { publishings = d.publishings + 1 }) id at other

-- A message whose rows are open has another key than a published row.
other_key :
    (m : OutboxMessage) (id at : ℕ) (rows : List OutboxRow)
    → IsFresh rows m
    → is_published id at rows ≡ true
    → ((m.id == id) && (m.occurred_at == at)) ≡ false
other_key m id at [] fresh h = cc
other_key m id at (r ∷ rows) fresh h =
    elim (Bool-cases (is_row id at r && is_some r.published_at)) [
      | inl e ↦ elim (Bool-cases ((m.id == id) && (m.occurred_at == at))) [
        | inl same ↦ absurd (clash r.published_at (fresh.0 (ground arith)).0 (ground arith))
        | inr other ↦ other
      ]
      | inr e ↦ other_key m id at rows fresh.1 (rw e at h)
    ]
  where
    clash : (o : Option ℕ) → o ≡ none → is_some o ≡ true → ⊥
    clash none e q = cc
    clash (some x) e q = cc

Evolves-is_published :
    (id at : ℕ) (before after : List OutboxRow)
    → Evolves before after
    → is_published id at before ≡ true
    → is_published id at after ≡ true
Evolves-is_published id at [] after h p = cc
Evolves-is_published id at (r ∷ before) [] h p = absurd h
Evolves-is_published id at (r ∷ before) (s ∷ after) h p =
    elim (Bool-cases (is_row id at r && is_some r.published_at)) [
      | inl e ↦ rw (h.0.6 (ground arith)) (rw e)
      | inr e ↦ let rest = Evolves-is_published id at before after h.1 (rw e at p) in ground arith
    ]

Step-sendings :
    (out : Surroundings) (publishers : List Publisher) (s t : Moment) (id at : ℕ)
    → Step out publishers s t
    → IsSound s
    → is_published id at (table s) ≡ true
    → sendings id at t.dispatcher ≡ sendings id at s.dispatcher
unfolding dispatch_one
Step-sendings out ps s t id at (enqueued row p a apart e) h k = rw e
Step-sendings out ps s t id at (replayed moved e) h k = rw e
Step-sendings out ps s t id at (selected size ms idle b e) h k = rw e
Step-sendings out ps s t id at (unanswered e) h k = rw e
Step-sendings out ps s t id at (handled m ms b e) h k =
    subst (λ u. sendings id at u.dispatcher ≡ sendings id at s.dispatcher) (sym e)
      (handle-sendings out (find_first (λ p. p.supports m.event_type) ps) m s.dispatcher id at
        (other_key m id at (table s) (subst (All (IsFresh (table s))) b h.fresh).0 k))
Step-sendings out ps s t id at (crashed e) h k = rw e

-- From a sound moment on, a message whose row is published stays published and no publisher takes
-- it again, whatever happens in whatever order, as long
-- as the retention job deletes nothing.
pub Reach-sendings :
    (out : Surroundings) (publishers : List Publisher) {s t : Moment} (id at : ℕ)
    → IsSound s
    → is_published id at (table s) ≡ true
    → Reach out publishers s t
    → (is_published id at (table t) ≡ true)
      × (sendings id at t.dispatcher ≡ sendings id at s.dispatcher)
Reach-sendings out ps id at h p still = (p, refl)
Reach-sendings out ps {s} id at h p (onward {t} {u} r step) =
    let before = Reach-sendings out ps id at h p r in
    let sound = Reach-IsSound out ps h r in
    (
      Evolves-is_published id at (table t) (table u) (Step-Evolves out ps t u step sound) before.0,
      Step-sendings out ps t u id at step sound before.0 ∙ before.1,
    )
