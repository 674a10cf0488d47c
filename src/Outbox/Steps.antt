-- ===== src/Outbox/Steps.antt =====
-- A run of the dispatcher is a sequence of the steps of History.
-- About Dispatch of internal/app/outbox_dispatcher.go.
use cs2_predictor.Outbox.History.{still, onward, unanswered, Moment, selected, Reach, handled}
use cs2_predictor.Base.{Option, ℕ, false, ◌≡◌, none, refl, ◌+◌, Bool, List, some, [], ◌∷◌, true}
use cs2_predictor.Outbox.Dispatch.{
  Dispatcher, dispatch_all, Publisher, dispatch_one, dispatch, Surroundings, batch, run_batch,
}
use cs2_predictor.Outbox.Table.{OutboxMessage}

Reach-trans :
    (out : Surroundings) (publishers : List Publisher) {s t u : Moment}
    → Reach out publishers s t
    → Reach out publishers t u
    → Reach out publishers s u
Reach-trans out ps r still = r
Reach-trans out ps r (onward q step) = onward (Reach-trans out ps r q) step

abbrev pub at_rest : Dispatcher → Moment
at_rest d = record { dispatcher = d; left_over = [] }

abbrev with_batch : Dispatcher → List OutboxMessage → Moment
with_batch d ms = record { dispatcher = d; left_over = ms }

dispatch_all-Reach :
    (out : Surroundings) (publishers : List Publisher) (ms : List OutboxMessage) (d : Dispatcher)
    → Reach out publishers (with_batch d ms) (at_rest (dispatch_all out publishers ms d))
unfolding dispatch_all
dispatch_all-Reach out ps [] d = still
dispatch_all-Reach out ps (m ∷ ms) d =
    Reach-trans out ps (onward still (handled m ms refl refl))
      (dispatch_all-Reach out ps ms (dispatch_one out ps m d))

run_batch-Reach :
    (out : Surroundings) (publishers : List Publisher) (size : ℕ) (d : Dispatcher)
    (o : Option (List OutboxMessage))
    → batch out size d ≡ o
    → Reach out publishers
        (at_rest d)
        (at_rest (run_batch out publishers o (record d { statements = d.statements + 1 })))
unfolding run_batch
run_batch-Reach out ps size d none e = onward still (unanswered refl)
run_batch-Reach out ps size d (some ms) e =
    Reach-trans out ps (onward still (selected size ms refl e refl))
      (dispatch_all-Reach out ps ms (record d { statements = d.statements + 1 }))

-- Dispatch, with or without the lock, whatever its statements and publishers answer, leads from
-- the idle dispatcher to the idle dispatcher by the steps of the relation, so that what holds of
-- all reachable moments holds after each run.
pub dispatch-Reach :
    (out : Surroundings) (publishers : List Publisher) (size : ℕ) (acquired : Bool) (d : Dispatcher)
    → Reach out publishers (at_rest d) (at_rest (dispatch out publishers size acquired d))
unfolding dispatch
dispatch-Reach out ps size false d = still
dispatch-Reach out ps size true d = run_batch-Reach out ps size d (batch out size d) refl
