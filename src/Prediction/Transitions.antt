-- ===== src/Prediction/Transitions.antt =====
-- The operations of the service that close, cancel or move polls.
use cs2_predictor.Prediction.Lifecycle.{
  Evolves-refl, Evolves, gateway_close-IsGateway, close_with-Evolves, gateway_cancel-IsGateway,
  close_with-other,
}
use cs2_predictor.Base.{
  leb, sym, Bool, subst, refl, ◌&&◌, Result, List, arith, ok, ◌==◌, keep_if, true, ℕ, ◌≡◌, err,
}
use cs2_predictor.Prediction.Poll.{
  other_poll_status, PollStatus, poll_open, poll_closed, poll_cancelled, is_open, Poll,
}
use cs2_predictor.Prediction.Effects.{World, gateway_close, Env, PollRow, gateway_cancel}
use cs2_predictor.Prediction.Service.{
  cancel_for_match, run_batch, close_for_running_match, reschedule, Batch, close_due, close_with,
  move_each,
}
use cs2_predictor.Prediction.Repository.{open_polls_for_match, open_polls_due, query_polls}
use cs2_predictor.Prediction.Lifecycle.Batches.{IsPending, run_each-Evolves, move_each-Evolves}
use cs2_predictor.Prediction.Queries.{query_polls-store, query_polls_ok, attach-IsPending}
use cs2_predictor.Prediction.Rows.{DistinctIds}

module _ (env : Env) where
  open_status : (s : PollStatus) → is_open s ≡ true → s ≡ poll_open
  open_status poll_open h = refl
  open_status poll_closed h = cc
  open_status poll_cancelled h = cc
  open_status (other_poll_status t) h = cc

  run_batch-Evolves :
      (test : PollRow → Bool) (f : List Poll → World → Batch × World) (w : World)
      → ((r : PollRow) → test r ≡ true → r.status ≡ poll_open)
      → DistinctIds w.store
      → ((ps : List Poll) (w : World) → IsPending ps w.store → Evolves w.store (f ps w).1.store)
      → Evolves w.store
          (run_batch f
            (query_polls env (keep_if test) w).0
            (query_polls env (keep_if test) w).1).1.store
  run_batch-Evolves test f w opens h run = go (query_polls env (keep_if test) w).0 refl
    where
      read : World
      read = (query_polls env (keep_if test) w).1

      same : read.store ≡ w.store
      same = query_polls-store env (keep_if test) w

      go :
          (r : Result (List Poll))
          → (query_polls env (keep_if test) w).0 ≡ r
          → Evolves w.store (run_batch f r read).1.store
      go (err x) e = subst (Evolves w.store) (sym same) (Evolves-refl w.store)
      go (ok ps) e =
          subst (λ s. Evolves s (f ps read).1.store) same
            (run ps read (
              subst (IsPending ps) (sym same) (
                subst (λ qs. IsPending qs w.store) (sym (query_polls_ok env (keep_if test) w ps e))
                  (attach-IsPending env test w.store opens h))))

  -- With distinct ids in the table, closing the polls that are due keeps every poll with its chat,
  -- match and teams, and changes the status of open ones only, whatever fails on the way.
  pub close_due-Evolves :
      (at : ℕ) (w : World) → DistinctIds w.store → Evolves w.store (close_due env at w).1.store
  unfolding close_due open_polls_due
  close_due-Evolves at w h =
      run_batch-Evolves (λ r. is_open r.status && leb r.closes_at at) _ w
        (λ r k. open_status r.status (ground arith)) h
        (run_each-Evolves env (close_with env (gateway_close env) poll_closed)
          (close_with-Evolves env (gateway_close env) (gateway_close-IsGateway env) poll_closed)
          (close_with-other env (gateway_close env) (gateway_close-IsGateway env) poll_closed))

  -- With distinct ids in the table, closing the polls of a running match keeps every poll with its chat,
  -- match and teams, and changes the status of open ones only, whatever fails on the way.
  pub close_for_running_match-Evolves :
      (match_id : ℕ) (w : World)
      → DistinctIds w.store
      → Evolves w.store (close_for_running_match env match_id w).1.store
  unfolding close_for_running_match open_polls_for_match
  close_for_running_match-Evolves match_id w h =
      run_batch-Evolves (λ r. r.match_id == match_id && is_open r.status) _ w
        (λ r k. open_status r.status (ground arith)) h
        (run_each-Evolves env (close_with env (gateway_close env) poll_closed)
          (close_with-Evolves env (gateway_close env) (gateway_close-IsGateway env) poll_closed)
          (close_with-other env (gateway_close env) (gateway_close-IsGateway env) poll_closed))

  -- With distinct ids in the table, cancelling the polls of a match keeps every poll with its chat,
  -- match and teams, and changes the status of open ones only, whatever fails on the way.
  pub cancel_for_match-Evolves :
      (match_id : ℕ) (w : World)
      → DistinctIds w.store
      → Evolves w.store (cancel_for_match env match_id w).1.store
  unfolding cancel_for_match open_polls_for_match
  cancel_for_match-Evolves match_id w h =
      run_batch-Evolves (λ r. r.match_id == match_id && is_open r.status) _ w
        (λ r k. open_status r.status (ground arith)) h
        (run_each-Evolves env (close_with env (gateway_cancel env) poll_cancelled)
          (close_with-Evolves env (gateway_cancel env) (gateway_cancel-IsGateway env)
            poll_cancelled)
          (close_with-other env (gateway_cancel env) (gateway_cancel-IsGateway env) poll_cancelled))

  -- With distinct ids in the table, moving the polls of a match keeps every poll with its chat,
  -- match and teams, and changes the status of open ones only, whatever fails on the way.
  pub reschedule-Evolves :
      (match_id at : ℕ) (w : World)
      → DistinctIds w.store
      → Evolves w.store (reschedule env match_id at w).1.store
  unfolding reschedule open_polls_for_match
  reschedule-Evolves match_id at w h =
      run_batch-Evolves (λ r. r.match_id == match_id && is_open r.status) (move_each env at) w
        (λ r k. open_status r.status (ground arith)) h (move_each-Evolves env at)

  -- With distinct ids in the table, closing the polls that are due, closing those of a running
  -- match, cancelling those of a match, and moving those of a match each keep every poll with its
  -- chat, match and teams, and change the status of open ones only, whatever fails on the way.
  pub transitions-Evolve :
      (match_id at : ℕ) (w : World)
      → DistinctIds w.store
      → Evolves w.store (close_due env at w).1.store
        × Evolves w.store (close_for_running_match env match_id w).1.store
        × Evolves w.store (cancel_for_match env match_id w).1.store
        × Evolves w.store (reschedule env match_id at w).1.store
  transitions-Evolve match_id at w h = (
    close_due-Evolves at w h,
    close_for_running_match-Evolves match_id w h,
    cancel_for_match-Evolves match_id w h,
    reschedule-Evolves match_id at w h,
  )
