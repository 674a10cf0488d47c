-- ===== src/Outbox/Retries.antt =====
-- Repeated runs of the dispatcher: retries end. About Dispatch of
-- internal/app/outbox_dispatcher.go and outbox.go of internal/adapter/postgres.
use cs2_predictor.Outbox.Table.{
  outbox_max_attempts, message_of, occurred_before, OutboxMessage, mark_deferred, mark_published,
  is_pending, OutboxRow, update_where, mark_failed, is_row, pending,
}
use cs2_predictor.Base.{
  All-map, All-of_map, length, any, All-take, ◌∷◌, ◌∙◌, refl, ℕ, All, arith, subst, inr, [],
  All-zip, ◌≤◌, Bool-cases, inl, Bool, All-keep_if, List, suc, ◌+◌, ◌≡◌, true, sym, zero, ◌*◌,
}
use cs2_predictor.Outbox.Outcomes.{
  Handled, postponed, untouched, dispatch_one-Handled, retried, marked,
}
use cs2_predictor.Outbox.Sound.{Handled-IsKeyed, Handled-IsFresh}
use cs2_predictor.Outbox.Delivery.{IsCalm, dispatch_calm}
use cs2_predictor.Outbox.Dispatch.{
  Surroundings, dispatch, dispatch_one, Publisher, dispatch_all, Dispatcher,
}
use cs2_predictor.Outbox.Budget.{budget_le, TakesTexts, budget, NeverHeld}
use cs2_predictor.Outbox.Batch.{pending-Apart, pending-IsFresh}
use cs2_predictor.Base.Pairs.{Pairs}
use cs2_predictor.Base.Sort.{All-stable_sort}
use cs2_predictor.Outbox.Rows.{Apart, IsFresh, IsKeyed}
use cs2_predictor.Outbox.Spending.{dispatch_one-spends}

abbrev HasRow : List OutboxRow → OutboxMessage → Type 0
HasRow rows m = any (is_row m.id m.occurred_at) rows ≡ true

update-any :
    (m : OutboxMessage) (test : OutboxRow → Bool) (change : OutboxRow → OutboxRow)
    → ((r : OutboxRow) → ((change r).id ≡ r.id) × ((change r).occurred_at ≡ r.occurred_at))
    → (rows : List OutboxRow)
    → any (is_row m.id m.occurred_at) (update_where test change rows)
      ≡ any (is_row m.id m.occurred_at) rows
update-any m test change keep [] = refl
update-any m test change keep (r ∷ rows) = elim (Bool-cases (test r)) [
  | inl e ↦ rw (e, (keep r).0, (keep r).1, update-any m test change keep rows)
  | inr e ↦ rw (e, update-any m test change keep rows)
]

Handled-HasRow :
    (m n : OutboxMessage) (rows rows' : List OutboxRow)
    → Handled m rows rows'
    → HasRow rows n
    → HasRow rows' n
Handled-HasRow m n rows rows' (untouched e) h = subst (λ l. HasRow l n) (sym e) h
Handled-HasRow m n rows rows' (marked at e) h =
    subst (λ l. HasRow l n) (sym e)
      (update-any n _ (mark_published at) (λ r. (refl, refl)) rows ∙ h)
Handled-HasRow m n rows rows' (postponed until e) h =
    subst (λ l. HasRow l n) (sym e)
      (update-any n _ (mark_deferred until) (λ r. (refl, refl)) rows ∙ h)
Handled-HasRow m n rows rows' (retried at text e) h =
    subst (λ l. HasRow l n) (sym e)
      (update-any n _ (mark_failed at text) (λ r. (refl, refl)) rows ∙ h)

pending-HasRow : (at limit : ℕ) (rows : List OutboxRow) → All (HasRow rows) (pending at limit rows)
unfolding pending
pending-HasRow at limit rows = All-of_map (HasRow rows) message_of _ (
    All-take _ limit _ (
      All-stable_sort occurred_before (λ s. HasRow rows (message_of s)) _
        (All-map _ (λ s. HasRow rows (message_of s)) (λ s h. h.0) _
          (All-keep_if _ (is_pending at) rows (own_rows rows)))))
  where
    own : (r : OutboxRow) → is_row r.id r.occurred_at r ≡ true
    own r = ground arith

    own_rows : (l : List OutboxRow) → All (λ s. any (is_row s.id s.occurred_at) l ≡ true) l
    own_rows [] = tt
    own_rows (x ∷ l) =
        (ground (arith, own x), All-map _ _ (λ r k. ground (arith, k)) l (own_rows l))

-- The runs of the dispatcher one after the other.
abbrev pub runs : Surroundings → List Publisher → ℕ → ℕ → Dispatcher → Dispatcher
runs out publishers size zero d = d
runs out publishers size (suc k) d =
    runs out publishers size k (dispatch out publishers size true d)

-- How many messages these runs handle.
abbrev pub handlings : Surroundings → List Publisher → ℕ → ℕ → Dispatcher → ℕ
handlings out publishers size zero d = 0
handlings out publishers size (suc k) d =
    length (pending (out.moment d.statements) size d.rows)
    + handlings out publishers size k (dispatch out publishers size true d)

module _ (out : Surroundings) (publishers : List Publisher) (calm : IsCalm out)
    (takes : TakesTexts out) (never : (m : OutboxMessage) → NeverHeld publishers m) where
  dispatch_all-spends :
      (ms : List OutboxMessage) (d : Dispatcher)
      → IsKeyed d.rows
      → All (IsFresh d.rows) ms
      → All (HasRow d.rows) ms
      → Pairs Apart ms
      → (length ms + budget (dispatch_all out publishers ms d).rows ≤ budget d.rows)
        × IsKeyed (dispatch_all out publishers ms d).rows
  unfolding dispatch_all
  dispatch_all-spends [] d keyed fresh found apart = (omega arith, keyed)
  dispatch_all-spends (m ∷ ms) d keyed fresh found apart =
      let change = dispatch_one-Handled out publishers m d in
      let rest =
        dispatch_all-spends ms (dispatch_one out publishers m d)
          (Handled-IsKeyed m d.rows _ change keyed)
          (All-map (λ n. Apart m n × IsFresh d.rows n) _
            (λ n k. Handled-IsFresh m n d.rows _ change k.0 k.1) ms
            (All-zip _ _ ms apart.0 fresh.1))
          (All-map (HasRow d.rows) _ (λ n k. Handled-HasRow m n d.rows _ change k) ms found.1)
          apart.1 in
      (
        omega (
          arith,
          rest.0,
          dispatch_one-spends out publishers calm takes m d (never m) fresh.0 found.0,
        ),
        rest.1,
      )

  dispatch-spends :
      (size : ℕ) (d : Dispatcher)
      → IsKeyed d.rows
      → (length (pending (out.moment d.statements) size d.rows)
            + budget (dispatch out publishers size true d).rows
          ≤ budget d.rows)
        × IsKeyed (dispatch out publishers size true d).rows
  dispatch-spends size d keyed =
      subst
        (λ e.
          (length (pending (out.moment d.statements) size d.rows) + budget e.rows ≤ budget d.rows)
          × IsKeyed e.rows)
        (sym (dispatch_calm out publishers size d calm))
        (dispatch_all-spends (pending (out.moment d.statements) size d.rows)
          (record d { statements = d.statements + 1 }) keyed (pending-IsFresh _ size d.rows keyed)
          (pending-HasRow _ size d.rows) (pending-Apart _ size d.rows keyed))

  runs-spend :
      (size k : ℕ) (d : Dispatcher)
      → IsKeyed d.rows
      → handlings out publishers size k d + budget (runs out publishers size k d).rows
        ≤ budget d.rows
  runs-spend size zero d keyed = omega arith
  runs-spend size (suc k) d keyed =
      let once = dispatch-spends size d keyed in
      omega (arith, once.0, runs-spend size k (dispatch out publishers size true d) once.1)

  -- Where every statement is done, the database takes the error texts, no publisher ever defers a
  -- message, as quiet hours do, and the keys of the rows differ, all runs of the dispatcher together
  -- handle at most 20 messages for each row, however many runs there are and whichever of the
  -- messages the publishers take or fail on.
  pub handlings_bounded :
      (size k : ℕ) (d : Dispatcher)
      → IsKeyed d.rows
      → handlings out publishers size k d ≤ outbox_max_attempts * length d.rows
  handlings_bounded size k d keyed = omega (arith, runs-spend size k d keyed, budget_le d.rows)
