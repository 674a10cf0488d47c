-- ===== src/Prediction/Queries.antt =====
-- The listing queries of the repository: they change nothing, and hand on the rows that pass the
-- test, with their options.
use cs2_predictor.Base.Pairs.{Pairs}
use cs2_predictor.Prediction.Effects.{Env, Store, World, called, PollRow, answer, and_then}
use cs2_predictor.Base.{
  some, inl, Bool, subst, sym, Bool-cases, ap, ◌≡◌, Option, All-keep_if, keep_if, refl, All, map,
  none, ◌∙◌, inr, ok, true, suc, List, Error, ◌∷◌, [], ◌⊎◌, find_first, err, ℕ, arith,
}
use cs2_predictor.Prediction.Lifecycle.Batches.{IsPending, OtherPoll}
use cs2_predictor.Prediction.Poll.{Poll, poll_open}
use cs2_predictor.Prediction.Repository.{query_polls, attach, with_options, scan_poll, load_row}
use cs2_predictor.Prediction.Lifecycle.{OpenRow}
use cs2_predictor.Prediction.Rows.{OtherId, rows-found, DistinctIds}
use cs2_predictor.Prediction.Store.{row_of, to_poll, load_options}

same_row : (a b : PollRow) → some a ≡ some b → a ≡ b
same_row a b h = cc

module _ (env : Env) where
  pub query_polls-store :
      (select : List PollRow → List PollRow) (w : World)
      → (query_polls env select w).1.store ≡ w.store
  unfolding query_polls with_options
  query_polls-store select w = go (env.fault w.calls) (select w.store.polls)
    where
      later : (o : Option Error) (ps : List Poll) → (answer o ps (called w)).1.store ≡ w.store
      later none ps = refl
      later (some e) ps = refl

      go :
          (o : Option Error) (rows : List PollRow)
          → (and_then (answer o rows w).0 (with_options env) (answer o rows w).1).1.store ≡ w.store
      go (some e) rows = refl
      go none [] = refl
      go none (r ∷ rs) = later (env.fault (suc w.calls)) (attach env (r ∷ rs) w.store)

  pub query_polls_ok :
      (select : List PollRow → List PollRow) (w : World) (ps : List Poll)
      → (query_polls env select w).0 ≡ ok ps
      → ps ≡ attach env (select w.store.polls) w.store
  unfolding query_polls with_options
  query_polls_ok select w ps = go (env.fault w.calls) (select w.store.polls)
    where
      later : (o : Option Error) (qs : List Poll) → (answer o qs (called w)).0 ≡ ok ps → ps ≡ qs
      later none qs h = cc
      later (some e) qs h = cc

      go :
          (o : Option Error) (rows : List PollRow)
          → (and_then (answer o rows w).0 (with_options env) (answer o rows w).1).0 ≡ ok ps
          → ps ≡ attach env rows w.store
      go (some e) rows h = cc
      go none [] h = unfold attach in cc
      go none (r ∷ rs) h = later (env.fault (suc w.calls)) (attach env (r ∷ rs) w.store) h

  -- Open rows, read as polls.
  pub attach-IsPending :
      (test : PollRow → Bool) (s : Store)
      → ((r : PollRow) → test r ≡ true → r.status ≡ poll_open)
      → DistinctIds s
      → IsPending (attach env (keep_if test s.polls) s) s
  unfolding attach
  attach-IsPending test s opens h = (
    apart s.polls h,
    found (keep_if test s.polls)
        (All-keep_if (λ r. row_of r.id s.polls ≡ some r) test s.polls (rows-found s.polls h)),
  )
    where
      poll : PollRow → Poll
      poll r = to_poll r (load_options r.id s)

      poll-id : (r : PollRow) → (poll r).id ≡ r.id
      poll-id r = unfold to_poll in refl

      all_apart :
          (x : PollRow) (rs : List PollRow)
          → All (OtherId x) rs
          → All (OtherPoll (poll x)) (map poll (keep_if test rs))
      all_apart x [] k = tt
      all_apart x (r ∷ rs) k = elim (Bool-cases (test r)) [
        | inl e ↦ rw e (unfold to_poll in k.0, all_apart x rs k.1)
        | inr e ↦ rw e (all_apart x rs k.1)
      ]

      apart : (rs : List PollRow) → Pairs OtherId rs → Pairs OtherPoll (map poll (keep_if test rs))
      apart [] k = tt
      apart (r ∷ rs) k = elim (Bool-cases (test r)) [
        | inl e ↦ rw e (all_apart r rs k.0, apart rs k.1)
        | inr e ↦ rw e (apart rs k.1)
      ]

      found :
          (rs : List PollRow)
          → All (λ r. (row_of r.id s.polls ≡ some r) × (test r ≡ true)) rs
          → All (λ p. OpenRow p.id s) (map poll rs)
      found [] k = tt
      found (r ∷ rs) k = (
        λ q e. opens q (
            subst (λ x. test x ≡ true)
              (same_row r q (sym k.0.0 ∙ ap (λ i. row_of i s.polls) (sym (poll-id r)) ∙ e)) k.0.1),
        found rs k.1,
      )

  -- Reading one poll: two statements, and either may fail. The store stays.
  pub scan_poll_found :
      (test : PollRow → Bool) (w : World) (r : PollRow)
      → find_first test w.store.polls ≡ some r
      → (scan_poll env test w ≡ (
        ok (some (to_poll r (load_options r.id w.store))),
        record w { calls = suc (suc w.calls) },
      ))
        ⊎ ((e : Error) × (n : ℕ) × (scan_poll env test w ≡ (err e, record w { calls = n })))
  unfolding scan_poll load_row
  scan_poll_found test w r h =
      go (env.fault w.calls) (env.fault (suc w.calls)) (find_first test w.store.polls) refl refl h
    where
      go :
          (a b : Option Error) (row : Option PollRow)
          → env.fault w.calls ≡ a
          → env.fault (suc w.calls) ≡ b
          → row ≡ some r
          → (and_then (answer a row w).0 (load_row env) (answer a row w).1 ≡ (
            ok (some (to_poll r (load_options r.id w.store))),
            record w { calls = suc (suc w.calls) },
          ))
            ⊎ ((e : Error) × (n : ℕ) × (and_then
                    (answer a row w).0
                    (load_row env)
                    (answer a row w).1
                  ≡ (err e, record w { calls = n })))
      go (some e) b row p q k = inr (e, suc w.calls, refl)
      go none none none p q k = absurd (clash k)
        where
          clash : none ≡ some r → ⊥
          clash e = cc
      go none (some e) none p q k = absurd (clash k)
        where
          clash : none ≡ some r → ⊥
          clash e = cc
      go none none (some x) p q k = inl (ground arith)
      go none (some e) (some x) p q k = inr (e, suc (suc w.calls), ground arith)

  -- Nothing found: the store stays too.
  pub scan_poll-store :
      (test : PollRow → Bool) (w : World) → (scan_poll env test w).1.store ≡ w.store
  unfolding scan_poll load_row
  scan_poll-store test w = ground arith

  pub scan_poll_absent :
      (test : PollRow → Bool) (w : World) (o : Option Poll)
      → find_first test w.store.polls ≡ none
      → (scan_poll env test w).0 ≡ ok o
      → o ≡ none
  unfolding scan_poll load_row
  scan_poll_absent test w o absent h = ground arith
