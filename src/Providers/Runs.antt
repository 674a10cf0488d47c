-- ===== src/Providers/Runs.antt =====
-- What a run of `execute` comes to: its answer, its errors, and the circuits and alerts it leaves.
use cs2_predictor.Providers.{
  still_open, record_success, Outside, Routing, record_failure, Gateway, circuit_open, open_circuit,
  bumped, stepped,
}
use cs2_predictor.Providers.Circuit.{record_success-IsTold, IsTold, record_failure-IsTold}
use cs2_predictor.Base.{
  inl, String, ◌==◌, Bool-cases, ◌∷◌, get, Option, some, none, true, Option-cases, Error, ◌≡◌, List,
  [], inr, Result, err, ℕ, suc, ◌++◌, arith, ok,
}
use cs2_predictor.Providers.Calls.{
  failed, call_or_skip, CallError, execute, answer_or, call_failed, Answer, circuit_is_open,
}

-- The observer listens, and every provider's circuit is told.
pub record Told (c : Routing) (g : Gateway) : Type 0 where
  pub seen : g.observed ≡ true
  pub told : (n : String) → IsTold c g n

module _ {A : Type 0} (c : Routing) (o : Outside A) where
  circuit_open-Told :
      (name : String) (g : Gateway) → Told c g → Told c (circuit_open c o.clock name g).1
  unfolding circuit_open still_open
  circuit_open-Told name g h = elim (Bool-cases (c.threshold == 0)) [
    | inl disabled ↦ rw disabled h
    | inr enabled ↦ elim (Option-cases (get name g.circuit_open_until)) [
      | inl closed ↦ rw (enabled, closed) h
      | inr (until, opened) ↦ rw (enabled, opened) (record { seen = h.seen; told = h.told })
    ]
  ]

  success-Told : (name : String) (g : Gateway) → Told c g → Told c (record_success o.clock name g)
  unfolding record_success
  success-Told name g h = record {
    seen = h.seen;
    told = λ n. record_success-IsTold c o.clock name n g h.seen (h.told n);
  }

  still_seen :
      (name : String) (g : Gateway)
      → g.observed ≡ true
      → (record_failure c o.clock name g).observed ≡ true
  unfolding record_failure bumped open_circuit
  still_seen name g h = ground (arith, h)

  failure-Told : (name : String) (e : Error) (g : Gateway) → Told c g → Told c (failed c o name e g)
  unfolding failed record_failure bumped open_circuit
  failure-Told name e g h = record {
    seen = still_seen name g h.seen;
    told = λ n. record_failure-IsTold c o.clock name n g h.seen h.told;
  }

  answer_or-Told :
      (name : String) (r : Result A) (next : List CallError → Gateway → Answer A × Gateway)
      (errs : List CallError) (g : Gateway)
      → ((es : List CallError) (h : Gateway) → Told c h → Told c (next es h).1)
      → Told c g
      → Told c (answer_or c o name r next errs g).1
  unfolding answer_or
  answer_or-Told name (ok a) next errs g k h = success-Told name g h
  answer_or-Told name (err e) next errs g k h =
      k (errs ++ call_failed e ∷ []) (failed c o name e g) (failure-Told name e g h)

  call_or_skip-Told :
      (name : String) (next : List CallError → Gateway → Answer A × Gateway) (errs : List CallError)
      (r : Option ℕ × Gateway)
      → ((es : List CallError) (h : Gateway) → Told c h → Told c (next es h).1)
      → Told c r.1
      → Told c (call_or_skip c o name next errs r).1
  unfolding call_or_skip
  call_or_skip-Told name next errs (some until, g) k h =
      k (errs ++ circuit_is_open name until ∷ []) g h
  call_or_skip-Told name next errs (none, g) k h =
      answer_or-Told name (o.answers (suc g.steps) name) next errs (stepped (stepped (stepped g))) k
        (record { seen = h.seen; told = h.told })

  -- A run that begins with the observer listening and every circuit told ends so, whatever the
  -- providers answer and whatever the clock shows: a circuit is open only after as many failures in a
  -- row as the threshold, and the alerts about a provider are down and recovered in turns, the newest
  -- of them telling whether its circuit is open.
  pub execute-Told :
      (ps : List (Option String)) (errs : List CallError) (g : Gateway)
      → Told c g
      → Told c (execute c o ps errs g).1
  unfolding execute
  execute-Told [] errs g h = h
  execute-Told (none ∷ ps) errs g h = h
  execute-Told (some name ∷ ps) errs g h =
      call_or_skip-Told name (execute c o ps) errs (circuit_open c o.clock name g)
        (λ es k t. execute-Told ps es k t) (circuit_open-Told name g h)
