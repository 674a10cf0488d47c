-- ===== src/Providers/Fallback.antt =====
-- Which provider's answer a run of `execute` reports, and what it says when there is none.
use mathlib.Core.List.{append_assoc, append-nil}
use mathlib.Core.Option.{none-ne-some}
use cs2_predictor.Providers.Calls.{
  execute, unavailable, answered, call_failed, call_or_skip, circuit_is_open, CallError, panicked,
  Answer, answer_or, failed,
}
use cs2_predictor.Providers.{Routing, circuit_open, Outside, Gateway, stepped, still_open}
use cs2_predictor.Base.{
  Result, ap, ◌≡◌, ◌<◌, String, inl, arith, List, ◌∙◌, suc, err, ltb, ◌==◌, Option, inr, get, ◌⊎◌,
  ◌++◌, Bool-cases, ◌≤◌, true, ok, ℕ, none, sym, some, subst, [], false, refl, ◌∷◌,
}

some-eq : {x y : ℕ} → some x ≡ some y → x ≡ y
some-eq h = cc

module _ {A : Type 0} (c : Routing) (o : Outside A) where
  -- The provider's circuit is open at this reading of the clock; or there is none, or it has run out.
  abbrev pub IsOpen : String → ℕ → Gateway → Type 0
  IsOpen name until g =
      ((c.threshold == 0) ≡ false)
      × (get name g.circuit_open_until ≡ some until)
      × (o.clock g.steps < until)

  abbrev pub IsClosed : String → Gateway → Type 0
  IsClosed name g =
      (until : ℕ)
      → get name g.circuit_open_until ≡ some until
      → ((c.threshold == 0) ≡ true) ⊎ (until ≤ o.clock g.steps)

  -- Why a provider gave nothing, and the gateway after it: its circuit was open, or it was not, the
  -- provider was called, and failed with this error.
  abbrev pub IsWhy : String → Gateway → CallError → Gateway → Type 0
  IsWhy name g (circuit_is_open other until) h =
      (name ≡ other) × IsOpen name until g × (h ≡ stepped g)
  IsWhy name g (call_failed e) h =
      IsClosed name g
      × (k : ℕ) × (g.steps < k)
      × (o.answers k name ≡ err e)
      × (h ≡ failed c o name e (record g { steps = suc (suc k) }))

  -- One reason for each provider, in their order, each at the gateway that the one before left.
  abbrev pub Explain : List (Option String) → Gateway → List CallError → Gateway → Type 0
  Explain [] g [] h = g ≡ h
  Explain [] g (x ∷ xs) h = ⊥
  Explain (p ∷ ps) g [] h = ⊥
  Explain (none ∷ ps) g (x ∷ xs) h = ⊥
  Explain (some name ∷ ps) g (x ∷ xs) h = (mid : Gateway) × IsWhy name g x mid × Explain ps mid xs h

  -- What is reported for these providers, after the errors of those before them.
  abbrev pub Reports : List (Option String) → Gateway → List CallError → Answer A → Type 0
  Reports ps g errs (answered a) =
      (before after : List (Option String)) × (name : String) × (es : List CallError)
      × (h : Gateway) × (k : ℕ) × (ps ≡ before ++ some name ∷ after)
      × Explain before g es h
      × IsClosed name h
      × (h.steps < k)
      × (o.answers k name ≡ ok a)
  Reports ps g errs (unavailable es) =
      (own : List CallError) × (h : Gateway) × (es ≡ errs ++ own) × Explain ps g own h
  Reports ps g errs panicked =
      (before after : List (Option String)) × (es : List CallError) × (h : Gateway) × (ps
        ≡ before ++ none ∷ after)
      × Explain before g es h

  Reports-skip :
      (name : String) (x : CallError) (ps : List (Option String)) (g mid : Gateway)
      (errs : List CallError) (a : Answer A)
      → IsWhy name g x mid
      → Reports ps mid (errs ++ x ∷ []) a
      → Reports (some name ∷ ps) g errs a
  Reports-skip name x ps g mid errs (answered a) w
        (before, after, other, es, h, k, split, why, shut, low, said) =
      (
        some name ∷ before,
        after,
        other,
        x ∷ es,
        h,
        k,
        ap (λ l. some name ∷ l) split,
        (mid, w, why),
        shut,
        low,
        said,
      )
  Reports-skip name x ps g mid errs (unavailable es) w (own, h, all, why) =
      (x ∷ own, h, all ∙ append_assoc errs (x ∷ []) own, (mid, w, why))
  Reports-skip name x ps g mid errs panicked w (before, after, es, h, split, why) =
      (some name ∷ before, after, x ∷ es, h, ap (λ l. some name ∷ l) split, (mid, w, why))

  -- What the test of the circuit says of the gateway before it.
  abbrev Tested : String → Gateway → Option ℕ × Gateway → Type 0
  Tested name g (some until, h) = IsOpen name until g × (h ≡ stepped g)
  Tested name g (none, h) =
      IsClosed name g × (g.steps ≤ h.steps) × (h ≡ record g { steps = h.steps })

  circuit_open-Tested :
      (name : String) (g : Gateway) → Tested name g (circuit_open c o.clock name g)
  unfolding circuit_open still_open
  circuit_open-Tested name g = elim (Bool-cases (c.threshold == 0)) [
    | inl z ↦ rw z (λ until e. inl z, omega arith, refl)
    | inr z ↦ rw z (looked z (get name g.circuit_open_until) refl)
  ]
    where
      looked :
          (c.threshold == 0) ≡ false
          → (u : Option ℕ) → get name g.circuit_open_until ≡ u
          → Tested name g (still_open u o.clock g)
      looked z none e = (λ until f. absurd (none-ne-some until (sym e ∙ f)), omega arith, refl)
      looked z (some until) e = elim (Bool-cases (ltb (o.clock g.steps) until)) [
        | inl l ↦ rw l ((z, e, ground arith), refl)
        | inr l ↦ rw l (
          λ v f. inr (subst (λ n. n ≤ o.clock g.steps) (some-eq (sym e ∙ f)) (ground arith)),
          omega arith,
          refl,
        )
      ]

  answer_or-Reports :
      (name : String) (ps : List (Option String)) (r : Result A)
      (further : List CallError → Gateway → Answer A × Gateway) (errs : List CallError)
      (g : Gateway) (k : ℕ)
      → IsClosed name g
      → g.steps < k
      → o.answers k name ≡ r
      → ((es : List CallError) (h : Gateway) → Reports ps h es (further es h).0)
      → Reports
          (some name ∷ ps)
          g
          errs
          (answer_or c o name r further errs (record g { steps = suc (suc k) })).0
  unfolding answer_or
  answer_or-Reports name ps (ok a) further errs g k shut low e rest =
      ([], ps, name, [], g, k, refl, refl, shut, low, e)
  answer_or-Reports name ps (err x) further errs g k shut low e rest =
      Reports-skip name (call_failed x) ps g _ errs _ (shut, k, low, e, refl) (rest _ _)

  call_or_skip-Reports :
      (name : String) (ps : List (Option String))
      (further : List CallError → Gateway → Answer A × Gateway) (errs : List CallError)
      (g : Gateway) (r : Option ℕ × Gateway)
      → Tested name g r
      → ((es : List CallError) (h : Gateway) → Reports ps h es (further es h).0)
      → Reports (some name ∷ ps) g errs (call_or_skip c o name further errs r).0
  unfolding call_or_skip
  call_or_skip-Reports name ps further errs g (some until, h) (waits, same) rest =
      Reports-skip name (circuit_is_open name until) ps g h errs _ (refl, waits, same) (rest _ _)
  call_or_skip-Reports name ps further errs g (none, h) (shut, low, same) rest =
      subst
        (λ m.
          Reports (some name ∷ ps) g errs
            (answer_or c o name (o.answers (suc h.steps) name) further errs
              (stepped (stepped (stepped m)))).0)
        (sym same)
        (answer_or-Reports name ps (o.answers (suc h.steps) name) further errs g (suc h.steps) shut
          (omega (arith, low)) refl rest)

  -- An answer is that of a provider whose circuit was not open and that was called; every provider
  -- before it had its circuit open until a later time, or was called and failed. Without an answer
  -- that holds of every provider, and the errors say it of each, in order. The run panics only on a
  -- nil provider, when it holds of those before.
  pub execute-Reports :
      (ps : List (Option String)) (errs : List CallError) (g : Gateway)
      → Reports ps g errs (execute c o ps errs g).0
  unfolding execute
  execute-Reports [] errs g = ([], g, sym (append-nil errs), refl)
  execute-Reports (none ∷ ps) errs g = ([], ps, [], g, refl, refl)
  execute-Reports (some name ∷ ps) errs g =
      call_or_skip-Reports name ps (execute c o ps) errs g (circuit_open c o.clock name g)
        (circuit_open-Tested name g) (λ es h. execute-Reports ps es h)
