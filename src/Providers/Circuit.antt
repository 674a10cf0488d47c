-- ===== src/Providers/Circuit.antt =====
-- What holds of each provider's circuit through every run of `execute`.
use cs2_predictor.Providers.{
  Alert, told_recovered, Gateway, provider_recovered, Routing, open_circuit, streak_of,
  provider_down, told_down, record_success, record_failure, bumped,
}
use cs2_predictor.Base.{
  Bool, same_key_eq, same_key, Bool-cases, ◌≡◌, inr, true, if◌then◌else◌, Option, ◌≤◌, Error,
  get-delete-other, get-delete, ℕ, refl, false, get, none, inl, String, not, ◌∷◌, some,
  same_key_refl, List, [], arith, sym, subst, get-put, suc, ◌==◌, ltb, is_some,
}

-- The alerts about one provider, newest first: `true` for down, `false` for recovered.
abbrev pub history : String → List Alert → List Bool
history n [] = []
history n (provider_down name streak failure ∷ alerts) =
    let rest = history n alerts in if same_key name n then true ∷ rest else rest
history n (provider_recovered name ∷ alerts) =
    let rest = history n alerts in if same_key name n then false ∷ rest else rest

-- Down and recovered take turns, beginning with down, and the newest says how the circuit is.
abbrev pub IsAlternating : Bool → List Bool → Type 0
IsAlternating now_open [] = now_open ≡ false
IsAlternating now_open (d ∷ ds) = (d ≡ now_open) × IsAlternating (not d) ds

-- A circuit is open only after as many failures as the threshold, and the alerts tell it.
abbrev pub IsTold : Routing → Gateway → String → Type 0
IsTold c g n =
    (is_some (get n g.circuit_open_until) ≡ true → c.threshold ≤ streak_of (get n g.failure_streak))
    × IsAlternating (is_some (get n g.circuit_open_until)) (history n g.alerts)

recovered-own :
    (n : String) (o : Option ℕ) (alerts : List Alert)
    → IsAlternating (is_some o) (history n alerts)
    → IsAlternating false (history n (told_recovered true o n alerts))
unfolding told_recovered
recovered-own n none alerts h = h
recovered-own n (some until) alerts h = rw (same_key_refl n) (refl, h)

recovered-other :
    (name n : String) (o : Option ℕ) (alerts : List Alert)
    → same_key name n ≡ false
    → history n (told_recovered true o name alerts) ≡ history n alerts
unfolding told_recovered
recovered-other name n none alerts h = refl
recovered-other name n (some until) alerts h = rw h

down-own :
    (n : String) (o : Option ℕ) (streak : ℕ) (f : Option (String × Error)) (alerts : List Alert)
    → IsAlternating (is_some o) (history n alerts)
    → IsAlternating true (history n (told_down true o n streak f alerts))
unfolding told_down
down-own n none streak f alerts h = rw (same_key_refl n) (refl, h)
down-own n (some until) streak f alerts h = h

down-other :
    (name n : String) (o : Option ℕ) (streak : ℕ) (f : Option (String × Error))
    (alerts : List Alert)
    → same_key name n ≡ false
    → history n (told_down true o name streak f alerts) ≡ history n alerts
unfolding told_down
down-other name n none streak f alerts h = rw h
down-other name n (some until) streak f alerts h = refl

module _ (c : Routing) (clock : ℕ → ℕ) (name n : String) where
  pub record_success-IsTold :
      (g : Gateway) → g.observed ≡ true → IsTold c g n → IsTold c (record_success clock name g) n
  unfolding record_success
  record_success-IsTold g seen h = elim (Bool-cases (same_key name n)) [
    | inl own ↦
        let same : name ≡ n = same_key_eq name n own in
        rw (seen, same, get-delete n g.circuit_open_until)
          ((λ e. ground (arith, e)), recovered-own n (get n g.circuit_open_until) g.alerts h.1)
    | inr other ↦
        rw
          (
            seen,
            other,
            get-delete-other name n g.circuit_open_until other,
            get-delete-other name n g.failure_streak other,
            recovered-other name n (get name g.circuit_open_until) g.alerts other,
          )
          h
  ]

  open_circuit-IsTold :
      (streak : ℕ) (g : Gateway)
      → g.observed ≡ true
      → c.threshold ≤ streak
      → get name g.failure_streak ≡ some streak
      → IsAlternating (is_some (get name g.circuit_open_until)) (history name g.alerts)
      → (same_key name n ≡ false → IsTold c g n)
      → IsTold c (open_circuit c clock name streak g) n
  unfolding open_circuit
  open_circuit-IsTold streak g seen enough counted own_alerts other_told =
      elim (Bool-cases (same_key name n)) [
        | inl own ↦
            let same : n ≡ name = sym (same_key_eq name n own) in
            rw (seen, same, same_key_refl name)
              (
                (λ e. rw counted enough),
                down-own name (get name g.circuit_open_until) streak g.last_failure g.alerts
                    own_alerts,
              )
        | inr other ↦
            rw
              (
                seen,
                other,
                get-delete-other name n g.circuit_open_until other,
                down-other name n (get name g.circuit_open_until) streak g.last_failure g.alerts
                    other,
              )
              (other_told other)
      ]

  bumped-other : (g : Gateway) → same_key name n ≡ false → IsTold c g n → IsTold c (bumped name g) n
  unfolding bumped
  bumped-other g other h = rw (other, get-delete-other name n g.failure_streak other) h

  -- A failure short of the threshold: the circuit is closed, as the streak says.
  bumped-own : (g : Gateway) → IsTold c g name → IsTold c (bumped name g) name
  unfolding bumped
  bumped-own g h = rw (same_key_refl name) ((λ e. let enough = h.0 e in omega arith), h.1)

  bumped-IsTold : (g : Gateway) → ((m : String) → IsTold c g m) → IsTold c (bumped name g) n
  bumped-IsTold g h = elim (Bool-cases (same_key name n)) [
    | inl own ↦
        subst (λ m. IsTold c (bumped name g) m) (same_key_eq name n own) (bumped-own g (h name))
    | inr other ↦ bumped-other g other (h n)
  ]

  pub record_failure-IsTold :
      (g : Gateway)
      → g.observed ≡ true
      → ((m : String) → IsTold c g m)
      → IsTold c (record_failure c clock name g) n
  unfolding record_failure bumped
  record_failure-IsTold g seen h = elim (Bool-cases (c.threshold == 0)) [
    | inl disabled ↦ rw disabled (h n)
    | inr enabled ↦
        elim (Bool-cases (ltb (suc (streak_of (get name g.failure_streak))) c.threshold)) [
          | inl short ↦ rw (enabled, short) (bumped-IsTold g h)
          | inr enough ↦
              rw (enabled, enough)
                (open_circuit-IsTold (suc (streak_of (get name g.failure_streak))) (bumped name g)
                  seen (ground arith) (get-put name _ g.failure_streak) (h name).1
                  (λ other. bumped-other g other (h n)))
        ]
  ]
