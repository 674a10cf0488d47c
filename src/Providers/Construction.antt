-- ===== src/Providers/Construction.antt =====
-- What the constructor's check of the configured names is good for.
use cs2_predictor.Providers.{Routing}
use cs2_predictor.Base.{
  All, String, [], List, ◌∷◌, ◌≡◌, ok, true, arith, err-ne-ok, some, Option, none, >>=-eq-ok,
  Bool-cases, inr, get, same_key, refl, inl, subst, All-append, is_some,
}
use cs2_predictor.Providers.Calls.{
  none_missing, ordered_providers, missing, in_order, new_gateway, found_first, by_upper_name,
}

module _ (to_upper : String → String) where
  missing-step :
      (known : List (String × String)) (n : String) (names : List String)
      → missing to_upper known (n ∷ names) ≡ []
      → (is_some (get (to_upper n) known) ≡ true) × (missing to_upper known names ≡ [])
  unfolding missing
  missing-step known n names h = ground (arith, h)

  missing-All :
      (known : List (String × String)) (preferred : String) (names : List String)
      → missing to_upper known names ≡ []
      → All (λ p. is_some p ≡ true) (in_order to_upper known preferred names)
  unfolding missing in_order
  missing-All known preferred [] h = tt
  missing-All known preferred (n ∷ names) h =
      let step = missing-step known n names h in
      let rest = missing-All known preferred names step.1 in
      elim (Bool-cases (same_key (to_upper n) preferred)) [
        | inl same ↦ rw same rest
        | inr other ↦ rw other (step.0, rest)
      ]

  none_missing-ok :
      (a known : List (String × String)) (names : List String)
      → none_missing to_upper a names ≡ ok known
      → (a ≡ known) × (names ≡ [])
  unfolding none_missing
  none_missing-ok a known [] h = (cc, refl)
  none_missing-ok a known (n ∷ names) h = absurd (err-ne-ok _ known h)

  found_first-All : (o : Option String) → All (λ p. is_some p ≡ true) (found_first to_upper o)
  unfolding found_first
  found_first-All none = tt
  found_first-All (some p) = (refl, tt)

  -- A gateway that is constructed has a provider in every place of the order, whoever is preferred.
  pub ordered_providers-All :
      (providers : List String) (c : Routing) (known : List (String × String)) (preferred : String)
      → new_gateway to_upper providers c ≡ ok known
      → All (λ p. is_some p ≡ true) (ordered_providers to_upper known preferred c)
  unfolding new_gateway ordered_providers
  ordered_providers-All providers c known preferred h =
      let made = >>=-eq-ok (by_upper_name to_upper providers []) _ h in
      let checked = none_missing-ok made.0 known (missing to_upper made.0 c.order) made.2 in
      let complete : missing to_upper known c.order ≡ [] =
        subst (λ k. missing to_upper k c.order ≡ []) checked.0 checked.1 in
      let rest = missing-All known preferred c.order complete in
      elim (Bool-cases (same_key preferred "")) [
        | inl nobody ↦ rw nobody rest
        | inr somebody ↦ rw somebody (
            All-append (λ p. is_some p ≡ true) (found_first to_upper (get preferred known))
              (in_order to_upper known preferred c.order) (found_first-All (get preferred known))
              rest)
      ]
