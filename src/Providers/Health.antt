-- ===== src/Providers/Health.antt =====
-- `Health`: what the gateway says of itself.
use cs2_predictor.Providers.{Gateway, Routing}
use cs2_predictor.Base.{
  Option, ◌+◌, String, ◌≤◌, arith, [], none, ◌==◌, ℕ, ◌∷◌, ltb, ◌≡◌, some, if◌then◌else◌, List,
  ◌&&◌, ◌||◌, ap, not, any, ◌∙◌, true, Bool,
}

pub data HealthStatus : Type 0 where
  health_unknown : HealthStatus
  health_down : HealthStatus
  health_up : HealthStatus

-- The loop over the last successes, from the zero time.
unfoldable pub newest_from : ℕ → List (String × ℕ) → ℕ
newest_from newest [] = newest
newest_from newest ((name, t) ∷ m) = newest_from (if ltb newest t then t else newest) m

-- The status, and the last success if there is one.
unfoldable pub health : Routing → ℕ → ℕ → Gateway → HealthStatus × Option ℕ
health c started_at moment g =
    let newest = newest_from 0 g.last_success in
    if newest == 0
    then (if ltb moment (started_at + c.startup_grace) then health_unknown else health_down, none)
    else (if ltb moment (newest + c.max_staleness) then health_up else health_down, some newest)

later :
    (p : ℕ → Bool) (acc t : ℕ)
    → ((a b : ℕ) → a ≤ b → p a ≡ true → p b ≡ true)
    → (p acc || p t) ≡ p (if ltb acc t then t else acc)
later p acc t mono = ground (arith, mono acc t, mono t acc)

or_assoc : (a b c : Bool) → (a || (b || c)) ≡ ((a || b) || c)
or_assoc a b c = ground arith

-- A test that later times pass too is passed by the newest time when some time passes it.
newest_from-any :
    (p : ℕ → Bool) (acc : ℕ) (m : List (String × ℕ))
    → ((a b : ℕ) → a ≤ b → p a ≡ true → p b ≡ true)
    → (p acc || any (λ e. p e.1) m) ≡ p (newest_from acc m)
unfolding newest_from
newest_from-any p acc [] mono = ground arith
newest_from-any p acc ((name, t) ∷ m) mono =
    or_assoc (p acc) (p t) (any (λ e. p e.1) m)
    ∙ ap (λ b. b || any (λ e. p e.1) m) (later p acc t mono)
    ∙ newest_from-any p (if ltb acc t then t else acc) m mono

-- Some provider answered, and some provider answered within the staleness.
abbrev pub has_answered : Gateway → Bool
has_answered g = any (λ e. ltb 0 e.1) g.last_success

abbrev pub is_fresh : Routing → ℕ → Gateway → Bool
is_fresh c moment g = any (λ e. ltb 0 e.1 && ltb moment (e.1 + c.max_staleness)) g.last_success

-- Up exactly when some provider answered recently enough; otherwise down, but unknown while no
-- provider ever answered and the grace period is not over.
pub health_eq :
    (c : Routing) (started_at moment : ℕ) (g : Gateway)
    → (health c started_at moment g).0 ≡ (
        if is_fresh c moment g
        then health_up
        else if not (has_answered g) && ltb moment (started_at + c.startup_grace)
        then health_unknown
        else health_down)
unfolding health
health_eq c started_at moment g =
    let fresh : is_fresh c moment g ≡ (
        ltb 0 (newest_from 0 g.last_success)
        && ltb moment (newest_from 0 g.last_success + c.max_staleness)) =
      newest_from-any (λ t. ltb 0 t && ltb moment (t + c.max_staleness)) 0 g.last_success
        (λ a b h k. ground arith) in
    let answered : has_answered g ≡ ltb 0 (newest_from 0 g.last_success) =
      newest_from-any (ltb 0) 0 g.last_success (λ a b h k. ground arith) in
    rw (fresh, answered) (ground arith)
