-- ===== src/Providers.antt =====
-- internal/app/gateway.go: the gateway to the competition data providers, with its circuit breaker.
-- The clock and the providers are outside: every reading of the clock and every call of a provider
-- takes the next number, and `Outside` says what the one with that number answers. A time is a
-- number of nanoseconds, 0 the zero time, and a duration an int64 that internal/app/config.go has
-- checked to be positive. A threshold of 0 stands for every threshold that is not positive. The
-- metrics are not modelled.
pub mod Calls
pub mod Backoff
pub mod Circuit
pub mod Runs
pub mod Fallback
pub mod Grouping
pub mod Construction
pub mod Health
use cs2_predictor.Base.{
  ℕ, String, List, Option, none, some, Result, Error, Bool, ◌∷◌, [], get, put, delete, suc, zero,
  ◌-◌, ◌+◌, ◌||◌, false, ◌==◌, if◌then◌else◌, leb, ◌%◌, true, ◌*◌, ◌^◌, min, ltb,
}

pub record Routing : Type 0 where
  pub order : List String
  pub startup_grace : ℕ
  pub max_staleness : ℕ
  pub threshold : ℕ
  pub base_delay : ℕ
  pub max_delay : ℕ

-- 2 minutes, 2 hours, 30 seconds and 15 minutes.
abbrev pub default_routing : Routing
default_routing = record {
  order = "PANDASCORE" ∷ [];
  startup_grace = 120000000000;
  max_staleness = 7200000000000;
  threshold = 3;
  base_delay = 30000000000;
  max_delay = 900000000000;
}

-- What the health observer is told; the text of the last failure is the provider and its error.
pub data Alert : Type 0 where
  provider_down : String → ℕ → Option (String × Error) → Alert
  provider_recovered : String → Alert

pub record Outside (A : Type 0) : Type 0 where
  pub clock : ℕ → ℕ
  pub answers : ℕ → String → Result A

-- The gateway, the alerts newest first, and the number of readings and calls so far.
pub record Gateway : Type 0 where
  pub observed : Bool
  pub last_success : List (String × ℕ)
  pub last_failure : Option (String × Error)
  pub failure_streak : List (String × ℕ)
  pub circuit_open_until : List (String × ℕ)
  pub alerts : List Alert
  pub steps : ℕ

abbrev pub stepped : Gateway → Gateway
stepped g = record g { steps = suc g.steps }

abbrev pub streak_of : Option ℕ → ℕ
streak_of none = 0
streak_of (some n) = n

-- The delay of a circuit that opens: the shift is of an int64, which wraps.
unfoldable pub backoff : ℕ → ℕ → ℕ → ℕ
backoff base max_delay over =
    let delay = (base * 2 ^ min over 30) % 2 ^ 64 in
    if (delay == 0) || leb (2 ^ 63) delay || ltb max_delay delay then max_delay else delay

unfoldable pub still_open : Option ℕ → (ℕ → ℕ) → Gateway → Option ℕ × Gateway
still_open none clock g = (none, g)
still_open (some until) clock g =
    (if ltb (clock g.steps) until then some until else none, stepped g)

-- Whether the provider is skipped, and until when.
unfoldable pub circuit_open : Routing → (ℕ → ℕ) → String → Gateway → Option ℕ × Gateway
unfolding still_open
circuit_open c clock name g =
    if c.threshold == 0 then (none, g) else still_open (get name g.circuit_open_until) clock g

unfoldable pub told_recovered : Bool → Option ℕ → String → List Alert → List Alert
told_recovered true (some until) name alerts = provider_recovered name ∷ alerts
told_recovered true none name alerts = alerts
told_recovered false was_open name alerts = alerts

unfoldable pub record_success : (ℕ → ℕ) → String → Gateway → Gateway
record_success clock name g = record g {
  last_success = put name (clock g.steps) g.last_success;
  last_failure = none;
  failure_streak = put name 0 g.failure_streak;
  circuit_open_until = delete name g.circuit_open_until;
  alerts = told_recovered g.observed (get name g.circuit_open_until) name g.alerts;
  steps = suc g.steps;
}

unfoldable pub told_down :
    Bool → Option ℕ → String → ℕ → Option (String × Error) → List Alert → List Alert
told_down true none name streak failure alerts = provider_down name streak failure ∷ alerts
told_down true (some until) name streak failure alerts = alerts
told_down false already_open name streak failure alerts = alerts

unfoldable pub open_circuit : Routing → (ℕ → ℕ) → String → ℕ → Gateway → Gateway
unfolding told_down
open_circuit c clock name streak g = record g {
  circuit_open_until =
      put name (clock g.steps + backoff c.base_delay c.max_delay (streak - c.threshold))
        g.circuit_open_until;
  alerts = told_down g.observed (get name g.circuit_open_until) name streak g.last_failure g.alerts;
  steps = suc g.steps;
}

unfoldable pub bumped : String → Gateway → Gateway
bumped name g = record g {
  failure_streak = put name (suc (streak_of (get name g.failure_streak))) g.failure_streak;
}

unfoldable pub record_failure : Routing → (ℕ → ℕ) → String → Gateway → Gateway
record_failure c clock name g =
    let streak = suc (streak_of (get name g.failure_streak)) in
    if c.threshold == 0
    then g
    else if ltb streak c.threshold
    then bumped name g
    else open_circuit c clock name streak (bumped name g)
