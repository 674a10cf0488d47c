-- ===== src/Examples/Gateways.antt =====
-- The provider gateway: the theorems at concrete inputs.
use cs2_predictor.Base.{
  ◌+◌, if◌then◌else◌, same_key, none, ℕ, err, refl, [], arith, true, ◌≡◌, error, ok, String, some,
  ◌∷◌, List,
}
use cs2_predictor.Providers.{Gateway, default_routing, Outside}
use cs2_predictor.Providers.Fallback.{execute-Reports, Reports}
use cs2_predictor.Providers.Calls.{by_upper_name, none_missing, new_gateway, execute, missing}
use cs2_predictor.Providers.Runs.{execute-Told, Told}
use cs2_predictor.Competition.Catalog.{event_upcoming, Event, tier_s}

abbrev shouted : String → String
shouted s = if same_key s "grid" then "GRID" else s

-- PANDASCORE fails every time; GRID answers.
abbrev outside : Outside ℕ
outside = record {
  clock = λ n. 1000 + n;
  answers = λ n name. if same_key name "GRID" then ok 3 else err (error "timeout");
}

abbrev fresh : Gateway
fresh = record {
  observed = true;
  last_success = [];
  last_failure = none;
  failure_streak = [];
  circuit_open_until = [];
  alerts = [];
  steps = 0;
}

fresh-Told : Told default_routing fresh
fresh-Told = record { seen = refl; told = λ n. ((λ e. ground (arith, e)), refl) }

execute-Told_example :
    Told default_routing
      (execute default_routing outside (some "PANDASCORE" ∷ some "GRID" ∷ []) [] fresh).1
execute-Told_example =
    execute-Told default_routing outside (some "PANDASCORE" ∷ some "GRID" ∷ []) [] fresh fresh-Told

-- The circuit of PANDASCORE is open until later.
abbrev tripped : Gateway
tripped = record fresh { circuit_open_until = ("PANDASCORE", 5000) ∷ [] }

execute-Reports_example :
    Reports default_routing outside
      (some "PANDASCORE" ∷ some "GRID" ∷ [])
      tripped
      []
      (execute default_routing outside (some "PANDASCORE" ∷ some "GRID" ∷ []) [] tripped).0
execute-Reports_example =
    execute-Reports default_routing outside (some "PANDASCORE" ∷ some "GRID" ∷ []) [] tripped

constructed :
    new_gateway shouted ("PANDASCORE" ∷ "grid" ∷ []) default_routing
    ≡ ok (("GRID", "grid") ∷ ("PANDASCORE", "PANDASCORE") ∷ [])
unfolding new_gateway by_upper_name missing none_missing
constructed = refl

abbrev event_of : ℕ → String → Event
event_of id provider = record {
  id = id;
  game = "CS2";
  name = "Major";
  external_id = "";
  status = event_upcoming;
  starts_at = none;
  ends_at = none;
  provider = provider;
  tier = tier_s;
}

abbrev events : List Event
events = event_of 1 "grid" ∷ event_of 2 "PANDASCORE" ∷ event_of 3 "GRID" ∷ []
