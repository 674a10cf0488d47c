-- ===== src/Providers/Calls.antt =====
-- `NewCompetitionProviderGateway`, `orderedProviders` and `execute`. A provider is its name: what it
-- answers is outside. A nil provider, which `execute` would call a method on, is `none`.
use cs2_predictor.Providers.{
  Gateway, Outside, stepped, record_success, circuit_open, record_failure, Routing,
}
use cs2_predictor.Base.{
  String, ◌∷◌, ◌++◌, Error, ℕ, List, suc, ok, [], err, if◌then◌else◌, Result, Option, none, some,
  error, put, same_key, get, ◌>>=◌,
}

-- What `execute` comes to: the first answer, or the error of each provider tried.
pub data CallError : Type 0 where
  circuit_is_open : String → ℕ → CallError
  call_failed : Error → CallError

pub data Answer (A : Type 0) : Type 0 where
  answered : A → Answer A
  unavailable : List CallError → Answer A
  panicked : Answer A

-- `strings.ToUpper`.
module _ (to_upper : String → String) where
  -- The providers by upper-case name, or the name that two of them share.
  unfoldable pub by_upper_name :
      List String → List (String × String) → Result (List (String × String))
  by_upper_name [] seen = ok seen
  by_upper_name (p ∷ ps) seen =
      let rest = by_upper_name ps (put (to_upper p) p seen) in
      elim (get (to_upper p) seen) [
        | none ↦ rest
        | some first ↦ err (error "duplicate competition providers")
      ]

  unfoldable pub missing : List (String × String) → List String → List String
  missing known [] = []
  missing known (n ∷ ns) =
      let rest = missing known ns in
      elim (get (to_upper n) known) [ none ↦ n ∷ rest | some p ↦ rest ]

  unfoldable pub none_missing :
      List (String × String) → List String → Result (List (String × String))
  none_missing known [] = ok known
  none_missing known (n ∷ ns) = err (error "configured competition providers are unavailable")

  -- The table of providers of a gateway that is constructed.
  unfoldable pub new_gateway : List String → Routing → Result (List (String × String))
  unfolding none_missing
  new_gateway providers c =
      by_upper_name providers [] >>= λ known. none_missing known (missing known c.order)

  unfoldable pub in_order : List (String × String) → String → List String → List (Option String)
  in_order known preferred [] = []
  in_order known preferred (n ∷ ns) =
      let rest = in_order known preferred ns in
      if same_key (to_upper n) preferred then rest else get (to_upper n) known ∷ rest

  unfoldable pub found_first : Option String → List (Option String)
  found_first none = []
  found_first (some p) = some p ∷ []

  -- The preferred provider if there is one of that name, then the configured ones.
  unfoldable pub ordered_providers :
      List (String × String) → String → Routing → List (Option String)
  unfolding in_order found_first
  ordered_providers known preferred c =
      (if same_key preferred "" then [] else found_first (get preferred known))
      ++ in_order known preferred c.order

module _ {A : Type 0} (c : Routing) (o : Outside A) where
  unfoldable pub failed : String → Error → Gateway → Gateway
  failed name e g = record (record_failure c o.clock name g) { last_failure = some (name, e) }

  -- The answer of a provider is reported; after a failure the next provider has its turn.
  unfoldable pub answer_or :
      String
      → Result A
      → (List CallError → Gateway → Answer A × Gateway)
      → List CallError
      → Gateway
      → Answer A × Gateway
  unfolding failed
  answer_or name (ok a) next errs g = (answered a, record_success o.clock name g)
  answer_or name (err e) next errs g = next (errs ++ call_failed e ∷ []) (failed name e g)

  -- The clock is read, the provider called, and the clock read again.
  unfoldable pub call_or_skip :
      String
      → (List CallError → Gateway → Answer A × Gateway)
      → List CallError
      → Option ℕ × Gateway
      → Answer A × Gateway
  unfolding answer_or
  call_or_skip name next errs (some until, g) = next (errs ++ circuit_is_open name until ∷ []) g
  call_or_skip name next errs (none, g) =
      answer_or name (o.answers (suc g.steps) name) next errs (stepped (stepped (stepped g)))

  unfoldable pub execute : List (Option String) → List CallError → Gateway → Answer A × Gateway
  unfolding call_or_skip
  execute [] errs g = (unavailable errs, g)
  execute (none ∷ ps) errs g = (panicked, g)
  execute (some name ∷ ps) errs g =
      call_or_skip name (execute ps) errs (circuit_open c o.clock name g)
