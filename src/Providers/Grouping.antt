-- ===== src/Providers/Grouping.antt =====
-- `Matches`: the events by their provider, and one run of `execute` for each group. What the
-- providers answer for a group is outside. The run ends where `execute` panics.
use mathlib.Core.List.Perm
use mathlib.Core.List.{Perm, perm_middle, append_assoc, append-nil}
use cs2_predictor.Providers.{Gateway, Routing, Outside}
use cs2_predictor.Providers.Calls.{
  answered, panicked, unavailable, CallError, ordered_providers, Answer, execute,
}
use cs2_predictor.Base.{
  Bool, same_key, [], ◌++◌, true, List, ◌∷◌, false, if◌then◌else◌, String, Bool-cases, inr, inl,
  All-append, All, sym, same_key_refl, ◌≡◌, subst,
}
use cs2_predictor.Providers.Runs.{execute-Told, Told}
use cs2_predictor.Competition.Catalog.{Match, Event}

-- The group of the provider with this name takes the event, a new group if there is none.
unfoldable pub join_group : String → Event → List (String × List Event) → List (String × List Event)
join_group key e [] = (key, e ∷ []) ∷ []
join_group key e ((k, es) ∷ gs) =
    let rest = join_group key e gs in
    if same_key k key then (k, es ++ e ∷ []) ∷ gs else (k, es) ∷ rest

-- The errors of the groups that failed, by their provider, beside the matches of the others.
pub record Fetched : Type 0 where
  pub matches : List Match
  pub failures : List (String × List CallError)
  pub is_cut : Bool

module _ (to_upper : String → String) where
  unfoldable pub group_from : List (String × List Event) → List Event → List (String × List Event)
  unfolding join_group
  group_from gs [] = gs
  group_from gs (e ∷ es) = group_from (join_group (to_upper e.provider) e gs) es

  module _ (c : Routing) (known : List (String × String))
      (ask : List Event → Outside (List Match)) where
    unfoldable pub take_answer :
        String
        → (Fetched → Gateway → Fetched × Gateway)
        → Fetched
        → Answer (List Match) × Gateway
        → Fetched × Gateway
    take_answer key next f (answered ms, g) = next (record f { matches = f.matches ++ ms }) g
    take_answer key next f (unavailable es, g) =
        next (record f { failures = f.failures ++ (key, es) ∷ [] }) g
    take_answer key next f (panicked, g) = (record f { is_cut = true }, g)

    unfoldable pub fetch_groups : List (String × List Event) → Fetched → Gateway → Fetched × Gateway
    unfolding take_answer
    fetch_groups [] f g = (f, g)
    fetch_groups ((key, group) ∷ gs) f g =
        take_answer key (fetch_groups gs) f
          (execute c (ask group) (ordered_providers to_upper known key c) [] g)

    unfoldable pub matches_of : List Event → Gateway → Fetched × Gateway
    unfolding fetch_groups group_from
    matches_of events g =
        fetch_groups (group_from [] events) (record { matches = []; failures = []; is_cut = false })
          g

    take_answer-Told :
        (key : String) (next : Fetched → Gateway → Fetched × Gateway) (f : Fetched)
        (a : Answer (List Match) × Gateway)
        → ((h : Fetched) (g : Gateway) → Told c g → Told c (next h g).1)
        → Told c a.1
        → Told c (take_answer key next f a).1
    unfolding take_answer
    take_answer-Told key next f (answered ms, g) k h =
        k (record f { matches = f.matches ++ ms }) g h
    take_answer-Told key next f (unavailable es, g) k h =
        k (record f { failures = f.failures ++ (key, es) ∷ [] }) g h
    take_answer-Told key next f (panicked, g) k h = h

    fetch_groups-Told :
        (gs : List (String × List Event)) (f : Fetched) (g : Gateway)
        → Told c g
        → Told c (fetch_groups gs f g).1
    unfolding fetch_groups
    fetch_groups-Told [] f g h = h
    fetch_groups-Told ((key, group) ∷ gs) f g h =
        take_answer-Told key (fetch_groups gs) f
          (execute c (ask group) (ordered_providers to_upper known key c) [] g)
          (λ e k t. fetch_groups-Told gs e k t)
          (execute-Told c (ask group) (ordered_providers to_upper known key c) [] g h)

    -- A fetch of the matches that begins with the observer listening and every circuit told ends so,
    -- over all its groups.
    pub matches_of-Told :
        (events : List Event) (g : Gateway) → Told c g → Told c (matches_of events g).1
    unfolding matches_of
    matches_of-Told events g h =
        fetch_groups-Told (group_from [] events)
          (record { matches = []; failures = []; is_cut = false }) g h

-- The events of all groups.
abbrev pub grouped : List (String × List Event) → List Event
grouped [] = []
grouped ((k, es) ∷ gs) = es ++ grouped gs

join_group-perm :
    (key : String) (e : Event) (gs : List (String × List Event))
    → Perm (grouped (join_group key e gs)) (e ∷ grouped gs)
unfolding join_group
join_group-perm key e [] = Perm.refl (e ∷ [])
join_group-perm key e ((k, es) ∷ gs) = elim (Bool-cases (same_key k key)) [
  | inl here ↦ rw (here, append_assoc es (e ∷ []) (grouped gs)) (perm_middle es (grouped gs))
  | inr later ↦
      rw later
        (Perm.trans (Perm.append_left es (join_group-perm key e gs)) (perm_middle es (grouped gs)))
]

group_from-perm :
    (to_upper : String → String) (gs : List (String × List Event)) (events : List Event)
    → Perm (grouped (group_from to_upper gs events)) (grouped gs ++ events)
unfolding group_from
group_from-perm to_upper gs [] =
    subst (λ l. Perm (grouped gs) l) (sym (append-nil (grouped gs))) (Perm.refl (grouped gs))
group_from-perm to_upper gs (e ∷ es) =
    Perm.trans (group_from-perm to_upper (join_group (to_upper e.provider) e gs) es) (
      Perm.trans (Perm.append_right es (join_group-perm (to_upper e.provider) e gs))
        (Perm.symm (perm_middle (grouped gs) es)))

module _ (to_upper : String → String) where
  -- The events of a group are those of its provider.
  abbrev pub IsKeyed : String × List Event → Type 0
  IsKeyed (k, es) = All (λ e. same_key k (to_upper e.provider) ≡ true) es

  join_group-IsKeyed :
      (e : Event) (gs : List (String × List Event))
      → All IsKeyed gs
      → All IsKeyed (join_group (to_upper e.provider) e gs)
  unfolding join_group
  join_group-IsKeyed e [] h = ((same_key_refl (to_upper e.provider), tt), tt)
  join_group-IsKeyed e ((k, es) ∷ gs) h = elim (Bool-cases (same_key k (to_upper e.provider))) [
    | inl here ↦
        rw here (
          All-append (λ e. same_key k (to_upper e.provider) ≡ true) es (e ∷ []) h.0 (here, tt),
          h.1,
        )
    | inr later ↦ rw later (h.0, join_group-IsKeyed e gs h.1)
  ]

  group_from-IsKeyed :
      (gs : List (String × List Event)) (events : List Event)
      → All IsKeyed gs
      → All IsKeyed (group_from to_upper gs events)
  unfolding group_from
  group_from-IsKeyed gs [] h = h
  group_from-IsKeyed gs (e ∷ es) h =
      group_from-IsKeyed (join_group (to_upper e.provider) e gs) es (join_group-IsKeyed e gs h)

  -- Every event is in one group, once, and the events of a group have its provider.
  pub group_from_nil :
      (events : List Event)
      → Perm (grouped (group_from to_upper [] events)) events
        × All IsKeyed (group_from to_upper [] events)
  group_from_nil events = (group_from-perm to_upper [] events, group_from-IsKeyed [] events tt)
