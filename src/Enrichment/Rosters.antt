-- ===== src/Enrichment/Rosters.antt =====
-- `MatchRoster` of internal/domain/enrichment/player_match.go: exact nicknames first, then similar
-- ones, each side once.
pub mod Slots
pub mod Reasons
pub mod Exact
pub mod Pairing
use cs2_predictor.Enrichment.Similarity.{
  fuzzy_nickname_score, player_nickname_auto_accept_threshold,
}
use cs2_predictor.Base.{
  not, Bool, ◌∷◌, true, map, suc, ◌++◌, ◌||◌, [], false, ℕ, some, ltb, Option, if◌then◌else◌, List,
  none, zero,
}
use cs2_predictor.Enrichment.Identity.{
  confidence_exact_name, MatchConfidence, confidence_fuzzy_name,
}
use cs2_predictor.Enrichment.Names.{normalize_nickname, is_empty_text, Unicode}
use cs2_predictor.Base.Splits.{same_bytes}
use cs2_predictor.Settlement.Steady.{kept}

pub record RosterCandidate : Type 0 where
  pub player_id : ℕ
  pub nickname : List ℕ

pub record PlayerMatch : Type 0 where
  pub player_id : ℕ
  pub external_name : List ℕ
  pub confidence : MatchConfidence

-- A candidate with takenCandidate, and a nickname of the other feed with takenExternal.
pub record Slot : Type 0 where
  pub candidate : RosterCandidate
  pub taken : Bool

pub record Reported : Type 0 where
  pub external : List ℕ
  pub taken : Bool

abbrev pub match_of : MatchConfidence → List ℕ → RosterCandidate → PlayerMatch
match_of confidence external c = record {
  player_id = c.player_id;
  external_name = external;
  confidence = confidence;
}

-- The index of the first free slot that passes the test.
unfoldable pub first_free : (RosterCandidate → Bool) → List Slot → ℕ → Option ℕ
first_free test [] j = none
first_free test (s ∷ slots) j =
    let rest = first_free test slots (suc j) in
    if s.taken || not (test s.candidate) then rest else some j

-- candidates[j] with takenCandidate[j] set.
unfoldable pub take_slot : ℕ → List Slot → Option RosterCandidate × List Slot
take_slot j [] = (none, [])
take_slot zero (s ∷ slots) = (some s.candidate, record s { taken = true } ∷ slots)
take_slot (suc j) (s ∷ slots) = let rest = take_slot j slots in (rest.0, s ∷ rest.1)

abbrev pub append_match :
    MatchConfidence → List ℕ → Option RosterCandidate → List PlayerMatch → List PlayerMatch
append_match confidence external none matched = matched
append_match confidence external (some c) matched = matched ++ match_of confidence external c ∷ []

abbrev pub Passed : Type 0
Passed = List Reported × List Slot × List PlayerMatch

abbrev pub add_reported : Reported → Passed → Passed
add_reported r (reported, slots, matched) = (r ∷ reported, slots, matched)

module _ (u : Unicode) where
  abbrev pub is_nicknamed : List ℕ → RosterCandidate → Bool
  is_nicknamed norm c = same_bytes (normalize_nickname u c.nickname) norm

  -- The first loop over the nicknames, and one round of it.
  unfoldable pub exact_round :
      List ℕ
      → Option ℕ
      → (List Slot → List PlayerMatch → Passed)
      → List Slot
      → List PlayerMatch
      → Passed
  exact_round external none further slots matched =
      add_reported (record { external = external; taken = false }) (further slots matched)
  exact_round external (some j) further slots matched =
      add_reported (record { external = external; taken = true })
        (further (take_slot j slots).1
          (append_match confidence_exact_name external (take_slot j slots).0 matched))

  unfoldable pub exact_pass : List (List ℕ) → List Slot → List PlayerMatch → Passed
  exact_pass [] slots matched = ([], slots, matched)
  exact_pass (external ∷ more) slots matched =
      let norm = normalize_nickname u external in
      let rest = exact_pass more in
      if is_empty_text norm
      then add_reported (record { external = external; taken = true }) (rest slots matched)
      else exact_round external (first_free (is_nicknamed norm) slots 0) rest slots matched

  -- bestScore and best, where a later candidate has to be strictly more similar.
  unfoldable pub best_free : List ℕ → List Slot → ℕ → ℕ → Option ℕ → ℕ × Option ℕ
  best_free external [] j best_score best = (best_score, best)
  best_free external (s ∷ slots) j best_score best =
      let similarity = fuzzy_nickname_score u external s.candidate.nickname in
      let kept = best_free external slots (suc j) best_score best in
      let better = best_free external slots (suc j) similarity (some j) in
      if s.taken then kept else if ltb best_score similarity then better else kept

  unfoldable pub fuzzy_round :
      List ℕ
      → ℕ × Option ℕ
      → (List Slot → List PlayerMatch → List (List ℕ) → List PlayerMatch × List (List ℕ))
      → List Slot
      → List PlayerMatch
      → List (List ℕ)
      → List PlayerMatch × List (List ℕ)
  fuzzy_round external (best_score, none) further slots matched unmatched =
      further slots matched (unmatched ++ external ∷ [])
  fuzzy_round external (best_score, some j) further slots matched unmatched =
      if ltb best_score player_nickname_auto_accept_threshold
      then further slots matched (unmatched ++ external ∷ [])
      else further (take_slot j slots).1
          (append_match confidence_fuzzy_name external (take_slot j slots).0 matched) unmatched

  unfoldable pub fuzzy_pass :
      List Reported
      → List Slot
      → List PlayerMatch
      → List (List ℕ)
      → List PlayerMatch × List (List ℕ)
  fuzzy_pass [] slots matched unmatched = (matched, unmatched)
  fuzzy_pass (r ∷ more) slots matched unmatched =
      let rest = fuzzy_pass more in
      if r.taken
      then rest slots matched unmatched
      else fuzzy_round r.external (best_free r.external slots 0 0 none) rest slots matched unmatched

  unfoldable pub match_roster :
      List RosterCandidate → List (List ℕ) → List PlayerMatch × List (List ℕ)
  match_roster candidates externals =
      let first =
        exact_pass externals (map (λ c. record { candidate = c; taken = false }) candidates) [] in
      fuzzy_pass first.0 first.1 first.2 []
