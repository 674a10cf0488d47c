-- ===== src/Enrichment/Identity.antt =====
-- `MatchTeam` of internal/domain/enrichment/identity.go.
pub mod Leaders
pub mod Matching
use cs2_predictor.Enrichment.Names.{
  is_empty_text, Unicode, normalize_team_name, normalize_player_name,
}
use cs2_predictor.Base.{
  ◌&&◌, ◌∷◌, find_first, true, if◌then◌else◌, ltb, none, leb, List, ◌==◌, Bool, not, [], ℕ, Option,
  some, or_else, suc, any, false,
}
use cs2_predictor.Base.Splits.{same_bytes}

pub data MatchConfidence : Type 0 where
  confidence_external_id confidence_exact_name confidence_alias confidence_roster : MatchConfidence
  confidence_fuzzy_name confidence_manual : MatchConfidence

pub record TeamIdentity : Type 0 where
  pub name : List ℕ
  pub roster : List (List ℕ)

pub record TeamCandidate : Type 0 where
  pub team_id : ℕ
  pub name : List ℕ
  pub aliases : List (List ℕ)
  pub roster : List (List ℕ)

abbrev pub min_roster_overlap : ℕ
min_roster_overlap = 3

module _ (u : Unicode) where
  abbrev pub is_named : List ℕ → TeamCandidate → Bool
  is_named norm c = same_bytes (normalize_team_name u c.name) norm

  abbrev pub has_alias : List ℕ → TeamCandidate → Bool
  has_alias norm c = any (λ alias. same_bytes (normalize_team_name u alias) norm) c.aliases

  -- Whether the player is in the other roster.
  abbrev pub plays_in : List (List ℕ) → List ℕ → Bool
  plays_in external p =
      any (λ q. same_bytes (normalize_player_name u q) (normalize_player_name u p)) external

  unfoldable pub overlap : List (List ℕ) → List (List ℕ) → ℕ
  overlap external [] = 0
  overlap external (p ∷ ps) =
      let rest = overlap external ps in if plays_in external p then suc rest else rest

  -- The loop over the candidates: best, bestOverlap and ambiguous.
  unfoldable pub best_roster : List (List ℕ) → List TeamCandidate → ℕ → ℕ → Bool → ℕ × ℕ × Bool
  best_roster external [] best best_overlap ambiguous = (best, best_overlap, ambiguous)
  best_roster external (c ∷ cs) best best_overlap ambiguous =
      let n = overlap external c.roster in
      let skipped = best_roster external cs best best_overlap ambiguous in
      let better = best_roster external cs c.team_id n false in
      let tied = best_roster external cs best best_overlap true in
      if ltb n min_roster_overlap
      then skipped
      else if ltb best_overlap n
      then better
      else if n == best_overlap
      then tied
      else skipped

  unfoldable pub by_roster : ℕ × ℕ × Bool → Option (ℕ × MatchConfidence)
  by_roster (best, n, ambiguous) =
      if leb min_roster_overlap n && not ambiguous then some (best, confidence_roster) else none

  -- Where nothing is reported of a roster, there is no match.
  unfoldable pub match_roster_of : List TeamCandidate → List (List ℕ) → Option (ℕ × MatchConfidence)
  match_roster_of candidates [] = none
  match_roster_of candidates (p ∷ ps) = by_roster (best_roster (p ∷ ps) candidates 0 0 false)

  unfoldable pub matched_by : MatchConfidence → Option TeamCandidate → Option (ℕ × MatchConfidence)
  matched_by confidence none = none
  matched_by confidence (some c) = some (c.team_id, confidence)

  unfoldable pub match_team : List TeamCandidate → TeamIdentity → Option (ℕ × MatchConfidence)
  match_team candidates external =
      let norm = normalize_team_name u external.name in
      if is_empty_text norm
      then none
      else or_else (matched_by confidence_exact_name (find_first (is_named norm) candidates)) (
          or_else (matched_by confidence_alias (find_first (has_alias norm) candidates))
            (match_roster_of candidates external.roster))
