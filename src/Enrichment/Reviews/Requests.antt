-- ===== src/Enrichment/Reviews/Requests.antt =====
-- `ensureRequest` and `bestSnapshotMatch` of internal/app/team_match.go. What is in the rankings and the
-- snapshot, and what is new, are arguments.
use cs2_predictor.Base.{
  ◌==◌, ok, length, if◌then◌else◌, true, none, err, List, ltb, ℕ, Bool, false, Option, leb, some,
  [], any, Result, ◌∷◌,
}
use cs2_predictor.Enrichment.Similarity.{
  fuzzy_name_score, fuzzy_auto_accept_threshold, fuzzy_request_threshold,
}
use cs2_predictor.Enrichment.Reviews.{
  kind_fuzzy, find_pending_by_external_name, add_candidate, CandidateRow, match_pending,
  max_candidates_per_request, TeamMatchRequest, Desk, create_request, candidates_for,
}
use cs2_predictor.Enrichment.Names.{Unicode}

pub data Ensured : Type 0 where
  not_needed : Ensured
  accepted : List ℕ → Ensured
  under_review : ℕ → Ensured

-- bestScore starts at -1.
abbrev pub better_match : List ℕ × ℕ → Option (List ℕ × ℕ) → Bool
better_match found none = true
better_match found (some best) = ltb best.1 found.1

unfoldable pub best_snapshot_match :
    Unicode → List ℕ → List (List ℕ) → Option (List ℕ × ℕ) → Option (List ℕ × ℕ)
best_snapshot_match u name [] best = best
best_snapshot_match u name (ranked ∷ more) best =
    let found : List ℕ × ℕ = (ranked, fuzzy_name_score u name ranked) in
    best_snapshot_match u name more (if better_match found best then some found else best)

abbrev pub fuzzy_candidate : ℕ → ℕ → ℕ → CandidateRow
fuzzy_candidate request_id team_id points = record {
  request_id = request_id;
  team_id = team_id;
  points = points;
  kind = kind_fuzzy;
}

unfoldable pub add_competing_candidate : ℕ → ℕ → ℕ → Desk → Desk
add_competing_candidate request_id team_id points desk =
    let listed = candidates_for request_id desk in
    if any (λ c. c.team_id == team_id) listed
    then desk
    else if leb max_candidates_per_request (length listed)
    then desk
    else add_candidate (fuzzy_candidate request_id team_id points) desk

abbrev pub new_request : ℕ → List ℕ → List ℕ → ℕ → ℕ → ℕ → TeamMatchRequest
new_request id source name team_id points at = record {
  id = id;
  external_name = name;
  source = source;
  status = match_pending;
  best_team_id = some team_id;
  best_score = points;
  crowd_asks_sent = 0;
  created_at = at;
  resolved_at = none;
}

abbrev pub created : ℕ → Result Desk → Result (Ensured × Desk)
created id (err e) = err e
created id (ok desk) = ok (under_review id, desk)

-- A request that is pending gets one more candidate, and otherwise one is opened.
unfoldable pub join_request :
    ℕ → ℕ → List ℕ → ℕ → List ℕ × ℕ → Option TeamMatchRequest → Desk → Result (Ensured × Desk)
join_request team_id id source at best (some existing) desk =
    ok (under_review existing.id, add_competing_candidate existing.id team_id best.1 desk)
join_request team_id id source at best none desk = created id (
    create_request (new_request id source best.0 team_id best.1 at)
      (fuzzy_candidate id team_id best.1 ∷ []) desk)

unfoldable pub review_match :
    ℕ → ℕ → List ℕ → ℕ → Option (List ℕ × ℕ) → Desk → Result (Ensured × Desk)
review_match team_id id source at none desk = ok (not_needed, desk)
review_match team_id id source at (some best) desk =
    if ltb best.1 fuzzy_request_threshold
    then ok (not_needed, desk)
    else if leb fuzzy_auto_accept_threshold best.1
    then ok (accepted best.0, desk)
    else join_request team_id id source at best (find_pending_by_external_name source best.0 desk)
        desk

unfoldable pub ensure_request :
    Unicode → ℕ → List ℕ → ℕ → List ℕ → ℕ → Bool → List (List ℕ) → Desk → Result (Ensured × Desk)
ensure_request u team_id name id source at true snapshot desk = ok (not_needed, desk)
ensure_request u team_id name id source at false snapshot desk =
    review_match team_id id source at (best_snapshot_match u name snapshot none) desk
