-- ===== src/Enrichment/Reviews.antt =====
-- The review of doubtful team names: CrowdAdjustedScore of internal/domain/enrichment/team_match.go, the
-- statements of internal/adapter/postgres/team_match.go, ensureRequest of internal/app/team_match.go,
-- and the operators' decisions in internal/adapter/telegram/team_match.go. A statement that fails
-- changes nothing and its error is passed on, so failures are left out.
pub mod Requests
pub mod Changes
pub mod Bounds
pub mod Rejected
pub mod Closed
pub mod Questions
use cs2_predictor.Base.{
  ◌-◌, ◌==◌, find_first, Result, ◌∷◌, true, ◌&&◌, ◌+◌, List, error, ltb, any, err, or_else, map,
  Option, ℕ, false, not, [], ◌++◌, ok, if◌then◌else◌, Bool, none, get_elem?, keep_if, some,
}
use cs2_predictor.Base.Splits.{same_bytes}
use cs2_predictor.Base.Sort.{stable_sort}

pub data TeamMatchStatus : Type 0 where
  match_pending match_confirmed match_rejected : TeamMatchStatus

pub data TeamMatchAnswer : Type 0 where
  answer_yes answer_no : TeamMatchAnswer

pub data CandidateKind : Type 0 where
  kind_fuzzy kind_crowd : CandidateKind

pub record TeamMatchRequest : Type 0 where
  pub id : ℕ
  pub external_name : List ℕ
  pub source : List ℕ
  pub status : TeamMatchStatus
  pub best_team_id : Option ℕ
  pub best_score : ℕ
  pub crowd_asks_sent : ℕ
  pub created_at : ℕ
  pub resolved_at : Option ℕ

pub record CandidateRow : Type 0 where
  pub request_id : ℕ
  pub team_id : ℕ
  pub points : ℕ
  pub kind : CandidateKind

pub record ResponseRow : Type 0 where
  pub request_id : ℕ
  pub user_id : ℕ
  pub candidate_team_id : ℕ
  pub answer : TeamMatchAnswer

pub record Desk : Type 0 where
  pub requests : List TeamMatchRequest
  pub candidates : List CandidateRow
  pub responses : List ResponseRow

abbrev pub max_candidates_per_request : ℕ
max_candidates_per_request = 3

abbrev pub crowd_score_cap : ℕ
crowd_score_cap = 85

-- CrowdYesBoost and CrowdNoPenalty; a score that would be negative is 0, as the last test has it.
abbrev pub adjusted : ℕ → TeamMatchAnswer → ℕ
adjusted current answer_yes = current + 8
adjusted current answer_no = current - 12

unfoldable pub crowd_adjusted_score : ℕ → TeamMatchAnswer → ℕ
crowd_adjusted_score current given =
    if ltb crowd_score_cap (adjusted current given) then crowd_score_cap else adjusted current given

abbrev pub is_pending_match : TeamMatchStatus → Bool
is_pending_match match_pending = true
is_pending_match other = false

abbrev pub has_key : List ℕ → List ℕ → TeamMatchRequest → Bool
has_key source name r = same_bytes r.source source && same_bytes r.external_name name

unfoldable pub find_pending_by_external_name : List ℕ → List ℕ → Desk → Option TeamMatchRequest
find_pending_by_external_name source name desk =
    find_first (λ r. has_key source name r && is_pending_match r.status) desk.requests

-- UNIQUE (source, external_name) holds for requests of every status.
unfoldable pub create_request : TeamMatchRequest → List CandidateRow → Desk → Result Desk
create_request request rows desk =
    if any (has_key request.source request.external_name) desk.requests
    then err (error "duplicate key")
    else ok (record desk {
      requests = desk.requests ++ request ∷ [];
      candidates = desk.candidates ++ rows;
    })

abbrev pub is_candidate : ℕ → ℕ → CandidateRow → Bool
is_candidate request_id team_id c = (c.request_id == request_id) && (c.team_id == team_id)

-- ON CONFLICT DO NOTHING
unfoldable pub add_candidate : CandidateRow → Desk → Desk
add_candidate row desk =
    if any (is_candidate row.request_id row.team_id) desk.candidates
    then desk
    else record desk { candidates = desk.candidates ++ row ∷ [] }

-- FindRequest: the candidates with the highest score first.
abbrev pub candidates_for : ℕ → Desk → List CandidateRow
candidates_for request_id desk =
    stable_sort (λ a b. ltb b.points a.points)
      (keep_if (λ c. c.request_id == request_id) desk.candidates)

unfoldable pub find_request : ℕ → Desk → Option TeamMatchRequest
find_request id desk = find_first (λ r. r.id == id) desk.requests

-- RecordResponse: the answer of a person for a request replaces an earlier one.
abbrev pub put_response : ResponseRow → List ResponseRow → List ResponseRow
put_response row [] = row ∷ []
put_response row (r ∷ rs) =
    let rest = put_response row rs in
    if (r.request_id == row.request_id) && (r.user_id == row.user_id) then row ∷ rs else r ∷ rest

unfoldable pub set_points : ℕ → ℕ → ℕ → List CandidateRow → List CandidateRow
set_points request_id team_id points [] = []
set_points request_id team_id points (c ∷ cs) =
    (if is_candidate request_id team_id c
      then record c { points = points; kind = kind_crowd }
      else c)
    ∷ set_points request_id team_id points cs

abbrev pub best_of_rows : ℕ → List CandidateRow → ℕ × ℕ → ℕ × ℕ
best_of_rows request_id [] best = best
best_of_rows request_id (c ∷ cs) best =
    best_of_rows request_id cs
      (if (c.request_id == request_id) && ltb best.1 c.points then (c.team_id, c.points) else best)

abbrev pub update_request :
    ℕ → (TeamMatchRequest → TeamMatchRequest) → List TeamMatchRequest → List TeamMatchRequest
update_request id f [] = []
update_request id f (r ∷ rs) = (if r.id == id then f r else r) ∷ update_request id f rs

-- The candidate's row and the request's best candidate; the new score comes first, and another is
-- better only if it is higher.
unfoldable pub with_points : ResponseRow → Option CandidateRow → Desk → Result Desk
with_points row none desk = err (error "candidate not found on request")
with_points row (some c) desk =
    let points = crowd_adjusted_score c.points row.answer in
    let rows = set_points row.request_id row.candidate_team_id points desk.candidates in
    let best = best_of_rows row.request_id rows (row.candidate_team_id, points) in
    ok (record {
      requests =
          update_request row.request_id
            (λ r. record r { best_team_id = some best.0; best_score = best.1 }) desk.requests;
      candidates = rows;
      responses = put_response row desk.responses;
    })

unfoldable pub record_response : ResponseRow → Desk → Result Desk
record_response row desk =
    with_points row (find_first (is_candidate row.request_id row.candidate_team_id) desk.candidates)
      desk

-- answerTeamMatchAsk: an answer is about the candidate that is first at the moment it is given.
abbrev pub about_top : ℕ → ℕ → TeamMatchAnswer → List CandidateRow → Desk → Result Desk
about_top request_id user_id given [] desk = ok desk
about_top request_id user_id given (top ∷ others) desk =
    record_response
      (record {
        request_id = request_id;
        user_id = user_id;
        candidate_team_id = top.team_id;
        answer = given;
      })
      desk

abbrev pub while_pending : Option TeamMatchRequest → Result Desk → Desk → Result Desk
while_pending none reply desk = ok desk
while_pending (some r) reply desk = if is_pending_match r.status then reply else ok desk

unfoldable pub answer_ask : ℕ → ℕ → TeamMatchAnswer → Desk → Result Desk
answer_ask request_id user_id given desk =
    while_pending (find_request request_id desk)
      (about_top request_id user_id given (candidates_for request_id desk) desk) desk

-- Resolve, for an operator's decision on a request that is pending.
abbrev pub resolved : TeamMatchStatus → Option ℕ → ℕ → TeamMatchRequest → TeamMatchRequest
resolved status team_id at r = record r {
  status = status;
  best_team_id = or_else team_id r.best_team_id;
  resolved_at = some at;
}

abbrev pub decide_on : Option TeamMatchRequest → TeamMatchStatus → Option ℕ → ℕ → Desk → Result Desk
decide_on none status team_id at desk = err (error "team match request not found")
decide_on (some r) status team_id at desk =
    if is_pending_match r.status
    then ok
        (record desk { requests = update_request r.id (resolved status team_id at) desk.requests })
    else err (error "team match already resolved")

-- confirmTeamMatch and rejectTeamMatch, but for the rights of the operator and the identity saved.
abbrev pub confirm_chosen : Option TeamMatchRequest → Option CandidateRow → ℕ → Desk → Result Desk
confirm_chosen none chosen at desk = err (error "invalid team match candidate")
confirm_chosen (some r) none at desk = err (error "invalid team match candidate")
confirm_chosen (some r) (some c) at desk =
    decide_on (some r) match_confirmed (some c.team_id) at desk

unfoldable pub confirm_team_match : ℕ → ℕ → ℕ → Desk → Result Desk
confirm_team_match request_id index at desk =
    confirm_chosen (find_request request_id desk) (get_elem? (candidates_for request_id desk) index)
      at desk

unfoldable pub reject_team_match : ℕ → ℕ → Desk → Result Desk
reject_team_match request_id at desk =
    decide_on (find_request request_id desk) match_rejected none at desk
