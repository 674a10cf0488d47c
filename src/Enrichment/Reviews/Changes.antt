-- ===== src/Enrichment/Reviews/Changes.antt =====
-- What the events of internal/app/team_match.go and internal/adapter/telegram/team_match.go do to the
-- tables of team name reviews.

-- One event: a team that is looked for, an answer, or an operator's decision. A new request's id is
-- new.
use cs2_predictor.Base.{
  leb, Bool, List, ◌==◌, ok, some, arith, any, ◌<◌, ap, ℕ, true, inr, err-ne-ok, Option, ◌∷◌, none,
  ◌≤◌, inl, get_elem?, ltb, keep_if, subst, [], refl, false, ◌≡◌, ◌++◌, Bool-cases, length,
}
use cs2_predictor.Enrichment.Reviews.Requests.{
  Ensured, created, join_request, ensure_request, fuzzy_candidate, new_request, best_snapshot_match,
  review_match, add_competing_candidate,
}
use cs2_predictor.Enrichment.Reviews.{
  match_confirmed, find_request, max_candidates_per_request, CandidateRow, TeamMatchAnswer,
  create_request, update_request, crowd_adjusted_score, crowd_score_cap, candidates_for,
  TeamMatchRequest, confirm_team_match, reject_team_match, is_candidate, resolved, record_response,
  TeamMatchStatus, ResponseRow, find_pending_by_external_name, while_pending, set_points, has_key,
  is_pending_match, confirm_chosen, put_response, add_candidate, decide_on, answer_ask,
  match_rejected, about_top, with_points, Desk,
}
use cs2_predictor.Enrichment.Rosters.Slots.{count_where}
use cs2_predictor.Enrichment.Similarity.{fuzzy_request_threshold, fuzzy_auto_accept_threshold}
use cs2_predictor.Enrichment.Names.{Unicode}
use cs2_predictor.Base.Sort.{length-stable_sort}
use cs2_predictor.Prediction.Service.{team_id}

pub data Step : Desk → Desk → Type 0 where
  looks :
      (u : Unicode) (team_id : ℕ) (name : List ℕ) (id : ℕ) (source : List ℕ) (at : ℕ)
      (ranked : Bool) (snapshot : List (List ℕ)) {answer : Ensured} {d e : Desk}
      → any (λ c. c.request_id == id) d.candidates ≡ false
      → ensure_request u team_id name id source at ranked snapshot d ≡ ok (answer, e)
      → Step d e
  answers :
      (request_id user_id : ℕ) (given : TeamMatchAnswer) {d e : Desk}
      → answer_ask request_id user_id given d ≡ ok e
      → Step d e
  confirms :
      (request_id index at : ℕ) {d e : Desk}
      → confirm_team_match request_id index at d ≡ ok e
      → Step d e
  rejects : (request_id at : ℕ) {d e : Desk} → reject_team_match request_id at d ≡ ok e → Step d e

pub data Reach (start : Desk) : Desk → Type 0 where
  here : Reach start start
  next : {d e : Desk} → Reach start d → Step d e → Reach start e

abbrev pub rows_of : ℕ → List CandidateRow → ℕ
rows_of id = count_where (λ c. c.request_id == id)

-- The changes that an event may make: nothing, one more candidate where there is room, a new request
-- under a new key, a score that the crowd moves, and a decision.
pub data Change (d : Desk) : Desk → Type 0 where
  unchanged : Change d d
  candidate_listed :
      (request_id team_id points : ℕ)
      → points < fuzzy_auto_accept_threshold
      → rows_of request_id d.candidates < max_candidates_per_request
      → Change d
          (record d { candidates = d.candidates ++ fuzzy_candidate request_id team_id points ∷ [] })
  request_opened :
      (team_id id : ℕ) (source : List ℕ) (at : ℕ) (best : List ℕ × ℕ)
      → best.1 < fuzzy_auto_accept_threshold
      → any (λ c. c.request_id == id) d.candidates ≡ false
      → any (has_key source best.0) d.requests ≡ false
      → Change d (record d {
        requests = d.requests ++ new_request id source best.0 team_id best.1 at ∷ [];
        candidates = d.candidates ++ fuzzy_candidate id team_id best.1 ∷ [];
      })
  candidate_scored :
      (row : ResponseRow) (points : ℕ) (best : ℕ × ℕ)
      → points ≤ crowd_score_cap
      → Change d (record {
        requests =
            update_request row.request_id
              (λ r. record r { best_team_id = some best.0; best_score = best.1 })
              d.requests;
        candidates = set_points row.request_id row.candidate_team_id points d.candidates;
        responses = put_response row d.responses;
      })
  request_decided :
      (id : ℕ) (status : TeamMatchStatus) (team_id : Option ℕ) (at : ℕ)
      → is_pending_match status ≡ false
      → Change d (record d { requests = update_request id (resolved status team_id at) d.requests })

ok_injective : {A : Type 0} {x y : A} → ok x ≡ ok y → x ≡ y
ok_injective k = cc

crowd_adjusted_score-le :
    (points : ℕ) (given : TeamMatchAnswer) → crowd_adjusted_score points given ≤ crowd_score_cap
unfolding crowd_adjusted_score
crowd_adjusted_score-le points given = ground arith

length-keep_if :
    {A : Type 0} (p : A → Bool) (xs : List A) → length (keep_if p xs) ≡ count_where p xs
length-keep_if p [] = refl
length-keep_if p (x ∷ xs) = ground (arith, length-keep_if p xs)

with_points-Change :
    (row : ResponseRow) (found : Option CandidateRow) {d e : Desk}
    → with_points row found d ≡ ok e
    → Change d e
unfolding with_points
with_points-Change row none h = absurd (err-ne-ok _ _ h)
with_points-Change row (some c) {d} {e} h = subst (Change d) (ok_injective h) (
    candidate_scored row (crowd_adjusted_score c.points row.answer) _
      (crowd_adjusted_score-le c.points row.answer))

answer_ask-Change :
    (request_id user_id : ℕ) (given : TeamMatchAnswer) {d e : Desk}
    → answer_ask request_id user_id given d ≡ ok e
    → Change d e
unfolding answer_ask record_response
answer_ask-Change request_id user_id given {d} {e} = found (find_request request_id d)
  where
    nothing : ok d ≡ ok e → Change d e
    nothing h = subst (Change d) (ok_injective h) unchanged

    top : (cs : List CandidateRow) → about_top request_id user_id given cs d ≡ ok e → Change d e
    top [] h = nothing h
    top (c ∷ cs) h = with_points-Change _ _ h

    found :
        (r : Option TeamMatchRequest)
        → while_pending r (about_top request_id user_id given (candidates_for request_id d) d) d
          ≡ ok e
        → Change d e
    found none h = nothing h
    found (some r) h = elim (Bool-cases (is_pending_match r.status)) [
      | inl p ↦ top (candidates_for request_id d) (rw p at h)
      | inr p ↦ nothing (rw p at h)
    ]

decide_on-Change :
    (found : Option TeamMatchRequest) (status : TeamMatchStatus) (team_id : Option ℕ) (at : ℕ)
    {d e : Desk}
    → is_pending_match status ≡ false
    → decide_on found status team_id at d ≡ ok e
    → Change d e
decide_on-Change none status team_id at s h = absurd (err-ne-ok _ _ h)
decide_on-Change (some r) status team_id at {d} {e} s h =
    elim (Bool-cases (is_pending_match r.status)) [
      | inr p ↦ absurd (err-ne-ok _ _ (rw p at h))
      | inl p ↦
          subst (Change d) (ok_injective (rw p at h)) (request_decided r.id status team_id at s)
    ]

confirm_chosen-Change :
    (found : Option TeamMatchRequest) (chosen : Option CandidateRow) (at : ℕ) {d e : Desk}
    → confirm_chosen found chosen at d ≡ ok e
    → Change d e
confirm_chosen-Change none chosen at h = absurd (err-ne-ok _ _ h)
confirm_chosen-Change (some r) none at h = absurd (err-ne-ok _ _ h)
confirm_chosen-Change (some r) (some c) at h =
    decide_on-Change (some r) match_confirmed (some c.team_id) at refl h

add_competing_candidate-Change :
    (request_id team_id points : ℕ) (d : Desk)
    → points < fuzzy_auto_accept_threshold
    → Change d (add_competing_candidate request_id team_id points d)
unfolding add_competing_candidate add_candidate
add_competing_candidate-Change request_id team_id points d h =
    elim (Bool-cases (any (λ c. c.team_id == team_id) (candidates_for request_id d))) [
      | inl e ↦ rw e unchanged
      | inr e ↦
          elim (Bool-cases
            (leb max_candidates_per_request (length (candidates_for request_id d)))) [
              | inl f ↦ rw (e, f) unchanged
              | inr f ↦ elim (Bool-cases (any (is_candidate request_id team_id) d.candidates)) [
                | inl g ↦ rw (e, f, g) unchanged
                | inr g ↦ rw (e, f, g) (candidate_listed request_id team_id points h (room f))
              ]
            ]
    ]
  where
    room :
        leb max_candidates_per_request (length (candidates_for request_id d)) ≡ false
        → rows_of request_id d.candidates < max_candidates_per_request
    room f = ground (
      arith,
      length-stable_sort (λ (a b : CandidateRow). ltb b.points a.points)
          (keep_if (λ (c : CandidateRow). c.request_id == request_id) d.candidates),
      length-keep_if (λ (c : CandidateRow). c.request_id == request_id) d.candidates,
    )

create_request-Change :
    (team_id id : ℕ) (source : List ℕ) (at : ℕ) (best : List ℕ × ℕ) {d : Desk} {answer : Ensured}
    {e : Desk}
    → best.1 < fuzzy_auto_accept_threshold
    → any (λ c. c.request_id == id) d.candidates ≡ false
    → created id (
        create_request
          (new_request id source best.0 team_id best.1 at)
          (fuzzy_candidate id team_id best.1 ∷ [])
          d)
      ≡ ok (answer, e)
    → Change d e
unfolding create_request
create_request-Change team_id id source at best {d} {answer} {e} h fresh k =
    elim (Bool-cases (any (has_key source best.0) d.requests)) [
      | inl f ↦ absurd (err-ne-ok _ _ (rw f at k))
      | inr f ↦
          subst (Change d) (ap (λ t. t.1) (ok_injective (rw f at k)))
            (request_opened team_id id source at best h fresh f)
    ]

review_match-Change :
    (team_id id : ℕ) (source : List ℕ) (at : ℕ) (best : Option (List ℕ × ℕ)) {d : Desk}
    {answer : Ensured} {e : Desk}
    → any (λ c. c.request_id == id) d.candidates ≡ false
    → review_match team_id id source at best d ≡ ok (answer, e)
    → Change d e
unfolding review_match join_request
review_match-Change team_id id source at none {d} fresh h =
    subst (Change d) (ap (λ t. t.1) (ok_injective h)) unchanged
review_match-Change team_id id source at (some best) {d} {answer} {e} fresh h =
    elim (Bool-cases (ltb best.1 fuzzy_request_threshold)) [
      | inl f ↦ subst (Change d) (ap (λ t. t.1) (ok_injective (rw f at h))) unchanged
      | inr f ↦ elim (Bool-cases (leb fuzzy_auto_accept_threshold best.1)) [
        | inl g ↦ subst (Change d) (ap (λ t. t.1) (ok_injective (rw (f, g) at h))) unchanged
        | inr g ↦
            joined (ground arith) (find_pending_by_external_name source best.0 d) (rw (f, g) at h)
      ]
    ]
  where
    joined :
        best.1 < fuzzy_auto_accept_threshold
        → (existing : Option TeamMatchRequest)
        → join_request team_id id source at best existing d ≡ ok (answer, e)
        → Change d e
    joined low none k = create_request-Change team_id id source at best low fresh k
    joined low (some r) k =
        subst (Change d) (ap (λ t. t.1) (ok_injective k))
          (add_competing_candidate-Change r.id team_id best.1 d low)

pub Step-Change : {d e : Desk} → Step d e → Change d e
unfolding ensure_request confirm_team_match reject_team_match
Step-Change (looks u team_id name id source at true snapshot {answer} {d} fresh h) =
    subst (Change d) (ap (λ t. t.1) (ok_injective h)) unchanged
Step-Change (looks u team_id name id source at false snapshot fresh h) =
    review_match-Change team_id id source at (best_snapshot_match u name snapshot none) fresh h
Step-Change (answers request_id user_id given h) = answer_ask-Change request_id user_id given h
Step-Change (confirms request_id index at {d} h) =
    confirm_chosen-Change (find_request request_id d)
      (get_elem? (candidates_for request_id d) index) at h
Step-Change (rejects request_id at {d} h) =
    decide_on-Change (find_request request_id d) match_rejected none at refl h
