-- ===== src/Enrichment/Reviews/Closed.antt =====
-- A name stays rejected, whatever happens later. About ensureRequest of internal/app/team_match.go.
use mathlib.Core.Option.{some-ne-none}
use cs2_predictor.Enrichment.Reviews.Changes.{
  request_decided, Reach, next, unchanged, here, Step-Change, candidate_listed, candidate_scored,
  Change, request_opened,
}
use cs2_predictor.Enrichment.Reviews.{
  update_request, find_request, is_pending_match, TeamMatchRequest, has_key, Desk, resolved,
  reject_team_match,
}
use cs2_predictor.Enrichment.Reviews.Requests.{ensure_request, new_request, best_snapshot_match}
use cs2_predictor.Base.{
  false, Bool, arith, error, ok, ◌++◌, ℕ, if◌then◌else◌, find_first, true, none, some, ◌&&◌, ◌≡◌,
  ◌<◌, Bool-cases, err, ◌==◌, ◌≤◌, [], ◌∙◌, inr, List, ◌∷◌, refl, any, inl,
}
use cs2_predictor.Base.Splits.{same_bytes-eq}
use cs2_predictor.Enrichment.Reviews.Bounds.{KeysDiffer, KeepsKey}
use cs2_predictor.Enrichment.Reviews.Rejected.{
  review_match-IsTaken, IsTaken, reject_team_match-IsTaken,
}
use cs2_predictor.Enrichment.Similarity.{fuzzy_auto_accept_threshold, fuzzy_request_threshold}
use cs2_predictor.Enrichment.Names.{Unicode}
use cs2_predictor.Prediction.Service.{team_id}

none-cons :
    {A : Type 0} (t : A → Bool) (x : A) (xs : List A)
    → find_first t (x ∷ xs) ≡ none
    → (t x ≡ false) × (find_first t xs ≡ none)
none-cons t x xs h = elim (Bool-cases (t x)) [
  | inl e ↦ absurd (some-ne-none x (rw e at h))
  | inr e ↦ (e, rw e at h)
]

none-append :
    {A : Type 0} (t : A → Bool) (xs : List A) (new : A)
    → find_first t xs ≡ none
    → t new ≡ false
    → find_first t (xs ++ new ∷ []) ≡ none
none-append t [] new h e = rw e refl
none-append t (x ∷ xs) new h e =
    let parts = none-cons t x xs h in rw (parts.0) (none-append t xs new parts.1 e)

any-append :
    {A : Type 0} (p : A → Bool) (xs ys : List A) → any p xs ≡ true → any p (xs ++ ys) ≡ true
any-append p [] ys h = cc
any-append p (x ∷ xs) ys h = ground (arith, any-append p xs ys)

-- What is not pending stays so.
abbrev Settles : (TeamMatchRequest → TeamMatchRequest) → Type 0
Settles f =
    (r : TeamMatchRequest)
    → is_pending_match r.status ≡ false
    → is_pending_match (f r).status ≡ false

IsTaken-update_request :
    (id : ℕ) (f : TeamMatchRequest → TeamMatchRequest) (source name : List ℕ)
    (rs : List TeamMatchRequest)
    → KeepsKey f
    → Settles f
    → IsTaken source name rs
    → IsTaken source name (update_request id f rs)
IsTaken-update_request id f source name rs keeps settles taken =
    (free rs taken.0, same_keys rs ∙ taken.1)
  where
    waits : TeamMatchRequest → Bool
    waits q = has_key source name q && is_pending_match q.status

    rewritten :
        (r : TeamMatchRequest) (b : Bool) → waits r ≡ false → waits (if b then f r else r) ≡ false
    rewritten r false h = h
    rewritten r true h = elim (Bool-cases (has_key source name r)) [
      | inl e ↦ rw ((keeps source name r).0, e) (settles r (rw e at h))
      | inr e ↦ rw ((keeps source name r).0, e) refl
    ]

    free :
        (qs : List TeamMatchRequest)
        → find_first waits qs ≡ none
        → find_first waits (update_request id f qs) ≡ none
    free [] h = h
    free (q ∷ qs) h =
        let parts = none-cons waits q qs h in
        rw (rewritten q (q.id == id) parts.0) (free qs parts.1)

    same_key :
        (r : TeamMatchRequest) (b : Bool)
        → has_key source name (if b then f r else r) ≡ has_key source name r
    same_key r true = (keeps source name r).0
    same_key r false = refl

    same_keys :
        (qs : List TeamMatchRequest)
        → any (has_key source name) (update_request id f qs) ≡ any (has_key source name) qs
    same_keys [] = refl
    same_keys (q ∷ qs) = rw (same_key q (q.id == id), same_keys qs) refl

IsTaken-append :
    (source name : List ℕ) (rs : List TeamMatchRequest) (new : TeamMatchRequest)
    → any (has_key new.source new.external_name) rs ≡ false
    → IsTaken source name rs
    → IsTaken source name (rs ++ new ∷ [])
IsTaken-append source name rs new fresh taken = (
  none-append (λ q. has_key source name q && is_pending_match q.status) rs new taken.0
      (rw other_key refl),
  any-append (has_key source name) rs (new ∷ []) taken.1,
)
  where
    other_key : has_key source name new ≡ false
    other_key = elim (Bool-cases (has_key source name new)) [
      | inr e ↦ e
      | inl e ↦
          let same_source = same_bytes-eq new.source source (ground arith) in
          let same_name = same_bytes-eq new.external_name name (ground arith) in
          cc (taken.1, rw (same_source, same_name) at fresh)
    ]

Change-IsTaken :
    (source name : List ℕ) {d e : Desk}
    → Change d e
    → IsTaken source name d.requests
    → IsTaken source name e.requests
Change-IsTaken source name unchanged taken = taken
Change-IsTaken source name (candidate_listed request_id team_id points h room) taken = taken
Change-IsTaken source name {d} (request_opened team_id id from at best h fresh f) taken =
    IsTaken-append source name d.requests (new_request id from best.0 team_id best.1 at) f taken
Change-IsTaken source name {d} (candidate_scored row points best h) taken =
    IsTaken-update_request row.request_id _ source name d.requests (λ s n r. (refl, λ q. refl))
      (λ r h. h) taken
Change-IsTaken source name {d} (request_decided id status team_id at p) taken =
    IsTaken-update_request id (resolved status team_id at) source name d.requests
      (λ s n r. (refl, λ q. refl)) (λ r h. p) taken

Reach-IsTaken :
    (source name : List ℕ) {d e : Desk}
    → IsTaken source name d.requests
    → Reach d e
    → IsTaken source name e.requests
Reach-IsTaken source name taken here = taken
Reach-IsTaken source name taken (next r step) =
    Change-IsTaken source name (Step-Change step) (Reach-IsTaken source name taken r)

-- A name that operators have rejected is not reviewed again: where requests have different keys, a
-- request is found under an id, and rejecting it succeeds, then after whatever events follow, looking
-- for a team whose best match in the rankings has the request's name, with a score that asks for a
-- review, opens and joins no request for that source, and fails on the unique key.
pub ensure_request-rejected :
    (u : Unicode) (id at : ℕ) (d : Desk) {e now : Desk} (r : TeamMatchRequest)
    (team_id new_id asked_at points : ℕ) (name : List ℕ) (snapshot : List (List ℕ))
    → KeysDiffer d.requests
    → find_request id d ≡ some r
    → reject_team_match id at d ≡ ok e
    → Reach e now
    → best_snapshot_match u name snapshot none ≡ some (r.external_name, points)
    → fuzzy_request_threshold ≤ points
    → points < fuzzy_auto_accept_threshold
    → ensure_request u team_id name new_id r.source asked_at false snapshot now
      ≡ err (error "duplicate key")
unfolding ensure_request
ensure_request-rejected u id at d {e} {now} r team_id new_id asked_at points name snapshot differ
      found rejected events best low high =
    rw best (
      review_match-IsTaken team_id new_id asked_at points r.source r.external_name now low high (
        Reach-IsTaken r.source r.external_name
          (reject_team_match-IsTaken id at d e r differ found rejected) events))
