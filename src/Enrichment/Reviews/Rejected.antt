-- ===== src/Enrichment/Reviews/Rejected.antt =====
-- A name that operators have rejected. About rejectTeamMatch of internal/adapter/telegram/team_match.go,
-- ensureRequest of internal/app/team_match.go and the unique constraint of team_match_request.
use mathlib.Core.Option.{none-ne-some}
use cs2_predictor.Enrichment.Reviews.Bounds.{
  same_bytes_comm, has_key-update_request, KeepsKey, KeysDiffer,
}
use cs2_predictor.Base.{
  refl, true, [], if◌then◌else◌, ◌≡◌, All, ◌&&◌, none, find_first, false, List, ◌==◌, ℕ, ◌∷◌, Bool,
  subst, any, some, err, ok, ◌<◌, ◌≤◌, error, Option, sym, err-ne-ok, ap, ltb, arith, ==_iff, leb,
}
use cs2_predictor.Enrichment.Reviews.{
  TeamMatchRequest, has_key, resolved, is_pending_match, update_request, match_rejected,
  find_request, create_request, find_pending_by_external_name, Desk, reject_team_match, decide_on,
}
use cs2_predictor.Base.Splits.{same_bytes_refl}
use cs2_predictor.Enrichment.Similarity.{fuzzy_request_threshold, fuzzy_auto_accept_threshold}
use cs2_predictor.Enrichment.Reviews.Requests.{review_match, join_request}
use cs2_predictor.Prediction.Service.{team_id}
-- A key whose request is taken, and not pending.
use cs2_predictor.Base.{
  none, ◌≡◌, refl, All, any, ◌==◌, if◌then◌else◌, ◌&&◌, Bool, subst, ℕ, some, ◌∷◌, true, find_first,
  false, [], List,
}
use cs2_predictor.Enrichment.Reviews.{
  is_pending_match, resolved, update_request, has_key, TeamMatchRequest, match_rejected,
}
use cs2_predictor.Base.Splits.{same_bytes_refl}
use cs2_predictor.Enrichment.Reviews.Bounds.{KeysDiffer}

abbrev pub IsTaken : List ℕ → List ℕ → List TeamMatchRequest → Type 0
IsTaken source name rs =
    (find_first (λ q. has_key source name q && is_pending_match q.status) rs ≡ none)
    × (any (has_key source name) rs ≡ true)

some-eq : {A : Type 0} {x y : A} → some x ≡ some y → x ≡ y
some-eq h = cc

ok-eq : {A : Type 0} {x y : A} → ok x ≡ ok y → x ≡ y
ok-eq h = cc

find_first-All :
    {A : Type 0} (P : A → Type 0) (t : A → Bool) (xs : List A) (x : A)
    → All P xs
    → find_first t xs ≡ some x
    → P x
find_first-All P t [] x h e = absurd (none-ne-some x e)
find_first-All P t (y ∷ ys) x h e = go (t y) (find_first-All P t ys x h.1) e
  where
    go :
        (b : Bool)
        → (find_first t ys ≡ some x → P x)
        → (if b then some y else find_first t ys) ≡ some x
        → P x
    go true more k = subst P (some-eq k) h.0
    go false more k = more k

none_pending :
    (source name : List ℕ) (rs : List TeamMatchRequest)
    → All (λ q. has_key source name q ≡ false) rs
    → find_first (λ q. has_key source name q && is_pending_match q.status) rs ≡ none
none_pending source name [] h = refl
none_pending source name (q ∷ rs) h = rw (h.0) (none_pending source name rs h.1)

has_key_refl : (r : TeamMatchRequest) → has_key r.source r.external_name r ≡ true
has_key_refl r = rw (same_bytes_refl r.source, same_bytes_refl r.external_name) refl

has_key_comm :
    (q r : TeamMatchRequest)
    → has_key q.source q.external_name r ≡ false
    → has_key r.source r.external_name q ≡ false
has_key_comm q r h =
    rw (same_bytes_comm q.source r.source, same_bytes_comm q.external_name r.external_name) h

rejected-IsTaken :
    (id at : ℕ) (rs : List TeamMatchRequest) (r : TeamMatchRequest)
    → KeysDiffer rs
    → find_first (λ q. q.id == id) rs ≡ some r
    → IsTaken r.source r.external_name (update_request id (resolved match_rejected none at) rs)
rejected-IsTaken id at [] r differ h = absurd (none-ne-some r h)
rejected-IsTaken id at (q ∷ rs) r differ h =
    go (q.id == id) (rejected-IsTaken id at rs r differ.1) h
  where
    f : TeamMatchRequest → TeamMatchRequest
    f = resolved match_rejected none at

    keeps : KeepsKey f
    keeps source name p = (refl, λ other. refl)

    go :
        (b : Bool)
        → (find_first (λ p. p.id == id) rs ≡ some r
            → IsTaken r.source r.external_name (update_request id f rs))
        → (if b then some q else find_first (λ p. p.id == id) rs) ≡ some r
        → IsTaken r.source r.external_name ((if b then f q else q) ∷ update_request id f rs)
    go true more k =
        subst (λ s. IsTaken s.source s.external_name (f q ∷ update_request id f rs)) (some-eq k)
          (
            rw (has_key_refl q) (
                none_pending q.source q.external_name (update_request id f rs)
                  (has_key-update_request id f q.source q.external_name rs keeps differ.0)),
            rw (has_key_refl q) refl,
          )
    go false more k = rw (other_key k) (more k)
      where
        other_key :
            find_first (λ p. p.id == id) rs ≡ some r → has_key r.source r.external_name q ≡ false
        other_key e = has_key_comm q r (
            find_first-All (λ p. has_key q.source q.external_name p ≡ false) (λ p. p.id == id) rs r
              differ.0 e)

find_first-sat :
    {A : Type 0} (t : A → Bool) (xs : List A) (x : A) → find_first t xs ≡ some x → t x ≡ true
find_first-sat t [] x e = absurd (none-ne-some x e)
find_first-sat t (y ∷ ys) x e = go (t y) refl (find_first-sat t ys x) e
  where
    go :
        (b : Bool)
        → t y ≡ b
        → (find_first t ys ≡ some x → t x ≡ true)
        → (if b then some y else find_first t ys) ≡ some x
        → t x ≡ true
    go true h more k = subst (λ z. t z ≡ true) (some-eq k) h
    go false h more k = more k

-- A decision that succeeds rewrites the requests with the id.
decided :
    (at : ℕ) (d e : Desk) (r : TeamMatchRequest) (o : Option TeamMatchRequest)
    → o ≡ some r
    → decide_on o match_rejected none at d ≡ ok e
    → update_request r.id (resolved match_rejected none at) d.requests ≡ e.requests
decided at d e r none found h = absurd (none-ne-some r found)
decided at d e r (some q) found h =
    subst (λ s. update_request s.id (resolved match_rejected none at) d.requests ≡ e.requests)
      (some-eq found) (go (is_pending_match q.status) h)
  where
    go :
        (b : Bool)
        → (if b
            then ok (record d {
              requests = update_request q.id (resolved match_rejected none at) d.requests;
            })
            else err (error "team match already resolved"))
          ≡ ok e
        → update_request q.id (resolved match_rejected none at) d.requests ≡ e.requests
    go true k = ap (λ x. x.requests) (ok-eq k)
    go false k = absurd (err-ne-ok _ e k)

-- The desk after a rejection.
pub reject_team_match-IsTaken :
    (id at : ℕ) (d e : Desk) (r : TeamMatchRequest)
    → KeysDiffer d.requests
    → find_request id d ≡ some r
    → reject_team_match id at d ≡ ok e
    → IsTaken r.source r.external_name e.requests
unfolding find_request reject_team_match
reject_team_match-IsTaken id at d e r differ found h =
    subst (IsTaken r.source r.external_name) (decided at d e r (find_request id d) found h) (
      subst
        (λ n.
          IsTaken r.source r.external_name
            (update_request n (resolved match_rejected none at) d.requests))
        (sym ((==_iff r.id id).0 (find_first-sat (λ q. q.id == id) d.requests r found)))
        (rejected-IsTaken id at d.requests r differ found))

pub review_match-IsTaken :
    (team_id id at points : ℕ) (source name : List ℕ) (d : Desk)
    → fuzzy_request_threshold ≤ points
    → points < fuzzy_auto_accept_threshold
    → IsTaken source name d.requests
    → review_match team_id id source at (some (name, points)) d ≡ err (error "duplicate key")
unfolding review_match join_request find_pending_by_external_name create_request
review_match-IsTaken team_id id at points source name d low high taken =
    rw (is_low, is_high, taken.0, taken.1) refl
  where
    is_low : ltb points fuzzy_request_threshold ≡ false
    is_low = ground arith

    is_high : leb fuzzy_auto_accept_threshold points ≡ false
    is_high = ground arith
