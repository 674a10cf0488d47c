-- ===== src/Enrichment/Reviews/Bounds.antt =====
-- The bounds that reviews keep, whoever answers and decides in whatever order.

-- No score is at the bar of automatic acceptance, and none that the crowd has moved is above its cap.
use cs2_predictor.Base.{
  ◌++◌, ◌≤◌, All, true, ◌==◌, All-map, subst, ◌∙◌, refl, if◌then◌else◌, ==_iff, List, arith, any,
  [], ◌<◌, Bool, ◌≡◌, ◌∷◌, inr, Bool-cases, inl, false, ℕ, All-append,
}
use cs2_predictor.Enrichment.Similarity.{fuzzy_auto_accept_threshold}
use cs2_predictor.Enrichment.Reviews.{
  resolved, kind_crowd, max_candidates_per_request, set_points, TeamMatchRequest, has_key,
  crowd_score_cap, Desk, is_candidate, update_request, CandidateRow,
}
use cs2_predictor.Enrichment.Reviews.Changes.{
  request_decided, unchanged, request_opened, next, here, rows_of, Change, Step-Change,
  candidate_scored, Reach, candidate_listed,
}
use cs2_predictor.Enrichment.Reviews.Requests.{new_request, fuzzy_candidate}
use cs2_predictor.Enrichment.Rosters.Slots.{count_where-append, count_where}
use cs2_predictor.Base.Splits.{same_bytes}
use cs2_predictor.Prediction.Service.{team_id}

abbrev pub IsBounded : CandidateRow → Type 0
IsBounded c =
    (c.points < fuzzy_auto_accept_threshold) × (c.kind ≡ kind_crowd → c.points ≤ crowd_score_cap)

abbrev pub KeysDiffer : List TeamMatchRequest → Type 0
KeysDiffer [] = Unit {0}
KeysDiffer (r ∷ rs) = All (λ q. has_key r.source r.external_name q ≡ false) rs × KeysDiffer rs

pub record IsOrderly (d : Desk) : Type 0 where
  pub bounded : All IsBounded d.candidates
  pub few : (id : ℕ) → rows_of id d.candidates ≤ max_candidates_per_request
  pub differ : KeysDiffer d.requests

pub same_bytes_comm : (k l : List ℕ) → same_bytes k l ≡ same_bytes l k
same_bytes_comm [] [] = refl
same_bytes_comm [] (d ∷ l) = refl
same_bytes_comm (c ∷ k) [] = refl
same_bytes_comm (c ∷ k) (d ∷ l) = ground (arith, same_bytes_comm k l)

any-All : {A : Type 0} (p : A → Bool) (xs : List A) → any p xs ≡ false → All (λ x. p x ≡ false) xs
any-All p [] h = tt
any-All p (x ∷ xs) h = (ground arith, any-All p xs (ground arith))

count_where-none :
    {A : Type 0} (p : A → Bool) (xs : List A) → any p xs ≡ false → count_where p xs ≡ 0
count_where-none p [] h = refl
count_where-none p (x ∷ xs) h = ground (arith, count_where-none p xs)

KeysDiffer-append :
    (rs : List TeamMatchRequest) (new : TeamMatchRequest)
    → All (λ q. has_key new.source new.external_name q ≡ false) rs
    → KeysDiffer rs
    → KeysDiffer (rs ++ new ∷ [])
KeysDiffer-append [] new h k = (tt, tt)
KeysDiffer-append (r ∷ rs) new h k = (
  All-append (λ q. has_key r.source r.external_name q ≡ false) rs (new ∷ []) k.0 (turned, tt),
  KeysDiffer-append rs new h.1 k.1,
)
  where
    turned : has_key r.source r.external_name new ≡ false
    turned =
        rw (same_bytes_comm new.source r.source, same_bytes_comm new.external_name r.external_name)
          h.0

-- A request that is rewritten keeps its key.
abbrev pub KeepsKey : (TeamMatchRequest → TeamMatchRequest) → Type 0
KeepsKey f =
    (source name : List ℕ) (r : TeamMatchRequest)
    → (has_key source name (f r) ≡ has_key source name r)
      × ((q : TeamMatchRequest)
          → has_key (f r).source (f r).external_name q ≡ has_key r.source r.external_name q)

pub has_key-update_request :
    (id : ℕ) (f : TeamMatchRequest → TeamMatchRequest) (source name : List ℕ)
    (rs : List TeamMatchRequest)
    → KeepsKey f
    → All (λ q. has_key source name q ≡ false) rs
    → All (λ q. has_key source name q ≡ false) (update_request id f rs)
has_key-update_request id f source name [] keeps h = tt
has_key-update_request id f source name (r ∷ rs) keeps h =
    (go (r.id == id), has_key-update_request id f source name rs keeps h.1)
  where
    go : (b : Bool) → has_key source name (if b then f r else r) ≡ false
    go true = (keeps source name r).0 ∙ h.0
    go false = h.0

KeysDiffer-update_request :
    (id : ℕ) (f : TeamMatchRequest → TeamMatchRequest) (rs : List TeamMatchRequest)
    → KeepsKey f
    → KeysDiffer rs
    → KeysDiffer (update_request id f rs)
KeysDiffer-update_request id f [] keeps h = tt
KeysDiffer-update_request id f (r ∷ rs) keeps h =
    (go (r.id == id), KeysDiffer-update_request id f rs keeps h.1)
  where
    rest : All (λ q. has_key r.source r.external_name q ≡ false) (update_request id f rs)
    rest = has_key-update_request id f r.source r.external_name rs keeps h.0

    go :
        (b : Bool)
        → All
            (λ q.
              has_key (if b then f r else r).source (if b then f r else r).external_name q ≡ false)
            (update_request id f rs)
    go true =
        All-map (λ q. has_key r.source r.external_name q ≡ false)
          (λ q. has_key (f r).source (f r).external_name q ≡ false)
          (λ q e. (keeps r.source r.external_name r).1 q ∙ e) (update_request id f rs) rest
    go false = rest

IsBounded-set_points :
    (request_id team_id points : ℕ) (cs : List CandidateRow)
    → points ≤ crowd_score_cap
    → All IsBounded cs
    → All IsBounded (set_points request_id team_id points cs)
unfolding set_points
IsBounded-set_points request_id team_id points [] h k = tt
IsBounded-set_points request_id team_id points (c ∷ cs) h k = (
  go (is_candidate request_id team_id c),
  IsBounded-set_points request_id team_id points cs h k.1,
)
  where
    go : (b : Bool) → IsBounded (if b then record c { points = points; kind = kind_crowd } else c)
    go true = (omega arith, λ e. h)
    go false = k.0

rows_of-set_points :
    (id request_id team_id points : ℕ) (cs : List CandidateRow)
    → rows_of id (set_points request_id team_id points cs) ≡ rows_of id cs
unfolding set_points
rows_of-set_points id request_id team_id points [] = refl
rows_of-set_points id request_id team_id points (c ∷ cs) = omega (
  arith,
  rows_of-set_points id request_id team_id points cs,
  go (is_candidate request_id team_id c),
)
  where
    go :
        (b : Bool)
        → rows_of id ((if b then record c { points = points; kind = kind_crowd } else c) ∷ [])
          ≡ rows_of id (c ∷ [])
    go true = refl
    go false = refl

-- One more row for a request that has room.
few-append :
    (cs : List CandidateRow) (row : CandidateRow) (id : ℕ)
    → rows_of row.request_id cs < max_candidates_per_request
    → rows_of id cs ≤ max_candidates_per_request
    → rows_of id (cs ++ row ∷ []) ≤ max_candidates_per_request
few-append cs row id h k =
    let sum = count_where-append (λ (c : CandidateRow). c.request_id == id) cs (row ∷ []) in
    elim (Bool-cases (row.request_id == id)) [
      | inl e ↦
          let same = (==_iff row.request_id id).0 e in
          let room = subst (λ n. rows_of n cs < max_candidates_per_request) same h in
          ground (arith, sum, room)
      | inr e ↦ ground (arith, sum)
    ]

IsBounded-append :
    (cs : List CandidateRow) (request_id team_id points : ℕ)
    → points < fuzzy_auto_accept_threshold
    → All IsBounded cs
    → All IsBounded (cs ++ fuzzy_candidate request_id team_id points ∷ [])
IsBounded-append cs request_id team_id points h k =
    All-append IsBounded cs (fuzzy_candidate request_id team_id points ∷ []) k ((h, λ e. cc), tt)

Change-IsOrderly : {d e : Desk} → Change d e → IsOrderly d → IsOrderly e
Change-IsOrderly unchanged s = s
Change-IsOrderly {d} (candidate_listed request_id team_id points h room) s = record {
  bounded = IsBounded-append d.candidates request_id team_id points h s.bounded;
  few =
      λ id. few-append d.candidates (fuzzy_candidate request_id team_id points) id room (s.few id);
  differ = s.differ;
}
Change-IsOrderly {d} (request_opened team_id id source at best h fresh f) s = record {
  bounded = IsBounded-append d.candidates id team_id best.1 h s.bounded;
  few = λ n.
      few-append d.candidates (fuzzy_candidate id team_id best.1) n
        (omega
          (arith, count_where-none (λ (c : CandidateRow). c.request_id == id) d.candidates fresh))
        (s.few n);
  differ =
      KeysDiffer-append d.requests (new_request id source best.0 team_id best.1 at)
        (any-All (has_key source best.0) d.requests f) s.differ;
}
Change-IsOrderly {d} (candidate_scored row points best h) s = record {
  bounded =
      IsBounded-set_points row.request_id row.candidate_team_id points d.candidates h s.bounded;
  few = λ id. omega (
    arith,
    s.few id,
    rows_of-set_points id row.request_id row.candidate_team_id points d.candidates,
  );
  differ =
      KeysDiffer-update_request row.request_id _ d.requests (λ source name r. (refl, λ q. refl))
        s.differ;
}
Change-IsOrderly {d} (request_decided id status team_id at p) s = record {
  bounded = s.bounded;
  few = s.few;
  differ =
      KeysDiffer-update_request id (resolved status team_id at) d.requests
        (λ source name q. (refl, λ other. refl)) s.differ;
}

-- From tables for which it holds, if a new request has an id that no candidate's row carries, then
-- whatever teams are looked for, whoever answers, however often, and whatever operators decide, in
-- whatever order: the score of every candidate stays below the bar of automatic acceptance, and one
-- that the crowd has moved is at its cap or below, a request has three candidates at most, and no
-- two requests are for one name of one feed.
pub Reach-IsOrderly : {d e : Desk} → IsOrderly d → Reach d e → IsOrderly e
Reach-IsOrderly s here = s
Reach-IsOrderly s (next r step) = Change-IsOrderly (Step-Change step) (Reach-IsOrderly s r)
