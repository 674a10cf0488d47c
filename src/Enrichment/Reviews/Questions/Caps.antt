-- ===== src/Enrichment/Reviews/Questions/Caps.antt =====
-- Nobody is asked too often, and no request is asked about too often.
use mathlib.Core.Option.{none-ne-some}
use cs2_predictor.Outbox.Dispatch.{Fate}
use cs2_predictor.Base.{
  Bool-cases, ℕ, Bool, Distinct, inl, some, ◌+◌, if◌then◌else◌, refl, arith, ◌∷◌, ◌≤◌, ◌≡◌, ◌==◌,
  find_first, [], ◌++◌, List, inr, false, ap, ◌*◌,
}
use cs2_predictor.Enrichment.Rosters.Slots.{count_where}
use cs2_predictor.Enrichment.Reviews.{Desk, update_request, TeamMatchRequest}
use cs2_predictor.Enrichment.Reviews.Changes.{Step}
use cs2_predictor.Enrichment.Reviews.Questions.{
  Crowd, record_ask, ask_chat_helpers, Question, set_opted_out, asked_of,
  max_crowd_asks_per_request, max_lifetime_asks_per_user, HelperRow,
}

abbrev pub questions_to : ℕ → List Question → ℕ
questions_to user = count_where (λ q. q.user_id == user)

abbrev pub questions_about : ℕ → List Question → ℕ
questions_about id = count_where (λ q. q.request_id == id)

-- The questions that the request with the id counts.
abbrev pub sent_of : ℕ → List TeamMatchRequest → ℕ
sent_of id [] = 0
sent_of id (r ∷ rs) = let rest = sent_of id rs in if r.id == id then r.crowd_asks_sent else rest

-- An event: of the reviews, a round of questions in a chat, or a person who opts out or in.
pub data CrowdStep : Crowd → Crowd → Type 0 where
  reviews : {c : Crowd} {d : Desk} → Step c.desk d → CrowdStep c (record c { desk = d })
  asks :
      (fates : ℕ → Fate) (request_id : ℕ) (reachable : List ℕ) {c : Crowd}
      → Distinct reachable
      → CrowdStep c (ask_chat_helpers fates request_id reachable c)
  opts :
      (user : ℕ) (out : Bool) {c : Crowd}
      → CrowdStep c (record c { helpers = set_opted_out user out c.helpers })

pub data CrowdReach (start : Crowd) : Crowd → Type 0 where
  begins : CrowdReach start start
  goes_on : {c d : Crowd} → CrowdReach start c → CrowdStep c d → CrowdReach start d

-- A statement that fails leaves two questions at most uncounted for a request, and one for a person.
pub record IsSparing (c : Crowd) : Type 0 where
  pub people :
      (user : ℕ)
      → (questions_to user c.questions ≤ asked_of user c.helpers + c.failures)
        × (asked_of user c.helpers ≤ max_lifetime_asks_per_user)
  pub subjects :
      (id : ℕ)
      → (questions_about id c.questions ≤ sent_of id c.desk.requests + 2 * c.failures)
        × (sent_of id c.desk.requests ≤ max_crowd_asks_per_request)

pub asked_of-record_ask :
    (user other : ℕ) (hs : List HelperRow)
    → asked_of other (record_ask user hs) ≡ asked_of other hs + (if user == other then 1 else 0)
unfolding record_ask
asked_of-record_ask user other [] = ground arith
asked_of-record_ask user other (h ∷ hs) = ground (arith, asked_of-record_ask user other hs)

pub asked_of-set_opted_out :
    (user other : ℕ) (out : Bool) (hs : List HelperRow)
    → asked_of other (set_opted_out user out hs) ≡ asked_of other hs
unfolding set_opted_out
asked_of-set_opted_out user other out [] = ground arith
asked_of-set_opted_out user other out (h ∷ hs) =
    ground (arith, asked_of-set_opted_out user other out hs)

pub sent_of-append :
    (id : ℕ) (rs : List TeamMatchRequest) (new : TeamMatchRequest)
    → new.crowd_asks_sent ≡ 0
    → sent_of id (rs ++ new ∷ []) ≡ sent_of id rs
sent_of-append id [] new h = ground arith
sent_of-append id (r ∷ rs) new h = ground (arith, sent_of-append id rs new h)

pub sent_of-update_request :
    (id key : ℕ) (f : TeamMatchRequest → TeamMatchRequest) (rs : List TeamMatchRequest)
    → ((r : TeamMatchRequest) → ((f r).id ≡ r.id) × ((f r).crowd_asks_sent ≡ r.crowd_asks_sent))
    → sent_of id (update_request key f rs) ≡ sent_of id rs
sent_of-update_request id key f [] same = refl
sent_of-update_request id key f (r ∷ rs) same = elim (Bool-cases (r.id == key)) [
  | inl e ↦ rw (e, (same r).0, (same r).1, sent_of-update_request id key f rs same) refl
  | inr e ↦ rw (e, sent_of-update_request id key f rs same) refl
]

pub sent_of-other :
    (id key n : ℕ) (rs : List TeamMatchRequest)
    → (key == id) ≡ false
    → sent_of id (update_request key (λ q. record q { crowd_asks_sent = q.crowd_asks_sent + n }) rs)
      ≡ sent_of id rs
sent_of-other id key n [] h = refl
sent_of-other id key n (q ∷ rs) h = elim (Bool-cases (q.id == key)) [
  | inl e ↦
      let other : (q.id == id) ≡ false = ground (arith) in
      rw (e, other) (sent_of-other id key n rs h)
  | inr e ↦ rw (e, sent_of-other id key n rs h) refl
]

pub sent_of-increment :
    (key n : ℕ) (rs : List TeamMatchRequest) (r : TeamMatchRequest)
    → find_first (λ q. q.id == key) rs ≡ some r
    → (sent_of key rs ≡ r.crowd_asks_sent)
      × (sent_of key
            (update_request key (λ q. record q { crowd_asks_sent = q.crowd_asks_sent + n }) rs)
          ≡ r.crowd_asks_sent + n)
sent_of-increment key n [] r h = absurd (none-ne-some r h)
sent_of-increment key n (q ∷ rs) r h = elim (Bool-cases (q.id == key)) [
  | inl e ↦
      let same : q ≡ r = cc (rw e at h) in
      rw (e, e) (ap (λ t. t.crowd_asks_sent) same, ap (λ t. t.crowd_asks_sent + n) same)
  | inr e ↦ rw (e, e) (sent_of-increment key n rs r (rw e at h))
]
