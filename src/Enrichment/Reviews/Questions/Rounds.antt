-- ===== src/Enrichment/Reviews/Questions/Rounds.antt =====
-- What a round of questions in a chat, and every other event, leaves of the caps.
use cs2_predictor.Enrichment.Reviews.Questions.Caps.{
  sent_of-update_request, asked_of-set_opted_out, goes_on, CrowdReach, opts, reviews, CrowdStep,
  sent_of-append, asks, sent_of, IsSparing, begins, sent_of-other, sent_of-increment,
  questions_about,
}
use cs2_predictor.Enrichment.Reviews.Questions.Asking.{IsAsked, ask_each-IsAsked, reported}
use cs2_predictor.Base.{
  refl, inl, none, ◌≡◌, contains, ◌||◌, [], some, find_first, keep_if, not, Bool, false, ◌∷◌, ◌&&◌,
  Bool-cases, ℕ, arith, ltb, Option, All, Distinct, inr, ◌==◌, ◌<◌, List, ◌+◌, ==_refl, subst,
  ==_iff, ◌≤◌, ◌*◌,
}
use cs2_predictor.Enrichment.Reviews.{
  Desk, CandidateRow, resolved, is_pending_match, candidates_for, TeamMatchRequest, find_request,
  update_request,
}
use cs2_predictor.Enrichment.Reviews.Changes.{
  request_decided, Step-Change, Change, candidate_listed, unchanged, request_opened,
  candidate_scored,
}
use cs2_predictor.Enrichment.Reviews.Questions.{
  HelperRow, count_asked, Crowd, has_opted_out, remaining_asks, eligible_helpers,
  max_lifetime_asks_per_user, increment_crowd_asks_sent, ask_chat_helpers, asked_of, ask_about,
  max_crowd_asks_per_request, team_match_ask_batch_size, after_query, fails, succeeds, counted_as,
}
use cs2_predictor.Enrichment.Reviews.Requests.{new_request}
use cs2_predictor.Prediction.Service.{team_id}
use cs2_predictor.Outbox.Dispatch.{Fate}

eligible_helpers-few :
    (helpers : List HelperRow) (users : List ℕ)
    → All
        (λ user. asked_of user helpers < max_lifetime_asks_per_user)
        (eligible_helpers helpers users)
unfolding eligible_helpers
eligible_helpers-few helpers [] = tt
eligible_helpers-few helpers (user ∷ users) =
    elim (Bool-cases (
      not (has_opted_out user helpers) && ltb (asked_of user helpers) max_lifetime_asks_per_user)) [
        | inl e ↦ rw e (ground arith, eligible_helpers-few helpers users)
        | inr e ↦ rw e (eligible_helpers-few helpers users)
      ]

contains-keep_if :
    (p : ℕ → Bool) (xs : List ℕ) (a : ℕ) → contains xs a ≡ false → contains (keep_if p xs) a ≡ false
contains-keep_if p [] a h = refl
contains-keep_if p (x ∷ xs) a h = ground (arith, contains-keep_if p xs a)

Distinct-keep_if : (p : ℕ → Bool) (xs : List ℕ) → Distinct xs → Distinct (keep_if p xs)
Distinct-keep_if p [] d = tt
Distinct-keep_if p (x ∷ xs) d = elim (Bool-cases (p x)) [
  | inl e ↦ rw e (contains-keep_if p xs x d.0, Distinct-keep_if p xs d.1)
  | inr e ↦ rw e (Distinct-keep_if p xs d.1)
]

succeeds-IsSparing : {c : Crowd} → IsSparing c → IsSparing (succeeds c)
succeeds-IsSparing s = record { people = s.people; subjects = s.subjects }

fails-IsSparing : {c : Crowd} → IsSparing c → IsSparing (fails c)
fails-IsSparing s = record {
  people = λ user. (omega (arith, (s.people user).0), (s.people user).1);
  subjects = λ id. (omega (arith, (s.subjects id).0), (s.subjects id).1);
}

module _ (request_id : ℕ) (r : TeamMatchRequest) (c : Crowd) (s : IsSparing c)
    (found : find_first (λ q. q.id == request_id) c.desk.requests ≡ some r) where
  -- The count of a request and the questions about it.
  abbrev Capped : ℕ → List TeamMatchRequest → Crowd → Type 0
  Capped id requests e =
      (questions_about id e.questions ≤ sent_of id requests + 2 * e.failures)
      × (sent_of id requests ≤ max_crowd_asks_per_request)

  module _ (n : ℕ) (e : Crowd) (k : IsAsked request_id (remaining_asks r) 0 c (some n, e)) where
    after : List TeamMatchRequest
    after =
        update_request request_id (λ q. record q { crowd_asks_sent = q.crowd_asks_sent + n })
          c.desk.requests

    -- Without the count, a failure makes up for the two questions that a round may ask.
    uncounted : (id : ℕ) → Capped id c.desk.requests (fails e)
    uncounted id =
        let before = s.subjects id in
        let sent = k.sent id in
        let room = k.capped in (ground (arith, before.0, sent, room), before.1)

    own : Capped request_id after e
    unfolding after
    own =
        let before = s.subjects request_id in
        let counted = sent_of-increment request_id n c.desk.requests r found in
        let sent = rw (==_refl request_id) at (k.sent request_id) in
        let room = k.capped in
        (
          omega (arith, before.0, sent, counted.0, counted.1),
          ground (arith, before.1, counted.0, counted.1, room),
        )

    counted : (id : ℕ) → Capped id after e
    unfolding after
    counted id = elim (Bool-cases (request_id == id)) [
      | inl f ↦ subst (λ x. Capped x after e) ((==_iff request_id id).0 f) own
      | inr f ↦
          let before = s.subjects id in
          let sent = rw f at (k.sent id) in
          rw (sent_of-other id request_id n c.desk.requests f)
            (omega (arith, before.0, sent), before.1)
    ]

    counted_as-IsSparing :
        (fates : ℕ → Fate) (fate : Fate) → IsSparing (counted_as fates fate request_id n e)
    unfolding counted_as increment_crowd_asks_sent after
    counted_as-IsSparing fates Fate.settled = record {
      people = k.spared;
      subjects = λ id. rw k.same_desk (counted id);
    }
    counted_as-IsSparing fates Fate.refused = record {
      people = λ user. (omega (arith, (k.spared user).0), (k.spared user).1);
      subjects = λ id. rw k.same_desk (uncounted id);
    }
    counted_as-IsSparing fates Fate.unheard = record {
      people = λ user. (omega (arith, (k.spared user).0), (k.spared user).1);
      subjects = λ id. rw k.same_desk (omega (arith, (counted id).0), (counted id).1);
    }

  none_asked :
      (n : Option ℕ) (e : Crowd)
      → reported n ≡ 0
      → IsAsked request_id (remaining_asks r) 0 c (n, e)
      → IsSparing e
  none_asked n e z k = record {
    people = k.spared;
    subjects = λ id.
        let before = s.subjects id in
        let sent = k.sent id in rw k.same_desk (ground (arith, before.0, sent, z), before.1);
  }

  count_asked-IsSparing :
      (fates : ℕ → Fate) (p : Option ℕ × Crowd)
      → IsAsked request_id (remaining_asks r) 0 c p
      → IsSparing (count_asked fates request_id p)
  unfolding count_asked
  count_asked-IsSparing fates (none, e) k = none_asked none e refl k
  count_asked-IsSparing fates (some n, e) k = elim (Bool-cases (n == 0)) [
    | inl z ↦ rw z (none_asked (some n) e ((==_iff n 0).0 z) k)
    | inr z ↦ rw z (counted_as-IsSparing n e k fates (fates e.statements))
  ]

after_query-IsSparing :
    (fates : ℕ → Fate) (fate : Fate) (further : Crowd → Crowd) (c : Crowd)
    → IsSparing c
    → IsSparing (further (succeeds c))
    → IsSparing (after_query fates fate further c)
unfolding after_query
after_query-IsSparing fates Fate.settled further c s t = t
after_query-IsSparing fates Fate.refused further c s t = fails-IsSparing s
after_query-IsSparing fates Fate.unheard further c s t = fails-IsSparing s

small_batch : (r : TeamMatchRequest) → remaining_asks r ≤ team_match_ask_batch_size
small_batch r = ground arith

ask_about-IsSparing :
    (fates : ℕ → Fate) (request_id : ℕ) (reachable : List ℕ) (found : Option TeamMatchRequest)
    (candidates : List CandidateRow) (c : Crowd)
    → Distinct reachable
    → IsSparing c
    → find_first (λ q. q.id == request_id) c.desk.requests ≡ found
    → IsSparing (ask_about fates request_id reachable found candidates c)
unfolding ask_about eligible_helpers
ask_about-IsSparing fates request_id reachable none candidates c distinct s h = s
ask_about-IsSparing fates request_id reachable (some r) [] c distinct s h = s
ask_about-IsSparing fates request_id reachable (some r) (top ∷ others) c distinct s h =
    elim (Bool-cases (not (is_pending_match r.status) || (remaining_asks r == 0))) [
      | inl e ↦ rw e s
      | inr e ↦ rw e (
          after_query-IsSparing fates (fates c.statements) _ c s (
            count_asked-IsSparing request_id r (succeeds c) (succeeds-IsSparing s) h fates _ (
              ask_each-IsAsked fates request_id top (remaining_asks r) (small_batch r)
                (eligible_helpers c.helpers reachable) 0 (succeeds c) (omega arith)
                (Distinct-keep_if _ reachable distinct) (eligible_helpers-few c.helpers reachable)
                s.people)))
    ]

ask_chat_helpers-IsSparing :
    (fates : ℕ → Fate) (request_id : ℕ) (reachable : List ℕ) (c : Crowd)
    → Distinct reachable
    → IsSparing c
    → IsSparing (ask_chat_helpers fates request_id reachable c)
unfolding ask_chat_helpers find_request
ask_chat_helpers-IsSparing fates request_id reachable c distinct s =
    after_query-IsSparing fates (fates c.statements) _ c s (
      ask_about-IsSparing fates request_id reachable
        (find_first (λ q. q.id == request_id) c.desk.requests) (candidates_for request_id c.desk)
        (succeeds c) distinct (succeeds-IsSparing s) refl)

Change-IsSparing :
    (c : Crowd) {d : Desk} → Change c.desk d → IsSparing c → IsSparing (record c { desk = d })
Change-IsSparing c made s = record {
  people = s.people;
  subjects = λ id. rw (kept id made) (s.subjects id);
}
  where
    kept :
        (id : ℕ) {d : Desk} → Change c.desk d → sent_of id d.requests ≡ sent_of id c.desk.requests
    kept id unchanged = refl
    kept id (candidate_listed request_id team_id points h room) = refl
    kept id (request_opened team_id new source at best h fresh f) =
        sent_of-append id c.desk.requests (new_request new source best.0 team_id best.1 at) refl
    kept id (candidate_scored row points best h) =
        sent_of-update_request id row.request_id _ c.desk.requests (λ r. (refl, refl))
    kept id (request_decided key status team_id at p) =
        sent_of-update_request id key (resolved status team_id at) c.desk.requests
          (λ r. (refl, refl))

CrowdStep-IsSparing : {c d : Crowd} → CrowdStep c d → IsSparing c → IsSparing d
CrowdStep-IsSparing {c} (reviews step) s = Change-IsSparing c (Step-Change step) s
CrowdStep-IsSparing (asks fates request_id reachable {c} distinct) s =
    ask_chat_helpers-IsSparing fates request_id reachable c distinct s
CrowdStep-IsSparing (opts user out {c}) s = record {
  people = λ other. rw (asked_of-set_opted_out user other out c.helpers) (s.people other);
  subjects = s.subjects;
}

-- From a start for which it holds, whatever happens to the reviews, in whichever chats helpers are
-- asked, whichever of the statements that ask fail, with or without effect, and whoever opts out or
-- in, in whatever order, if a person is listed once among those who can be reached in a chat and a new
-- request has an id that no candidate's row carries: five questions at most are counted for a person
-- and five for a request; a person is sent no more than are counted and one for each statement that
-- failed, and a request is asked about no more than it counts and twice for each statement that failed.
-- So without failures nobody is sent more than five, and no more than five are about a request.
pub CrowdReach-IsSparing : {c d : Crowd} → IsSparing c → CrowdReach c d → IsSparing d
CrowdReach-IsSparing s begins = s
CrowdReach-IsSparing s (goes_on r step) = CrowdStep-IsSparing step (CrowdReach-IsSparing s r)
