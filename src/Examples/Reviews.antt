-- ===== src/Examples/Reviews.antt =====
-- Examples of the review of team names and of the questions to helpers.
use cs2_predictor.Outbox.Dispatch.{Fate}
use cs2_predictor.Enrichment.Reviews.Bounds.{IsOrderly, Reach-IsOrderly}
use cs2_predictor.Enrichment.Reviews.Changes.{here, next, looks, answers}
use cs2_predictor.Enrichment.Reviews.Closed.{ensure_request-rejected}
use cs2_predictor.Base.{
  refl, arith, ◌≡◌, bytes, [], ◌∷◌, false, some, err, error, ok, none, if◌then◌else◌, ℕ, ◌==◌,
}
use cs2_predictor.Enrichment.Distance.{levenshtein, fill, distance_of, run_rows}
use cs2_predictor.Enrichment.Similarity.{score_of, ratio, fuzzy_name_score, comparable}
use cs2_predictor.Enrichment.Names.{fields, normalize_team_name, strip_org_words}
use cs2_predictor.Enrichment.Reviews.{
  find_request, answer_ask, kind_crowd, with_points, TeamMatchRequest, reject_team_match,
  match_rejected, Desk, find_pending_by_external_name, create_request, crowd_adjusted_score,
  set_points, record_response, answer_yes,
}
use cs2_predictor.Enrichment.Reviews.Requests.{
  best_snapshot_match, new_request, under_review, ensure_request, join_request, fuzzy_candidate,
  review_match,
}
use cs2_predictor.Base.Sort.{stable_sort}
use cs2_predictor.Enrichment.Reviews.Questions.Rounds.{CrowdReach-IsSparing}
use cs2_predictor.Enrichment.Reviews.Questions.Caps.{asks, IsSparing, begins, goes_on}
use cs2_predictor.Examples.Data.{ascii}
use cs2_predictor.Enrichment.Reviews.Questions.{
  ask_with, count_asked, after_ask, ask_each, Crowd, counted_as, ask_chat_helpers,
  increment_crowd_asks_sent, eligible_helpers, after_query, record_ask, Question, after_answered,
  ask_about, ask_person,
}

abbrev no_reviews : Desk
no_reviews = record { requests = []; candidates = []; responses = [] }

no_reviews-IsOrderly : IsOrderly no_reviews
no_reviews-IsOrderly = record { bounded = tt; few = λ id. omega arith; differ = tt }

-- A feed has no team "Spirt", but "Spirit" is similar.
abbrev one_request : TeamMatchRequest
one_request = new_request 1 (bytes "hltv") (bytes "Spirit") 7 84 1000

abbrev one_review : Desk
one_review = record {
  requests = one_request ∷ [];
  candidates = fuzzy_candidate 1 7 84 ∷ [];
  responses = [];
}

looked_for :
    ensure_request ascii 7
      (bytes "Spirt")
      1
      (bytes "hltv")
      1000
      false
      (bytes "Spirit" ∷ [])
      no_reviews
    ≡ ok (under_review 1, one_review)
unfolding ensure_request best_snapshot_match fuzzy_name_score comparable strip_org_words
    normalize_team_name fields score_of ratio levenshtein distance_of run_rows fill review_match
    join_request find_pending_by_external_name create_request
looked_for = refl

-- A person agrees.
abbrev agreed_review : Desk
agreed_review = record {
  requests = record one_request { best_team_id = some 7; best_score = 85 } ∷ [];
  candidates = record { request_id = 1; team_id = 7; points = 85; kind = kind_crowd } ∷ [];
  responses =
      record { request_id = 1; user_id = 5; candidate_team_id = 7; answer = answer_yes } ∷ [];
}

agreed : answer_ask 1 5 answer_yes one_review ≡ ok agreed_review
unfolding answer_ask find_request record_response with_points crowd_adjusted_score set_points
    stable_sort
agreed = refl

Reach-IsOrderly_example : IsOrderly agreed_review
Reach-IsOrderly_example = Reach-IsOrderly no_reviews-IsOrderly (
    next
      (next here (
        looks ascii 7 (bytes "Spirt") 1 (bytes "hltv") 1000 false (bytes "Spirit" ∷ []) refl
          looked_for))
      (answers 1 5 answer_yes agreed))

-- Operators reject the request.
abbrev rejected_review : Desk
rejected_review = record one_review {
  requests = record one_request { status = match_rejected; resolved_at = some 2000 } ∷ [];
}

rejected_one : reject_team_match 1 2000 one_review ≡ ok rejected_review
unfolding reject_team_match find_request
rejected_one = refl

best_for_spirt :
    best_snapshot_match ascii (bytes "Spirt") (bytes "Spirit" ∷ []) none ≡ some (bytes "Spirit", 84)
unfolding best_snapshot_match fuzzy_name_score comparable strip_org_words normalize_team_name fields
    score_of ratio levenshtein distance_of run_rows fill
best_for_spirt = refl

found_one : find_request 1 one_review ≡ some one_request
unfolding find_request
found_one = refl

ensure_request-rejected_example :
    ensure_request ascii 7
      (bytes "Spirt")
      2
      (bytes "hltv")
      3000
      false
      (bytes "Spirit" ∷ [])
      rejected_review
    ≡ err (error "duplicate key")
ensure_request-rejected_example =
    ensure_request-rejected ascii 1 2000 one_review one_request 7 2 3000 84 (bytes "Spirt")
      (bytes "Spirit" ∷ []) (tt, tt) found_one rejected_one here best_for_spirt (omega arith)
      (omega arith)

-- Three people can be reached. The second question is in the outbox, but RecordAsk fails.
abbrev quiet_crowd : Crowd
quiet_crowd = record {
  desk = one_review;
  helpers = [];
  questions = [];
  statements = 0;
  failures = 0;
}

abbrev one_lost : ℕ → Fate
one_lost n = if n == 7 then Fate.refused else Fate.settled

quiet_crowd-IsSparing : IsSparing quiet_crowd
quiet_crowd-IsSparing = record {
  people = λ user. (omega arith, omega arith);
  subjects = λ id. (ground arith, ground arith);
}

abbrev question_for : ℕ → Question
question_for user = record { user_id = user; request_id = 1; candidate_team_id = 7 }

asked_three : ask_chat_helpers one_lost 1 (5 ∷ 6 ∷ 8 ∷ []) quiet_crowd ≡ record {
  desk = record one_review { requests = record one_request { crowd_asks_sent = 2 } ∷ [] };
  helpers =
      record { user_id = 5; opted_out = false; asked_count = 1 }
      ∷ record { user_id = 8; opted_out = false; asked_count = 1 }
      ∷ [];
  questions = question_for 8 ∷ question_for 6 ∷ question_for 5 ∷ [];
  statements = 12;
  failures = 1;
}
unfolding ask_chat_helpers after_query ask_about find_request ask_each after_answered after_ask
    ask_person ask_with count_asked counted_as increment_crowd_asks_sent record_ask eligible_helpers
    stable_sort
asked_three = refl

CrowdReach-IsSparing_example : IsSparing (ask_chat_helpers one_lost 1 (5 ∷ 6 ∷ 8 ∷ []) quiet_crowd)
CrowdReach-IsSparing_example =
    CrowdReach-IsSparing quiet_crowd-IsSparing (
      goes_on begins
        (asks one_lost 1 (5 ∷ 6 ∷ 8 ∷ []) {c = quiet_crowd} (refl, (refl, (refl, tt)))))
