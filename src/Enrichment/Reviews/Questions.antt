-- ===== src/Enrichment/Reviews/Questions.antt =====
-- The questions to helpers: AskChatHelpers of internal/app/team_match.go with EligibleHelpers,
-- RecordAsk, SetOptedOut, HasResponded and IncrementCrowdAsksSent of
-- internal/adapter/postgres/team_match.go. The people who voted in the chat and can be written to are
-- an argument. There is no transaction: each statement takes the next number, and is done, refused, or
-- done with its answer lost. The queries of FindRequest, and those that list the helpers, are one
-- statement each.
pub mod Caps
pub mod Asking
pub mod Rounds
use cs2_predictor.Outbox.Dispatch.{Fate, settled, unheard, refused}
use cs2_predictor.Base.{
  Option, ◌||◌, [], leb, ltb, ◌-◌, if◌then◌else◌, ℕ, keep_if, none, Bool, ◌&&◌, List, some, ◌==◌,
  false, ◌+◌, ◌∷◌, not, any, true,
}
use cs2_predictor.Enrichment.Reviews.{
  is_pending_match, TeamMatchRequest, Desk, find_request, CandidateRow, ResponseRow, candidates_for,
  update_request,
}
use cs2_predictor.Outbox.Budget.{remaining}
use cs2_predictor.Prediction.Service.{team_id}

pub record HelperRow : Type 0 where
  pub user_id : ℕ
  pub opted_out : Bool
  pub asked_count : ℕ

pub record Question : Type 0 where
  pub user_id : ℕ
  pub request_id : ℕ
  pub candidate_team_id : ℕ

-- The newest question comes first; statements and failures are counted.
pub record Crowd : Type 0 where
  pub desk : Desk
  pub helpers : List HelperRow
  pub questions : List Question
  pub statements : ℕ
  pub failures : ℕ

abbrev pub succeeds : Crowd → Crowd
succeeds crowd = record crowd { statements = crowd.statements + 1 }

abbrev pub fails : Crowd → Crowd
fails crowd = record crowd { statements = crowd.statements + 1; failures = crowd.failures + 1 }

abbrev pub max_crowd_asks_per_request : ℕ
max_crowd_asks_per_request = 5

abbrev pub max_lifetime_asks_per_user : ℕ
max_lifetime_asks_per_user = 5

abbrev pub team_match_ask_batch_size : ℕ
team_match_ask_batch_size = 2

-- COALESCE(p.asked_count, 0) and COALESCE(p.opted_out, false)
abbrev pub asked_of : ℕ → List HelperRow → ℕ
asked_of user [] = 0
asked_of user (h ∷ hs) =
    let rest = asked_of user hs in if h.user_id == user then h.asked_count else rest

abbrev pub has_opted_out : ℕ → List HelperRow → Bool
has_opted_out user [] = false
has_opted_out user (h ∷ hs) =
    let rest = has_opted_out user hs in if h.user_id == user then h.opted_out else rest

unfoldable pub eligible_helpers : List HelperRow → List ℕ → List ℕ
eligible_helpers helpers users =
    keep_if
      (λ user.
        not (has_opted_out user helpers) && ltb (asked_of user helpers) max_lifetime_asks_per_user)
      users

unfoldable pub record_ask : ℕ → List HelperRow → List HelperRow
record_ask user [] = record { user_id = user; opted_out = false; asked_count = 1 } ∷ []
record_ask user (h ∷ hs) =
    let rest = record_ask user hs in
    if h.user_id == user then record h { asked_count = h.asked_count + 1 } ∷ hs else h ∷ rest

unfoldable pub set_opted_out : ℕ → Bool → List HelperRow → List HelperRow
set_opted_out user out [] = record { user_id = user; opted_out = out; asked_count = 0 } ∷ []
set_opted_out user out (h ∷ hs) =
    let rest = set_opted_out user out hs in
    if h.user_id == user then record h { opted_out = out } ∷ hs else h ∷ rest

abbrev pub has_responded : ℕ → ℕ → List ResponseRow → Bool
has_responded request_id user rows =
    any (λ r. (r.request_id == request_id) && (r.user_id == user)) rows

unfoldable pub increment_crowd_asks_sent : ℕ → ℕ → Desk → Desk
increment_crowd_asks_sent request_id n desk = record desk {
  requests =
      update_request request_id (λ r. record r { crowd_asks_sent = r.crowd_asks_sent + n })
        desk.requests;
}

abbrev pub remaining_asks : TeamMatchRequest → ℕ
remaining_asks r =
    if ltb (max_crowd_asks_per_request - r.crowd_asks_sent) team_match_ask_batch_size
    then max_crowd_asks_per_request - r.crowd_asks_sent
    else team_match_ask_batch_size

abbrev pub with_question : Question → Crowd → Crowd
with_question q crowd = record crowd { questions = q ∷ crowd.questions }

abbrev pub with_ask : ℕ → Crowd → Crowd
with_ask user crowd = record crowd { helpers = record_ask user crowd.helpers }

-- Enqueue and RecordAsk, and whether ask returns no error.
unfoldable pub ask_with : Fate → Fate → Question → Crowd → Bool × Crowd
ask_with Fate.refused second q crowd = (false, fails crowd)
ask_with Fate.unheard second q crowd = (false, with_question q (fails crowd))
ask_with Fate.settled Fate.settled q crowd =
    (true, with_ask q.user_id (succeeds (with_question q (succeeds crowd))))
ask_with Fate.settled Fate.refused q crowd = (false, fails (with_question q (succeeds crowd)))
ask_with Fate.settled Fate.unheard q crowd =
    (false, with_ask q.user_id (fails (with_question q (succeeds crowd))))

module _ (fates : ℕ → Fate) where
  unfoldable pub ask_person : Question → Crowd → Bool × Crowd
  ask_person q crowd = ask_with (fates crowd.statements) (fates (crowd.statements + 1)) q crowd

  -- HasResponded: an error of it ends the loop, and AskChatHelpers with it.
  unfoldable pub after_answered :
      Fate → Bool → Option ℕ × Crowd → (Crowd → Option ℕ × Crowd) → Crowd → Option ℕ × Crowd
  after_answered Fate.settled true skipped proceed crowd = skipped
  after_answered Fate.settled false skipped proceed crowd = proceed (succeeds crowd)
  after_answered Fate.refused responded skipped proceed crowd = (none, fails crowd)
  after_answered Fate.unheard responded skipped proceed crowd = (none, fails crowd)

  unfoldable pub after_ask : (ℕ → Crowd → Option ℕ × Crowd) → ℕ → Bool × Crowd → Option ℕ × Crowd
  after_ask rest asked (true, crowd) = rest (asked + 1) crowd
  after_ask rest asked (false, crowd) = rest asked crowd

  -- The loop over the eligible helpers, with the number asked so far, or the error of HasResponded.
  unfoldable pub ask_each : ℕ → CandidateRow → ℕ → List ℕ → ℕ → Crowd → Option ℕ × Crowd
  ask_each request_id top remaining [] asked crowd = (some asked, crowd)
  ask_each request_id top remaining (user ∷ users) asked crowd =
      let rest = ask_each request_id top remaining users in
      let q : Question = record {
        user_id = user;
        request_id = request_id;
        candidate_team_id = top.team_id;
      } in
      if leb remaining asked
      then (some asked, crowd)
      else after_answered (fates crowd.statements)
          (has_responded request_id user crowd.desk.responses) (rest asked (succeeds crowd))
          (λ c. after_ask rest asked (ask_person q c)) crowd

  abbrev pub with_increment : ℕ → ℕ → Crowd → Crowd
  with_increment request_id asked crowd = record crowd {
    desk = increment_crowd_asks_sent request_id asked crowd.desk;
  }

  unfoldable pub counted_as : Fate → ℕ → ℕ → Crowd → Crowd
  counted_as Fate.settled request_id asked crowd = succeeds (with_increment request_id asked crowd)
  counted_as Fate.refused request_id asked crowd = fails crowd
  counted_as Fate.unheard request_id asked crowd = fails (with_increment request_id asked crowd)

  unfoldable pub count_asked : ℕ → Option ℕ × Crowd → Crowd
  count_asked request_id (none, crowd) = crowd
  count_asked request_id (some asked, crowd) =
      if asked == 0 then crowd else counted_as (fates crowd.statements) request_id asked crowd

  -- What follows a query, unless it fails.
  unfoldable pub after_query : Fate → (Crowd → Crowd) → Crowd → Crowd
  after_query Fate.settled proceed crowd = proceed (succeeds crowd)
  after_query Fate.refused proceed crowd = fails crowd
  after_query Fate.unheard proceed crowd = fails crowd

  unfoldable pub ask_about :
      ℕ → List ℕ → Option TeamMatchRequest → List CandidateRow → Crowd → Crowd
  ask_about request_id reachable none candidates crowd = crowd
  ask_about request_id reachable (some r) [] crowd = crowd
  ask_about request_id reachable (some r) (top ∷ others) crowd =
      if not (is_pending_match r.status) || (remaining_asks r == 0)
      then crowd
      else after_query (fates crowd.statements)
          (λ c.
            count_asked request_id (
              ask_each request_id top (remaining_asks r) (eligible_helpers c.helpers reachable) 0
                c))
          crowd

  unfoldable pub ask_chat_helpers : ℕ → List ℕ → Crowd → Crowd
  ask_chat_helpers request_id reachable crowd =
      after_query (fates crowd.statements)
        (λ c.
          ask_about request_id reachable (find_request request_id c.desk)
            (candidates_for request_id c.desk) c)
        crowd
