-- ===== src/Enrichment/Reviews/Questions/Asking.antt =====
-- What asking one person, and the loop over the helpers, does to the counts, whichever statement fails.
use cs2_predictor.Outbox.Dispatch.{Fate}
use cs2_predictor.Base.{
  Bool-cases, ℕ, Bool, Distinct, inl, some, ◌+◌, if◌then◌else◌, refl, arith, ◌∷◌, ◌≤◌, ◌≡◌, ◌==◌,
  [], List, inr, false, leb, ◌<◌, All, ==_iff, subst, contains, true, none, Option, ◌*◌, ◌∙◌, ◌⊎◌,
}
use cs2_predictor.Enrichment.Reviews.{CandidateRow}
use cs2_predictor.Enrichment.Reviews.Questions.{
  after_ask, ask_each, Crowd, ask_with, fails, team_match_ask_batch_size, Question, asked_of,
  max_lifetime_asks_per_user, HelperRow, has_responded, after_answered, ask_person, succeeds,
}
use cs2_predictor.Enrichment.Reviews.Questions.Caps.{
  questions_to, asked_of-record_ask, questions_about,
}

few-record_ask :
    (user : ℕ) (hs hs' : List HelperRow) (users : List ℕ)
    → ((v : ℕ) → asked_of v hs' ≤ asked_of v hs + (if user == v then 1 else 0))
    → contains users user ≡ false
    → All (λ other. asked_of other hs < max_lifetime_asks_per_user) users
    → All (λ other. asked_of other hs' < max_lifetime_asks_per_user) users
few-record_ask user hs hs' [] le h few = tt
few-record_ask user hs hs' (v ∷ users) le h few =
    (ground (arith, le v), few-record_ask user hs hs' users le (ground arith) few.1)

-- What asking one person does, whichever statement fails.
record IsTried (q : Question) (c : Crowd) (p : Bool × Crowd) : Type 0 where
  same_desk : p.1.desk ≡ c.desk
  about :
      (id : ℕ)
      → questions_about id p.1.questions
        ≤ questions_about id c.questions + (if q.request_id == id then 1 else 0)
  to :
      (user : ℕ)
      → questions_to user p.1.questions + asked_of user c.helpers + c.failures
        ≤ questions_to user c.questions + asked_of user p.1.helpers + p.1.failures
  asked :
      (user : ℕ)
      → asked_of user p.1.helpers ≤ asked_of user c.helpers + (if q.user_id == user then 1 else 0)
  failed : c.failures + (if p.0 then 0 else 1) ≤ p.1.failures

ask_with-IsTried : (e r : Fate) (q : Question) (c : Crowd) → IsTried q c (ask_with e r q c)
unfolding ask_with
ask_with-IsTried Fate.refused r q c = record {
  same_desk = refl;
  about = λ id. omega arith;
  to = λ user. omega arith;
  asked = λ user. omega arith;
  failed = omega arith;
}
ask_with-IsTried Fate.unheard r q c = record {
  same_desk = refl;
  about = λ id. omega arith;
  to = λ user. ground arith;
  asked = λ user. omega arith;
  failed = omega arith;
}
ask_with-IsTried Fate.settled Fate.settled q c = record {
  same_desk = refl;
  about = λ id. omega arith;
  to = λ user. omega (arith, asked_of-record_ask q.user_id user c.helpers);
  asked = λ user. omega (arith, asked_of-record_ask q.user_id user c.helpers);
  failed = omega arith;
}
ask_with-IsTried Fate.settled Fate.refused q c = record {
  same_desk = refl;
  about = λ id. omega arith;
  to = λ user. ground arith;
  asked = λ user. omega arith;
  failed = omega arith;
}
ask_with-IsTried Fate.settled Fate.unheard q c = record {
  same_desk = refl;
  about = λ id. omega arith;
  to = λ user. omega (arith, asked_of-record_ask q.user_id user c.helpers);
  asked = λ user. omega (arith, asked_of-record_ask q.user_id user c.helpers);
  failed = omega arith;
}

-- What the loop reports: the number asked, or an error.
abbrev pub reported : Option ℕ → ℕ
reported none = 0
reported (some n) = n

abbrev pub AreSpared : Crowd → Type 0
AreSpared c =
    (user : ℕ)
    → (questions_to user c.questions ≤ asked_of user c.helpers + c.failures)
      × (asked_of user c.helpers ≤ max_lifetime_asks_per_user)

-- What the loop over the helpers has done, from the crowd before it.
pub record IsAsked (request_id remaining asked : ℕ) (c : Crowd) (p : Option ℕ × Crowd)
    : Type 0 where
  pub same_desk : p.1.desk ≡ c.desk
  pub capped : reported p.0 ≤ remaining
  pub sent :
      (id : ℕ)
      → questions_about id p.1.questions + (if request_id == id then asked else 0) + 2 * c.failures
        ≤ questions_about id c.questions
          + (if request_id == id then reported p.0 else 0)
          + 2 * p.1.failures
  pub spared : AreSpared p.1

module _ (fates : ℕ → Fate) (request_id : ℕ) (top : CandidateRow) (cap : ℕ)
    (small : cap ≤ team_match_ask_batch_size) where
  stops-IsAsked :
      (asked : ℕ) (c : Crowd)
      → asked ≤ cap
      → AreSpared c
      → IsAsked request_id cap asked c (some asked, c)
  stops-IsAsked asked c low spared = record {
    same_desk = refl;
    capped = low;
    sent = λ id. omega arith;
    spared = spared;
  }

  fails-IsAsked :
      (asked : ℕ) (c : Crowd)
      → asked < cap
      → AreSpared c
      → IsAsked request_id cap asked c (none, fails c)
  fails-IsAsked asked c low spared = record {
    same_desk = refl;
    capped = omega arith;
    sent = λ id. ground (arith, small);
    spared = λ user. (omega (arith, (spared user).0), (spared user).1);
  }

  Loop : List ℕ → Type 0
  Loop users =
      (asked : ℕ) (c : Crowd)
      → asked ≤ cap
      → All (λ user. asked_of user c.helpers < max_lifetime_asks_per_user) users
      → AreSpared c
      → IsAsked request_id cap asked c (ask_each fates request_id top cap users asked c)

  question : ℕ → Question
  question user = record {
    user_id = user;
    request_id = request_id;
    candidate_team_id = top.team_id;
  }

  still_spared :
      (user : ℕ) (c : Crowd) (p : Bool × Crowd)
      → asked_of user c.helpers < max_lifetime_asks_per_user
      → AreSpared c
      → IsTried (question user) c p
      → AreSpared p.1
  unfolding question
  still_spared user c p room spared t other =
      (omega (arith, t.to other, (spared other).0), few (Bool-cases (user == other)))
    where
      few :
          ((user == other) ≡ true) ⊎ ((user == other) ≡ false)
          → asked_of other p.1.helpers ≤ max_lifetime_asks_per_user
      few (inl e) =
          let own =
            subst (λ n. asked_of n c.helpers < max_lifetime_asks_per_user) ((==_iff user other).0 e)
              room in
          let more = rw e at (t.asked other) in omega (arith, own, more)
      few (inr e) = let more = rw e at (t.asked other) in omega (arith, more, (spared other).1)

  after_ask-IsAsked :
      (user : ℕ) (users : List ℕ) (asked : ℕ) (c : Crowd) (p : Bool × Crowd)
      → asked < cap
      → contains users user ≡ false
      → asked_of user c.helpers < max_lifetime_asks_per_user
      → All (λ other. asked_of other c.helpers < max_lifetime_asks_per_user) users
      → AreSpared c
      → IsTried (question user) c p
      → Loop users
      → IsAsked request_id cap asked c
          (after_ask fates (ask_each fates request_id top cap users) asked p)
  unfolding after_ask Loop question
  after_ask-IsAsked user users asked c (true, d) low apart room few spared t loop =
      let k =
        loop (asked + 1) d (omega (arith, low))
          (few-record_ask user c.helpers d.helpers users t.asked apart few)
          (still_spared user c (true, d) room spared t) in
      record {
        same_desk = k.same_desk ∙ t.same_desk;
        capped = k.capped;
        sent = λ id. ground (arith, k.sent id, t.about id, t.failed);
        spared = k.spared;
      }
  after_ask-IsAsked user users asked c (false, d) low apart room few spared t loop =
      let k =
        loop asked d (omega (arith, low))
          (few-record_ask user c.helpers d.helpers users t.asked apart few)
          (still_spared user c (false, d) room spared t) in
      record {
        same_desk = k.same_desk ∙ t.same_desk;
        capped = k.capped;
        sent = λ id. ground (arith, k.sent id, t.about id, t.failed);
        spared = k.spared;
      }

  succeeds-IsAsked :
      (asked : ℕ) (c : Crowd) (p : Option ℕ × Crowd)
      → IsAsked request_id cap asked (succeeds c) p
      → IsAsked request_id cap asked c p
  succeeds-IsAsked asked c p k = record {
    same_desk = k.same_desk;
    capped = k.capped;
    sent = k.sent;
    spared = k.spared;
  }

  after_answered-IsAsked :
      (e : Fate) (before : Bool) (user : ℕ) (users : List ℕ) (asked : ℕ) (c : Crowd)
      → asked < cap
      → contains users user ≡ false
      → asked_of user c.helpers < max_lifetime_asks_per_user
      → All (λ other. asked_of other c.helpers < max_lifetime_asks_per_user) users
      → AreSpared c
      → Loop users
      → IsAsked request_id cap asked c (
          after_answered fates e before
            (ask_each fates request_id top cap users asked (succeeds c))
            (λ d.
              after_ask fates
                (ask_each fates request_id top cap users)
                asked
                (ask_person fates (question user) d))
            c)
  unfolding after_answered Loop ask_person
  after_answered-IsAsked Fate.settled true user users asked c low apart room few spared loop =
      succeeds-IsAsked asked c _ (loop asked (succeeds c) (omega (arith, low)) few spared)
  after_answered-IsAsked Fate.settled false user users asked c low apart room few spared loop =
      succeeds-IsAsked asked c _ (
        after_ask-IsAsked user users asked (succeeds c) _ low apart room few spared
          (ask_with-IsTried (fates (c.statements + 1)) (fates (c.statements + 1 + 1))
            (question user) (succeeds c))
          loop)
  after_answered-IsAsked Fate.refused before user users asked c low apart room few spared loop =
      fails-IsAsked asked c low spared
  after_answered-IsAsked Fate.unheard before user users asked c low apart room few spared loop =
      fails-IsAsked asked c low spared

  pub ask_each-IsAsked :
      (users : List ℕ) (asked : ℕ) (c : Crowd)
      → asked ≤ cap
      → Distinct users
      → All (λ user. asked_of user c.helpers < max_lifetime_asks_per_user) users
      → AreSpared c
      → IsAsked request_id cap asked c (ask_each fates request_id top cap users asked c)
  unfolding ask_each Loop question
  ask_each-IsAsked [] asked c low distinct few spared = stops-IsAsked asked c low spared
  ask_each-IsAsked (user ∷ users) asked c low distinct few spared =
      elim (Bool-cases (leb cap asked)) [
        | inl e ↦ rw e (stops-IsAsked asked c low spared)
        | inr e ↦ rw e (
            after_answered-IsAsked (fates c.statements)
              (has_responded request_id user c.desk.responses) user users asked c (ground arith)
              distinct.0 few.0 few.1 spared
              (λ n d l f p. ask_each-IsAsked users n d l distinct.1 f p))
      ]
