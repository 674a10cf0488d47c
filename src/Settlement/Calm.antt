-- ===== src/Settlement/Calm.antt =====
-- A settlement where no statement fails. About Settle and settleOne of internal/app/settlement.go.
use cs2_predictor.Settlement.Tables.{
  ◌>>=◌, ◌>>◌, pure, now, executed, go_on, S, Ledger, Books, SettlementOutside, ask, write, enqueue,
  attempt, run_in_tx, finished, title_of, mark_settled, result_hash, next_call,
}
use mathlib.Core.Option.{some-ne-none}
use cs2_predictor.Base.{
  or_else, ℕ, err, ◌+◌, Option, subst, sym, String, refl, true, Bool-cases, contains, ok, inl, inr,
  none, some, ◌∷◌, [], err-ne-ok, List, Bool, map, false, Error, ◌≡◌, Result, is_some, All, ap,
}
use cs2_predictor.Settlement.{
  finish, settle_from, with_audience, settle_started, standings_after, recaps_for, recap_payload,
  recap_voters, announce, score_votes, after_recipients, settle_one, enqueue_recaps, store_awards,
  settle_awards, result_notification, unless_settled, after_hash, settle_polls, after_tx, has_hash,
  is_finished, after_polls, settle_final, settle_match,
}
use cs2_predictor.Competition.Catalog.{Event, Match}
use cs2_predictor.Prediction.Poll.{Poll, Vote}
use cs2_predictor.Scoring.Settle.{Award, awards_for, realign_to_poll_team_order, replace_awards}
use cs2_predictor.Competition.Series.{MatchScore}
use cs2_predictor.Scoring.Ranking.{UserStanding}
use cs2_predictor.Settlement.Again.{Done, settle_polls-Marks}
use cs2_predictor.Competition.Series.Text.{score_text}
use cs2_predictor.Prediction.Effects.{answer}

-- The answer is a value, and the transaction goes on.
abbrev Succeeds : {A : Type 0} → Result A → Ledger → Type 0
Succeeds {A} r w = (a : A) × (r ≡ ok a) × (w.aborted ≡ false)

abbrev IsCalm : {A : Type 0} → S A → Type 0
IsCalm x = (w : Ledger) → w.aborted ≡ false → Succeeds (x w).0 (x w).1

bind-IsCalm :
    {A B : Type 0} (x : S A) (f : A → S B) → IsCalm x → ((a : A) → IsCalm (f a)) → IsCalm (x >>= f)
bind-IsCalm x f h k w live =
    let step = h w live in
    subst (λ r. Succeeds (go_on r f (x w).1).0 (go_on r f (x w).1).1) (sym step.1)
      (k step.0 (x w).1 step.2)

executed_calm :
    {A : Type 0} (ab : Bool) (fault : Option Error) (a : A) (books : Books) (w : Ledger)
    → ab ≡ false
    → fault ≡ none
    → w.aborted ≡ false
    → Succeeds (executed ab fault a books w).0 (executed ab fault a books w).1
executed_calm true fault a books w h k live = absurd (clash h)
  where
    clash : true ≡ false → ⊥
    clash e = cc
executed_calm false (some e) a books w h k live = absurd (some-ne-none e k)
executed_calm false none a books w h k live = (a, refl, live)

module _ (out : SettlementOutside) (calm : (n : ℕ) → out.fault n ≡ none) where
  ask-IsCalm : {A : Type 0} (f : Books → A) → IsCalm (ask out f)
  ask-IsCalm f w live = executed_calm w.aborted (out.fault w.calls) _ _ w live (calm w.calls) live

  write-IsCalm : (f : Books → Books) → IsCalm (write out f)
  write-IsCalm f w live = executed_calm w.aborted (out.fault w.calls) _ _ w live (calm w.calls) live

  now-IsCalm : IsCalm (now out)
  now-IsCalm w live = (out.moment w.calls, refl, live)

  enqueue-IsCalm : (poll_id : ℕ) (kind payload : String) → IsCalm (enqueue out poll_id kind payload)
  unfolding enqueue
  enqueue-IsCalm poll_id kind payload w live =
      executed_calm w.aborted (out.fault w.calls) tt _ w live (calm w.calls) live

  finished_calm :
      (before : Books) (r : Result (Unit {0})) (w : Ledger)
      → Succeeds r w
      → (finished out before r w).0 ≡ ok tt
  finished_calm before (ok tt) w h = rw (h.2, calm w.calls)
  finished_calm before (err e) w h = absurd (err-ne-ok e h.0 h.1)

  run_in_tx_calm :
      (body : S (Unit {0})) (w : Ledger) → IsCalm body → (run_in_tx out body w).0 ≡ ok tt
  unfolding run_in_tx
  run_in_tx_calm body w h =
      rw (calm w.calls)
        (finished_calm w.books _ _ (h (record w { calls = w.calls + 1; aborted = false }) refl))

  module _ (event : Event) (m : Match) (p : Poll) where
    store_awards-IsCalm : (awards : List Award) → IsCalm (store_awards out p.id awards)
    unfolding store_awards
    store_awards-IsCalm awards =
        let stored =
          λ (books : Books). record books { awards = replace_awards p.id awards books.awards } in
        bind-IsCalm (write out stored) (λ done. pure awards) (write-IsCalm stored)
          (λ done w live. (awards, refl, live))

    score_votes-IsCalm :
        (result : MatchScore) (votes : List Vote) → IsCalm (score_votes out m p result votes)
    unfolding score_votes
    score_votes-IsCalm result votes =
        bind-IsCalm (now out) (λ moment. store_awards out p.id (awards_at moment)) now-IsCalm
          (λ moment. store_awards-IsCalm (awards_at moment))
      where
        awards_at : ℕ → List Award
        awards_at moment =
            awards_for p (realign_to_poll_team_order result m p) m.format moment votes

    settle_started-IsCalm :
        (start : Option ℕ) (result : Option MatchScore)
        → is_some start ≡ true
        → is_some result ≡ true
        → IsCalm (settle_started out m p start result)
    unfolding settle_started
    settle_started-IsCalm start none h k = absurd (clash k)
      where
        clash : false ≡ true → ⊥
        clash e = cc
    settle_started-IsCalm none (some result) h k = absurd (clash h)
      where
        clash : false ≡ true → ⊥
        clash e = cc
    settle_started-IsCalm (some start) (some result) h k =
        bind-IsCalm (ask out (λ books. out.votes_of p.id)) (score_votes out m p result)
          (ask-IsCalm (λ books. out.votes_of p.id)) (score_votes-IsCalm result)

    module _ (hash : List ℕ) (awards : List Award) where
      recaps_for-IsCalm :
          (title : String) (wants : List ℕ) (vs : List Vote)
          → IsCalm (recaps_for out event m p hash awards title wants vs)
      unfolding recaps_for
      recaps_for-IsCalm title wants [] w live = (tt, refl, live)
      recaps_for-IsCalm title wants (v ∷ vs) w live = elim (Bool-cases (contains wants v.user_id)) [
        | inl e ↦ rw e (
            bind-IsCalm
              (enqueue out p.id "telegram.result-recap"
                (recap_payload out event m p hash awards title v))
              (λ done. recaps_for out event m p hash awards title wants vs)
              (enqueue-IsCalm p.id "telegram.result-recap"
                (recap_payload out event m p hash awards title v))
              (λ done. recaps_for-IsCalm title wants vs) w live)
        | inr e ↦ rw e (recaps_for-IsCalm title wants vs w live)
      ]

      after_recipients-IsCalm :
          (votes : List Vote) (recipients : Result (List ℕ))
          → IsCalm (after_recipients out event m p hash awards votes recipients)
      unfolding after_recipients
      after_recipients-IsCalm votes (err e) = λ w live. (tt, refl, live)
      after_recipients-IsCalm votes (ok []) = λ w live. (tt, refl, live)
      after_recipients-IsCalm votes (ok (u ∷ us)) =
          recaps_for-IsCalm (title_of out.chat_titles p.chat_id) (u ∷ us) votes

      recap_voters-IsCalm :
          (wanting : List ℕ → List ℕ) (votes : List Vote)
          → IsCalm (recap_voters wanting out event m p hash awards votes)
      unfolding recap_voters
      recap_voters-IsCalm wanting [] = λ w live. (tt, refl, live)
      recap_voters-IsCalm wanting (v ∷ vs) =
          let asking = ask out (λ books. wanting (map (λ x. x.user_id) (v ∷ vs))) in
          bind-IsCalm (attempt asking) (after_recipients out event m p hash awards (v ∷ vs))
            (λ w live. (
              (asking w).0,
              refl,
              (ask-IsCalm (λ books. wanting (map (λ x. x.user_id) (v ∷ vs))) w live).2,
            ))
            (after_recipients-IsCalm (v ∷ vs))

      with_audience-IsCalm :
          (audience : Option (List ℕ → List ℕ))
          → IsCalm (with_audience audience out event m p hash awards)
      unfolding with_audience
      with_audience-IsCalm none = λ w live. (tt, refl, live)
      with_audience-IsCalm (some wanting) =
          bind-IsCalm (ask out (λ books. out.votes_of p.id))
            (recap_voters wanting out event m p hash awards)
            (ask-IsCalm (λ books. out.votes_of p.id)) (recap_voters-IsCalm wanting)

    finish-IsCalm : (hash : List ℕ) → IsCalm (finish out p hash)
    unfolding finish
    finish-IsCalm hash =
        bind-IsCalm (now out) (λ moment. write out (mark_settled p.id hash moment)) now-IsCalm
          (λ moment. write-IsCalm (mark_settled p.id hash moment))

    announce-IsCalm :
        (hash : List ℕ) (before : List UserStanding) (awards : List Award)
        (after : List UserStanding)
        → IsCalm (announce out event m p hash before awards after)
    unfolding announce enqueue_recaps
    announce-IsCalm hash before awards after =
        let payload = out.encode_result (result_notification event m p hash before after awards) in
        let recaps = enqueue_recaps out event m p hash awards in
        bind-IsCalm (enqueue out p.id "telegram.match-result" payload)
          (λ done. recaps >> finish out p hash)
          (enqueue-IsCalm p.id "telegram.match-result" payload)
          (λ done.
            bind-IsCalm recaps (λ done. finish out p hash)
              (with_audience-IsCalm hash awards out.audience) (λ done. finish-IsCalm hash))

    settle_one-IsCalm :
        (hash : List ℕ)
        → is_some (or_else m.actual_started_at m.scheduled_at) ≡ true
        → is_some m.result ≡ true
        → IsCalm (settle_one out event m p hash)
    unfolding settle_one settle_from standings_after settle_awards
    settle_one-IsCalm hash started scored =
        let ranks = λ (books : Books). out.leaderboard books p.chat_id event.id in
        bind-IsCalm (ask out ranks) (settle_from out event m p hash) (ask-IsCalm ranks) (λ before.
          bind-IsCalm (settle_awards out m p) (standings_after out event m p hash before)
            (settle_started-IsCalm (or_else m.actual_started_at m.scheduled_at) m.result started
              scored)
            (λ awards.
              bind-IsCalm (ask out ranks) (announce out event m p hash before awards)
                (ask-IsCalm ranks) (announce-IsCalm hash before awards)))

  module _ (event : Event) (m : Match)
      (started : is_some (or_else m.actual_started_at m.scheduled_at) ≡ true)
      (scored : is_some m.result ≡ true) (hash : List ℕ) where
    polls_calm :
        (ps : List Poll) (n : ℕ) (w : Ledger) → (settle_polls out event m hash ps n w).0.1 ≡ none
    unfolding settle_polls after_hash unless_settled after_tx
    polls_calm [] n w = refl
    polls_calm (p ∷ ps) n w =
        rw (calm w.calls) (elim (Bool-cases (has_hash (result_hash p.id w.books) hash)) [
          | inl e ↦ rw e (polls_calm ps n (next_call w))
          | inr e ↦
              rw
                (
                  e,
                  run_in_tx_calm (settle_one out event m p hash) (next_call w)
                      (settle_one-IsCalm event m p hash started scored),
                )
                (polls_calm ps (n + 1) _)
        ])

  module _ (event : Event) (m : Match) (r : MatchScore) where
    -- The answer has no error, and the polls are marked with the score.
    abbrev pub AllMarked : (ℕ × Option Error) × Ledger → Type 0
    AllMarked answer =
        (answer.0.1 ≡ none) × All (λ p. Done (score_text r) answer.1.books p.id) (out.polls_of m.id)

    after_polls_calm :
        is_some (or_else m.actual_started_at m.scheduled_at) ≡ true
        → is_some m.result ≡ true
        → (w : Ledger) → AllMarked (after_polls (out.fault w.calls) out event m (score_text r) w)
    unfolding after_polls
    after_polls_calm started scored w =
        let finished =
          polls_calm event m started scored (score_text r) (out.polls_of m.id) 0 (next_call w) in
        rw (calm w.calls) (
          finished,
          settle_polls-Marks (score_text r) out event m (out.polls_of m.id) 0 (next_call w)
              finished,
        )

    -- A match that is over, with a score and a start, is settled where no statement fails: there is no
    -- error, and each poll of the match carries the score's hash.
    pub settles_calmly :
        is_finished m.status ≡ true
        → m.result ≡ some r
        → is_some (or_else m.actual_started_at m.scheduled_at) ≡ true
        → (w : Ledger) → AllMarked (settle_match out event m w)
    unfolding settle_match settle_final
    settles_calmly over scored started w =
        subst (λ x. AllMarked (settle_final out event m x m.result w)) (sym over)
          (subst (λ x. AllMarked (settle_final out event m true x w)) (sym scored)
            (after_polls_calm started (ap is_some scored) w))
