-- ===== src/Settlement/Owed.antt =====
-- What a settlement stores as awards. About Settle of internal/domain/scoring/service.go within a
-- transaction.
use cs2_predictor.Settlement.Tables.{
  ◌>>=◌, pure, executed, go_on, S, Ledger, Books, SettlementOutside, ask, write, next_call,
}
use cs2_predictor.Settlement.Steady.{of_poll, kept}
use cs2_predictor.Settlement.{store_awards, score_votes, settle_started, settle_awards}
use cs2_predictor.Base.{
  Result, ℕ, arith, Bool, keep_if, or_else, List, ◌∙◌, none, refl, err, ◌==◌, Option, ◌++◌, [],
  some, err-ne-ok, sym, ◌∷◌, true, Error, ◌≡◌, All, ap, false, not, ok,
}
use cs2_predictor.Scoring.Settle.{awards_for, Award, realign_to_poll_team_order, replace_awards}
use cs2_predictor.Prediction.Poll.{Poll}
use cs2_predictor.Competition.Catalog.{Match}
use cs2_predictor.Outbox.History.{table}
use cs2_predictor.Scoring.Settle.Awards.{awards_for-own}
use cs2_predictor.Competition.Series.{MatchScore}

pub bind_done :
    {A B : Type 0} (m : S A) (f : A → S B) (w : Ledger) {b : B}
    → ((m >>= f) w).0 ≡ ok b
    → (a : A) × ((m w).0 ≡ ok a) × ((m >>= f) w ≡ f a (m w).1)
bind_done {A} m f w {b} h = go (m w).0 refl h
  where
    go :
        (r : Result A)
        → (m w).0 ≡ r
        → (go_on r f (m w).1).0 ≡ ok b
        → (a : A) × ((m w).0 ≡ ok a) × (go_on (m w).0 f (m w).1 ≡ f a (m w).1)
    go (ok a) e k = (a, e, ap (λ r. go_on r f (m w).1) e)
    go (err x) e k = absurd (err-ne-ok x b k)

pub executed_ok :
    {A : Type 0} (ab : Bool) (fault : Option Error) (a x : A) (books : Books) (w : Ledger)
    → (executed ab fault a books w).0 ≡ ok x
    → (executed ab fault a books w).1.books ≡ books
executed_ok true fault a x books w h = absurd (err-ne-ok _ x h)
executed_ok false none a x books w h = refl
executed_ok false (some e) a x books w h = absurd (err-ne-ok e x h)

executed_value :
    {A : Type 0} (ab : Bool) (fault : Option Error) (a x : A) (books : Books) (w : Ledger)
    → (executed ab fault a books w).0 ≡ ok x
    → a ≡ x
executed_value true fault a x books w h = absurd (err-ne-ok _ x h)
executed_value false none a x books w h = cc
executed_value false (some e) a x books w h = absurd (err-ne-ok e x h)

kept-own :
    (poll_id : ℕ) (new : List Award)
    → All (λ a. a.poll_id ≡ poll_id) new
    → keep_if (of_poll poll_id) new ≡ new
kept-own poll_id [] h = refl
kept-own poll_id (a ∷ new) h = ground (arith, kept-own poll_id new h.1)

kept-replaced :
    (poll_id : ℕ) (table new : List Award)
    → All (λ a. a.poll_id ≡ poll_id) new
    → keep_if (of_poll poll_id) (keep_if (λ a. not (a.poll_id == poll_id)) table ++ new) ≡ new
kept-replaced poll_id [] new h = kept-own poll_id new h
kept-replaced poll_id (a ∷ table) new h = ground (arith, kept-replaced poll_id table new h)

module _ (out : SettlementOutside) (m : Match) (p : Poll) where
  store_awards_done :
      (awards : List Award) (w : Ledger) {given : List Award}
      → All (λ a. a.poll_id ≡ p.id) awards
      → (store_awards out p.id awards w).0 ≡ ok given
      → kept (of_poll p.id) (store_awards out p.id awards w).1.books ≡ awards
  unfolding store_awards replace_awards
  store_awards_done awards w own h =
      let stored =
        λ (books : Books). record books { awards = replace_awards p.id awards books.awards } in
      let step = bind_done (write out stored) (λ done. pure awards) w h in
      ap (λ t. kept (of_poll p.id) t.1.books) step.2
      ∙ ap (kept (of_poll p.id)) (executed_ok w.aborted _ tt tt _ w step.1)
      ∙ kept-replaced p.id w.books.awards awards own

  -- The poll's awards are those that its votes have earned by the match's score.
  abbrev pub AreOwed : Books → Type 0
  AreOwed books =
      (result : MatchScore) × (at : ℕ) × (m.result ≡ some result)
      × (kept (of_poll p.id) books
          ≡ awards_for p (realign_to_poll_team_order result m p) m.format at (out.votes_of p.id))

  pub AreOwed_same :
      (b c : Books) → kept (of_poll p.id) c ≡ kept (of_poll p.id) b → AreOwed b → AreOwed c
  AreOwed_same b c same (result, at, scored, owed) = (result, at, scored, same ∙ owed)

  settle_started_done :
      (start : Option ℕ) (result : Option MatchScore) (w : Ledger) {given : List Award}
      → m.result ≡ result
      → (settle_started out m p start result w).0 ≡ ok given
      → AreOwed (settle_started out m p start result w).1.books
  unfolding settle_started score_votes
  settle_started_done start none w scored h = absurd (err-ne-ok _ _ h)
  settle_started_done none (some result) w scored h = absurd (err-ne-ok _ _ h)
  settle_started_done (some start) (some result) w scored h =
      let votes = λ (books : Books). out.votes_of p.id in
      let step = bind_done (ask out votes) (score_votes out m p result) w h in
      let same =
        executed_value w.aborted (out.fault w.calls) (out.votes_of p.id) step.0 _ w step.1 in
      let moment = out.moment (ask out votes w).1.calls in
      let awards = awards_for p (realign_to_poll_team_order result m p) m.format moment step.0 in
      (
        result,
        moment,
        scored,
        ap (λ t. kept (of_poll p.id) t.1.books) step.2
            ∙ store_awards_done awards (next_call (ask out votes w).1)
                (awards_for-own p (realign_to_poll_team_order result m p) m.format moment step.0)
                (ap (λ t. t.0) (sym step.2) ∙ h)
            ∙ ap (awards_for p (realign_to_poll_team_order result m p) m.format moment) (sym same),
      )

  pub settle_awards_done :
      (w : Ledger) {given : List Award}
      → (settle_awards out m p w).0 ≡ ok given
      → AreOwed (settle_awards out m p w).1.books
  unfolding settle_awards
  settle_awards_done w h =
      settle_started_done (or_else m.actual_started_at m.scheduled_at) m.result w refl h
