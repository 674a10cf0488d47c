-- ===== src/Settlement/Steady.antt =====
-- What the parts of a settlement leave alone. About settleOne and enqueueRecaps of
-- internal/app/settlement.go.
use mathlib.Core.List.{append-nil, append_assoc}
use cs2_predictor.Settlement.Tables.{
  ◌>>=◌, pure, now, S, Ledger, SettlementOutside, enqueue, Books, write, go_on, ask, title_of,
  attempt, executed,
}
use cs2_predictor.Settlement.{
  store_awards, recap_voters, settle_started, settle_awards, with_audience, enqueue_recaps,
  after_recipients, recaps_for, score_votes, recap_payload,
}
use cs2_predictor.Base.{
  ◌∙◌, true, sym, Error, All, Result, ◌==◌, ◌≡◌, none, ok, some, false, err, String, inr, keep_if,
  not, Option, subst, inl, ◌⊎◌, ◌++◌, Bool, refl, List, ap, ◌∷◌, ℕ, [], or_else, map, Bool-cases,
  contains,
}
use cs2_predictor.Scoring.Settle.{replace_awards, Award, awards_for, realign_to_poll_team_order}
use cs2_predictor.Outbox.Table.{OutboxRow, insert_row, new_row}
use cs2_predictor.Prediction.Poll.{Poll, Vote}
use cs2_predictor.Competition.Series.{MatchScore}
use cs2_predictor.Competition.Catalog.{Event, Match}
use cs2_predictor.Scoring.Settle.Awards.{awards_for-own, kept_twice}

-- The awards of a poll, and those of the others.
abbrev pub of_poll : ℕ → Award → Bool
of_poll poll_id a = a.poll_id == poll_id

abbrev pub of_others : ℕ → Award → Bool
of_others poll_id a = not (a.poll_id == poll_id)

abbrev pub kept : (Award → Bool) → Books → List Award
kept keep books = keep_if keep books.awards

-- The awards that are kept are the same, so are the marks, and the outbox has new rows at its end.
pub record IsSteady (keep : Award → Bool) (b c : Books) : Type 0 where
  pub same_settled : c.settled ≡ b.settled
  pub same_awards : kept keep c ≡ kept keep b
  pub more : List OutboxRow
  pub appended : c.outbox ≡ b.outbox ++ more

pub IsSteady-refl : (keep : Award → Bool) (b : Books) → IsSteady keep b b
IsSteady-refl keep b = record {
  same_settled = refl;
  same_awards = refl;
  more = [];
  appended = sym (append-nil b.outbox);
}

pub IsSteady-trans :
    (keep : Award → Bool) (b c d : Books)
    → IsSteady keep b c
    → IsSteady keep c d
    → IsSteady keep b d
IsSteady-trans keep b c d h k = record {
  same_settled = k.same_settled ∙ h.same_settled;
  same_awards = k.same_awards ∙ h.same_awards;
  more = h.more ++ k.more;
  appended = k.appended ∙ ap (λ l. l ++ k.more) h.appended ∙ append_assoc b.outbox h.more k.more;
}

-- The computation is steady from every ledger.
abbrev Steadily : (Award → Bool) → {A : Type 0} → S A → Type 0
Steadily keep m = (w : Ledger) → IsSteady keep w.books (m w).1.books

executed_books :
    {A : Type 0} (ab : Bool) (fault : Option Error) (a : A) (books : Books) (w : Ledger)
    → ((executed ab fault a books w).1.books ≡ w.books)
      ⊎ ((executed ab fault a books w).1.books ≡ books)
executed_books true fault a books w = inl refl
executed_books false none a books w = inr refl
executed_books false (some e) a books w = inl refl

bind-Steadily :
    (keep : Award → Bool) {A B : Type 0} (m : S A) (f : A → S B)
    → Steadily keep m
    → ((a : A) → Steadily keep (f a))
    → Steadily keep (m >>= f)
bind-Steadily keep {A} m f h k w = go (m w).0
  where
    go : (r : Result A) → IsSteady keep w.books (go_on r f (m w).1).1.books
    go (ok a) = IsSteady-trans keep _ _ _ (h w) (k a (m w).1)
    go (err e) = h w

module _ (out : SettlementOutside) (keep : Award → Bool) where
  pub ask-Steadily : {A : Type 0} (f : Books → A) → Steadily keep (ask out f)
  ask-Steadily f w = elim (executed_books w.aborted (out.fault w.calls) (f w.books) w.books w) [
    | inl e ↦ subst (IsSteady keep w.books) (sym e) (IsSteady-refl keep w.books)
    | inr e ↦ subst (IsSteady keep w.books) (sym e) (IsSteady-refl keep w.books)
  ]

  write-Steadily :
      (f : Books → Books) → ((b : Books) → IsSteady keep b (f b)) → Steadily keep (write out f)
  write-Steadily f h w = elim (executed_books w.aborted (out.fault w.calls) tt (f w.books) w) [
    | inl e ↦ subst (IsSteady keep w.books) (sym e) (IsSteady-refl keep w.books)
    | inr e ↦ subst (IsSteady keep w.books) (sym e) (h w.books)
  ]

  enqueue-Steadily :
      (poll_id : ℕ) (event_type payload : String)
      → Steadily keep (enqueue out poll_id event_type payload)
  unfolding enqueue
  enqueue-Steadily poll_id event_type payload w =
      write-Steadily
        (λ books. record books {
          outbox =
              insert_row
                (new_row (out.new_id w.calls) "MATCH_POLL" (out.poll_text poll_id) event_type
                  payload (out.moment w.calls))
                books.outbox;
        })
        (λ b. record {
          same_settled = refl;
          same_awards = refl;
          more =
              new_row (out.new_id w.calls) "MATCH_POLL" (out.poll_text poll_id) event_type payload
                (out.moment w.calls)
              ∷ [];
          appended = refl;
        })
        w

module _ (out : SettlementOutside) (poll_id : ℕ) where
  store_awards-Steadily :
      (awards : List Award)
      → All (λ a. a.poll_id ≡ poll_id) awards
      → Steadily (of_others poll_id) (store_awards out poll_id awards)
  unfolding store_awards replace_awards
  store_awards-Steadily awards own =
      bind-Steadily (of_others poll_id)
        (write out (λ books. record books { awards = replace_awards poll_id awards books.awards }))
        (λ done. pure awards)
        (write-Steadily out (of_others poll_id)
          (λ books. record books { awards = replace_awards poll_id awards books.awards })
          (λ b. record {
            same_settled = refl;
            same_awards = kept_twice poll_id b.awards awards own;
            more = [];
            appended = sym (append-nil b.outbox);
          }))
        (λ done w. IsSteady-refl (of_others poll_id) w.books)

module _ (out : SettlementOutside) (event : Event) (m : Match) (p : Poll) where
  score_votes-Steadily :
      (result : MatchScore) (votes : List Vote)
      → Steadily (of_others p.id) (score_votes out m p result votes)
  unfolding score_votes
  score_votes-Steadily result votes =
      bind-Steadily (of_others p.id) (now out)
        (λ moment.
          store_awards out p.id
            (awards_for p (realign_to_poll_team_order result m p) m.format moment votes))
        (λ w. IsSteady-refl (of_others p.id) w.books)
        λ moment.
          store_awards-Steadily out p.id
            (awards_for p (realign_to_poll_team_order result m p) m.format moment votes)
            (awards_for-own p (realign_to_poll_team_order result m p) m.format moment votes)

  settle_started-Steadily :
      (start : Option ℕ) (result : Option MatchScore)
      → Steadily (of_others p.id) (settle_started out m p start result)
  unfolding settle_started
  settle_started-Steadily start none = λ w. IsSteady-refl (of_others p.id) w.books
  settle_started-Steadily none (some result) = λ w. IsSteady-refl (of_others p.id) w.books
  settle_started-Steadily (some start) (some result) =
      bind-Steadily (of_others p.id) (ask out (λ books. out.votes_of p.id))
        (score_votes out m p result)
        (ask-Steadily out (of_others p.id) (λ books. out.votes_of p.id))
        (score_votes-Steadily result)

  pub settle_awards-Steadily : Steadily (of_others p.id) (settle_awards out m p)
  unfolding settle_awards
  settle_awards-Steadily =
      settle_started-Steadily (or_else m.actual_started_at m.scheduled_at) m.result

  module _ (hash : List ℕ) (awards : List Award) (keep : Award → Bool) where
    recaps_for-Steadily :
        (title : String) (wants : List ℕ) (vs : List Vote)
        → Steadily keep (recaps_for out event m p hash awards title wants vs)
    unfolding recaps_for
    recaps_for-Steadily title wants [] w = IsSteady-refl keep w.books
    recaps_for-Steadily title wants (v ∷ vs) w = elim (Bool-cases (contains wants v.user_id)) [
      | inl e ↦ rw e (
          bind-Steadily keep
            (enqueue out p.id "telegram.result-recap"
              (recap_payload out event m p hash awards title v))
            (λ done. recaps_for out event m p hash awards title wants vs)
            (enqueue-Steadily out keep p.id "telegram.result-recap"
              (recap_payload out event m p hash awards title v))
            (λ done. recaps_for-Steadily title wants vs) w)
      | inr e ↦ rw e (recaps_for-Steadily title wants vs w)
    ]

    after_recipients-Steadily :
        (votes : List Vote) (recipients : Result (List ℕ))
        → Steadily keep (after_recipients out event m p hash awards votes recipients)
    unfolding after_recipients
    after_recipients-Steadily votes (err e) = λ w. IsSteady-refl keep w.books
    after_recipients-Steadily votes (ok []) = λ w. IsSteady-refl keep w.books
    after_recipients-Steadily votes (ok (u ∷ us)) =
        recaps_for-Steadily (title_of out.chat_titles p.chat_id) (u ∷ us) votes

    recap_voters-Steadily :
        (wanting : List ℕ → List ℕ) (votes : List Vote)
        → Steadily keep (recap_voters wanting out event m p hash awards votes)
    unfolding recap_voters
    recap_voters-Steadily wanting [] = λ w. IsSteady-refl keep w.books
    recap_voters-Steadily wanting (v ∷ vs) =
        bind-Steadily keep (attempt (ask out (λ books. wanting (map (λ x. x.user_id) (v ∷ vs)))))
          (after_recipients out event m p hash awards (v ∷ vs))
          (λ w. ask-Steadily out keep (λ books. wanting (map (λ x. x.user_id) (v ∷ vs))) w)
          (after_recipients-Steadily (v ∷ vs))

    with_audience-Steadily :
        (audience : Option (List ℕ → List ℕ))
        → Steadily keep (with_audience audience out event m p hash awards)
    unfolding with_audience
    with_audience-Steadily none = λ w. IsSteady-refl keep w.books
    with_audience-Steadily (some wanting) =
        bind-Steadily keep (ask out (λ books. out.votes_of p.id))
          (recap_voters wanting out event m p hash awards) (ask-Steadily out keep _)
          (recap_voters-Steadily wanting)

    pub enqueue_recaps-Steadily : Steadily keep (enqueue_recaps out event m p hash awards)
    unfolding enqueue_recaps
    enqueue_recaps-Steadily = with_audience-Steadily out.audience
