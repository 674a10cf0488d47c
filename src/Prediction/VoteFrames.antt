-- ===== src/Prediction/VoteFrames.antt =====
-- A vote leaves everything else as it was.
use cs2_predictor.Prediction.Voting.{
  find_first-remove, vote_row, named_row, find_first-put_vote, read_as,
}
use cs2_predictor.Base.{
  ℕ, ◌≡◌, inl, String, ◌∙◌, Bool, ◌==◌, none, refl, if◌then◌else◌, ◌∷◌, false, Result, some, inr,
  subst, Option, true, ◌&&◌, sym, ok, List, suc, [], arith,
}
use cs2_predictor.Prediction.Queries.{scan_poll_found}
use cs2_predictor.Prediction.Service.{
  vote_of, record_vote, vote_on, apply_vote, takes_votes, vote_at, save_valid,
}
use cs2_predictor.Prediction.Store.{same_text, to_poll}
use cs2_predictor.Prediction.Keeps.{exec-Keeps, Keeps, bind-Keeps}
use cs2_predictor.Prediction.Effects.{Store, pure, and_then, World, PollRow, exec, Env}
use cs2_predictor.Prediction.Repository.{
  remove_vote, save_vote, find_by_telegram_poll_id, put_user, upsert_vote, drop_vote,
}
use cs2_predictor.Prediction.Poll.{option_at, PollOption, Vote, Poll}

module _ (env : Env) where
  -- A vote by one person leaves every other vote, and the polls and their options, as they were.
  pub record VoteFrame (poll_id user_id : ℕ) (s t : Store) : Type 0 where
    pub polls_stay : t.polls ≡ s.polls
    pub options_stay : t.options ≡ s.options
    pub votes_stay :
        (p u : ℕ) → (poll_id == p && user_id == u) ≡ false → vote_row p u t ≡ vote_row p u s

  VoteFrame-refl : (p u : ℕ) (s : Store) → VoteFrame p u s s
  VoteFrame-refl p u s = record {
    polls_stay = refl;
    options_stay = refl;
    votes_stay = λ q v ne. refl;
  }

  VoteFrame-trans :
      (p u : ℕ) (s t r : Store) → VoteFrame p u s t → VoteFrame p u t r → VoteFrame p u s r
  VoteFrame-trans p u s t r a b = record {
    polls_stay = b.polls_stay ∙ a.polls_stay;
    options_stay = b.options_stay ∙ a.options_stay;
    votes_stay = λ q v ne. b.votes_stay q v ne ∙ a.votes_stay q v ne;
  }

  remove_vote-VoteFrame : (p u : ℕ) (w : World) → Keeps (VoteFrame p u) (remove_vote env p u) w
  unfolding remove_vote
  remove_vote-VoteFrame p u w =
      exec-Keeps (VoteFrame p u) (VoteFrame-refl p u) (VoteFrame-trans p u) env (drop_vote env p u)
        w (λ t e. dropped t e)
    where
      dropped : (t : Store) → drop_vote env p u w.store ≡ ok t → VoteFrame p u w.store t
      dropped t e = record {
        polls_stay = ground arith;
        options_stay = ground arith;
        votes_stay = λ q v ne. ground (arith, find_first-remove env q v p u w.store.votes);
      }

  upsert_vote-VoteFrame :
      (v : Vote) (s t : Store) → upsert_vote env v s ≡ ok t → VoteFrame v.poll_id v.user_id s t
  unfolding upsert_vote
  upsert_vote-VoteFrame v s t e = record {
    polls_stay = ground arith;
    options_stay = ground arith;
    votes_stay = λ q u ne. ground (arith, find_first-put_vote env q u v s.votes);
  }

  save_vote-VoteFrame :
      (v : Vote) (w : World) → Keeps (VoteFrame v.poll_id v.user_id) (save_vote env v) w
  unfolding save_vote
  save_vote-VoteFrame v w =
      bind-Keeps (VoteFrame v.poll_id v.user_id) (VoteFrame-refl v.poll_id v.user_id)
        (VoteFrame-trans v.poll_id v.user_id) (exec env user) (λ _. exec env (upsert_vote env v)) w
        (exec-Keeps (VoteFrame v.poll_id v.user_id) (VoteFrame-refl v.poll_id v.user_id)
          (VoteFrame-trans v.poll_id v.user_id) env user w (λ t e. same_votes t e))
        (λ a e.
          exec-Keeps (VoteFrame v.poll_id v.user_id) (VoteFrame-refl v.poll_id v.user_id)
            (VoteFrame-trans v.poll_id v.user_id) env (upsert_vote env v) (exec env user w).1
            (λ t e. upsert_vote-VoteFrame v (exec env user w).1.store t e))
    where
      user : Store → Result Store
      user s = ok (record s { users = put_user env v s.users })

      same_votes : (t : Store) → user w.store ≡ ok t → VoteFrame v.poll_id v.user_id w.store t
      same_votes t e = record {
        polls_stay = ground arith;
        options_stay = ground arith;
        votes_stay = λ q u ne. ground arith;
      }

  vote_at-VoteFrame :
      (p : Poll) (u : ℕ) (ids : List ℕ) (name : Option String) (display : String) (t : ℕ)
      (w : World)
      → Keeps (VoteFrame p.id u) (vote_at env p u ids name display t) w
  unfolding vote_at
  vote_at-VoteFrame p u ids name display t w = go (takes_votes env p t) ids
    where
      one :
          (o : ℕ) (found : Option PollOption)
          → Keeps (VoteFrame p.id u) (save_valid env p (vote_of p u o name display t) found) w
      one o none = unfold save_valid in VoteFrame-refl p.id u w.store
      one o (some x) =
          unfold save_valid vote_of in save_vote-VoteFrame (vote_of p u o name display t) w

      go :
          (open_yet : Bool) (ids : List ℕ)
          → Keeps
              (VoteFrame p.id u)
              (if open_yet then apply_vote env p u ids name display t else pure tt)
              w
      go false ids = VoteFrame-refl p.id u w.store
      go true [] = unfold apply_vote in remove_vote-VoteFrame p.id u w
      go true (o ∷ []) = unfold apply_vote in one o (option_at o p.options)
      go true (a ∷ b ∷ os) = unfold apply_vote in remove_vote-VoteFrame p.id u w

  -- Whatever fails, a vote on a stored poll touches only the vote of that person on that poll.
  pub record_vote-VoteFrame :
      (tid : String) (user_id : ℕ) (ids : List ℕ) (name : Option String) (display : String)
      (w : World) (r : PollRow)
      → named_row env tid w.store ≡ some r
      → VoteFrame r.id user_id w.store (record_vote env tid user_id ids name display w).1.store
  unfolding record_vote find_by_telegram_poll_id vote_on to_poll
  record_vote-VoteFrame tid user_id ids name display w r found =
      elim (scan_poll_found env (λ r. same_text r.telegram_poll_id (some tid)) w r found) [
        | inl e ↦ subst Holds (sym e) (
            vote_at-VoteFrame (read_as env r w.store) user_id ids name display
              (env.clock (suc (suc w.calls))) (record w { calls = suc (suc (suc w.calls)) }))
        | inr (x, n, e) ↦ subst Holds (sym e) (VoteFrame-refl r.id user_id w.store)
      ]
    where
      Holds : Result (Option Poll) × World → Type 0
      Holds x =
          VoteFrame r.id user_id w.store
            (and_then x.0 (vote_on env user_id ids name display) x.1).1.store
