-- ===== src/Prediction/Voting.antt =====
-- What a vote changes: the votes of one person on one poll, before the poll closes, and nothing
-- else.

-- The vote of a person on a poll.
use cs2_predictor.Base.{
  find_first, if◌then◌else◌, List, ok, String, ◌≡◌, ◌∷◌, [], none, keep_if, refl, arith, not, ◌==◌,
  ◌&&◌, some, Option, ℕ, suc, Bool, false, true, subst, inr, inl, sym, Result, err-ne-ok,
}
use cs2_predictor.Prediction.Effects.{VoteRow, World, Store, Env, PollRow, pure, and_then}
use cs2_predictor.Prediction.Repository.{
  remove_vote, is_vote, put_vote, save_vote, upsert_vote, find_by_telegram_poll_id,
}
use cs2_predictor.Prediction.Poll.{option_at, Vote, Poll, PollOption}
use cs2_predictor.Prediction.Service.{
  vote_at, takes_votes, apply_vote, vote_of, save_valid, record_vote, vote_on,
}
use cs2_predictor.Prediction.Store.{same_text, load_options, to_poll}
use cs2_predictor.Prediction.Queries.{scan_poll_found}

abbrev pub vote_row : ℕ → ℕ → Store → Option VoteRow
vote_row poll_id user_id s = find_first (λ r. r.poll_id == poll_id && r.user_id == user_id) s.votes

abbrev pub voted : Vote → VoteRow
voted v = record {
  poll_id = v.poll_id;
  user_id = v.user_id;
  option_index = v.option_index;
  voted_at = v.voted_at;
}

module _ (env : Env) where
  pub find_first-put_vote :
      (p u : ℕ) (v : Vote) (rows : List VoteRow)
      → find_first (λ r. r.poll_id == p && r.user_id == u) (put_vote env v rows) ≡ (
          if v.poll_id == p && v.user_id == u
          then some (voted v)
          else find_first (λ r. r.poll_id == p && r.user_id == u) rows)
  unfolding put_vote
  find_first-put_vote p u v [] = refl
  find_first-put_vote p u v (r ∷ rows) = ground (arith, find_first-put_vote p u v rows)

  pub find_first-remove :
      (p u a b : ℕ) (rows : List VoteRow)
      → find_first
          (λ r. r.poll_id == p && r.user_id == u)
          (keep_if (λ r. not (is_vote env a b r)) rows)
        ≡ (if a == p && b == u
            then none
            else find_first (λ r. r.poll_id == p && r.user_id == u) rows)
  unfolding is_vote
  find_first-remove p u a b [] = ground arith
  find_first-remove p u a b (r ∷ rows) = ground (arith, find_first-remove p u a b rows)

  -- What the rule asks: nothing after the close, a withdrawal for any other number of options than
  -- one, and one option only if it is one of the poll's.
  abbrev pub vote_after : Poll → ℕ → List ℕ → ℕ → Option VoteRow → Option VoteRow
  vote_after p user_id [] t old = if takes_votes env p t then none else old
  vote_after p user_id (o ∷ []) t old =
      if takes_votes env p t
      then elim (option_at o p.options) [
        | none ↦ old
        | some found ↦
            some (record { poll_id = p.id; user_id = user_id; option_index = o; voted_at = t })
      ]
      else old
  vote_after p user_id (a ∷ b ∷ os) t old = if takes_votes env p t then none else old

  save_vote_ok :
      (v : Vote) (w : World)
      → (save_vote env v w).0 ≡ ok tt
      → vote_row v.poll_id v.user_id (save_vote env v w).1.store ≡ some (voted v)
  unfolding save_vote upsert_vote
  save_vote_ok v w h = ground (arith, find_first-put_vote v.poll_id v.user_id v w.store.votes)

  vote_at_ok :
      (p : Poll) (user_id : ℕ) (ids : List ℕ) (name : Option String) (display : String) (t : ℕ)
      (w : World)
      → (vote_at env p user_id ids name display t w).0 ≡ ok tt
      → vote_row p.id user_id (vote_at env p user_id ids name display t w).1.store
        ≡ vote_after p user_id ids t (vote_row p.id user_id w.store)
  unfolding vote_at apply_vote remove_vote
  vote_at_ok p user_id [] name display t w h =
      ground (arith, find_first-remove p.id user_id p.id user_id w.store.votes)
  vote_at_ok p user_id (a ∷ b ∷ os) name display t w h =
      ground (arith, find_first-remove p.id user_id p.id user_id w.store.votes)
  vote_at_ok p user_id (o ∷ []) name display t w h =
      one (takes_votes env p t) (option_at o p.options) h
    where
      v : Vote
      v = vote_of p user_id o name display t

      v-keys :
          (v.poll_id ≡ p.id)
          × (voted v ≡ record { poll_id = p.id; user_id = user_id; option_index = o; voted_at = t })
      v-keys = unfold vote_of in (refl, refl)

      one :
          (open_yet : Bool) (found : Option PollOption)
          → ((if open_yet then save_valid env p v found else pure tt) w).0 ≡ ok tt
          → vote_row p.id user_id
              ((if open_yet then save_valid env p v found else pure tt) w).1.store
            ≡ (if open_yet
                then elim found [
                  | none ↦ vote_row p.id user_id w.store
                  | some o' ↦
                      some (record {
                        poll_id = p.id;
                        user_id = user_id;
                        option_index = o;
                        voted_at = t;
                      })
                ]
                else vote_row p.id user_id w.store)
      one false found h = refl
      one true none h = unfold save_valid in refl
      one true (some o') h = unfold save_valid vote_of in save_vote_ok v w h

  -- The row that a Telegram poll id names, with the options of the poll.
  abbrev pub named_row : String → Store → Option PollRow
  named_row telegram_poll_id s =
      find_first (λ r. same_text r.telegram_poll_id (some telegram_poll_id)) s.polls

  abbrev pub read_as : PollRow → Store → Poll
  read_as r s = to_poll r (load_options r.id s)

  -- On a stored poll, a vote that returns without an error leaves the person's vote on the poll as the rule asks, by
  -- the clock read after the poll was found.
  pub record_vote_ok :
      (tid : String) (user_id : ℕ) (ids : List ℕ) (name : Option String) (display : String)
      (w : World) (r : PollRow)
      → named_row tid w.store ≡ some r
      → (record_vote env tid user_id ids name display w).0 ≡ ok tt
      → vote_row r.id user_id (record_vote env tid user_id ids name display w).1.store
        ≡ vote_after
            (read_as r w.store)
            user_id
            ids
            (env.clock (suc (suc w.calls)))
            (vote_row r.id user_id w.store)
  unfolding record_vote find_by_telegram_poll_id vote_on to_poll
  record_vote_ok tid user_id ids name display w r found h =
      elim (scan_poll_found env (λ r. same_text r.telegram_poll_id (some tid)) w r found) [
        | inl e ↦
            subst Holds (sym e) (λ k. vote_at_ok (read_as r w.store) user_id ids name display _ _ k)
              h
        | inr (x, n, e) ↦ subst Holds (sym e) (λ k. absurd (err-ne-ok x tt k)) h
      ]
    where
      Holds : Result (Option Poll) × World → Type 0
      Holds x =
          (and_then x.0 (vote_on env user_id ids name display) x.1).0 ≡ ok tt
          → vote_row r.id user_id (and_then x.0 (vote_on env user_id ids name display) x.1).1.store
            ≡ vote_after (read_as r w.store) user_id ids (env.clock (suc (suc w.calls)))
                (vote_row r.id user_id w.store)
