-- ===== src/Prediction/Creation.antt =====
-- Creating a poll: one for a match and a chat, rendered from the match that it was created for.
use cs2_predictor.Prediction.Effects.{
  ◌>>=◌, and_then, now, called, fail, PollRow, Env, World, Store, gateway_send, query, pure, M,
  fresh_id, exec,
}
use cs2_predictor.Prediction.Poll.{Poll, poll_open, SentPoll}
use cs2_predictor.Base.{
  Option, ok, true, Bool-cases, Bool, some, if◌then◌else◌, Result, err-ne-ok, none, false, ◌&&◌,
  ltb, ◌==◌, inr, subst, sym, error, inl, ◌≡◌, err, refl, ℕ, Error, find_first, arith, ◌∙◌, List,
  suc, length, ◌∷◌, ap, [], ◌≤◌, ◌⊎◌,
}
use cs2_predictor.Prediction.Service.{
  create_at, create_unless, create, draft, after_send, send_stored, number_from, team_id, create_as,
  fits_telegram, create_new,
}
use cs2_predictor.Prediction.Repository.{
  find_by_match_and_chat, save_options, save_poll, write_options, insert_options, scan_poll,
}
use cs2_predictor.Prediction.Queries.{scan_poll_found, scan_poll_absent}
use cs2_predictor.Prediction.Store.{to_poll, options_of, upsert_poll}
use cs2_predictor.Competition.Catalog.{Match, participants_known}
use cs2_predictor.Competition.Series.{possible_scores, MatchScore}
use cs2_predictor.Prediction.Keeps.{bind_ok}

-- The row of a match in a chat.
abbrev pub match_row : ℕ → ℕ → Store → Option PollRow
match_row match_id chat_id s =
    find_first (λ r. r.match_id == match_id && r.chat_id == chat_id) s.polls

-- A poll that is returned has this id.
abbrev pub HasId : ℕ → Result Poll → Type 0
HasId id (ok p) = p.id ≡ id
HasId id (err e) = Unit {0}

module _ (env : Env) (m : Match) (chat_id : ℕ) (topic_id : Option ℕ) where
  -- Where the chat has a poll for the match already, nothing is written and nothing is sent, whatever
  -- fails; and if the call returns a poll, it is that one.
  pub create_existing :
      (w : World) (r : PollRow)
      → match_row m.id chat_id w.store ≡ some r
      → ((create env m chat_id topic_id w).1.store ≡ w.store)
        × ((create env m chat_id topic_id w).1.sent ≡ w.sent)
        × HasId r.id (create env m chat_id topic_id w).0
  unfolding create find_by_match_and_chat to_poll create_unless create_at
  create_existing w r found = go (participants_known m) m.scheduled_at
    where
      Holds : Result Poll × World → Type 0
      Holds x = (x.1.store ≡ w.store) × (x.1.sent ≡ w.sent) × HasId r.id x.0

      failed : (e : Error) (n : ℕ) → Holds (err e, record w { calls = n })
      failed e n = (refl, refl, tt)

      Reads : ℕ → Result (Option Poll) × World → Type 0
      Reads at x = Holds (and_then x.0 (create_unless env m chat_id topic_id at) x.1)

      read :
          (at : ℕ)
          → Holds (
              (find_by_match_and_chat env m.id chat_id >>= create_unless env m chat_id topic_id at)
                (called w))
      read at =
          elim (scan_poll_found env (λ r. r.match_id == m.id && r.chat_id == chat_id) (called w) r
            found) [
              | inl e ↦ subst (Reads at) (sym e) ((refl, refl, refl))
              | inr (x, n, e) ↦ subst (Reads at) (sym e) (failed x n)
            ]

      at_time :
          (o : Option ℕ) → Holds (create_at env m chat_id topic_id o (env.clock w.calls) (called w))
      at_time none = failed (error "match must be scheduled in the future") (suc w.calls)
      at_time (some at) = elim (Bool-cases (ltb (env.clock w.calls) at)) [
        | inl e ↦ rw e (read at)
        | inr e ↦ rw e (failed (error "match must be scheduled in the future") (suc w.calls))
      ]

      go :
          (known : Bool) (o : Option ℕ)
          → Holds (
              (if known
                  then now env >>= create_at env m chat_id topic_id o
                  else fail (error "both participants must be known"))
                w)
      go false o = failed (error "both participants must be known") w.calls
      go true o = at_time o

-- What a new poll shows is fixed by the match that it was created for.
pub record IsPollOf (m : Match) (chat_id : ℕ) (p : Poll) : Type 0 where
  pub of_chat : p.chat_id ≡ chat_id
  pub of_match : p.match_id ≡ m.id
  pub offers : p.options ≡ number_from 0 (possible_scores m.format)
  pub few_options : (2 ≤ length p.options) × (length p.options ≤ 12)
  pub is_new : p.status ≡ poll_open
  pub closes_at_start : m.scheduled_at ≡ some p.closes_at
  pub anchored :
      (p.first_team_id ≡ team_id m.first_team) × (p.second_team_id ≡ team_id m.second_team)

length-number_from : (i : ℕ) (ss : List MatchScore) → length (number_from i ss) ≡ length ss
unfolding number_from
length-number_from i [] = refl
length-number_from i (s ∷ ss) = ap suc (length-number_from (suc i) ss)

module _ (env : Env) where
  save_poll_ok : (p q : Poll) (w : World) → (save_poll env p w).0 ≡ ok q → q ≡ p
  unfolding save_poll save_options write_options
  save_poll_ok p q w h =
      let (a, ha, k) = bind_ok (exec env (upsert_poll p)) (λ _. save_options env p) w q h in
      let (n, hn, l) =
        bind_ok (query env count) (write_options env p) (exec env (upsert_poll p) w).1 q k in
      let (u, hu, e) =
        bind_ok (options n) (λ _. pure p) (query env count (exec env (upsert_poll p) w).1).1 q l in
      cc
    where
      count : Store → ℕ
      count s = length (options_of p.id s.options)

      options : ℕ → M (Unit {0})
      options n = if n == 0 then insert_options env p.id p.options else pure tt

  module _ (m : Match) (chat_id : ℕ) (topic_id : Option ℕ) where
    draft-IsPollOf :
        (at id : ℕ)
        → m.scheduled_at ≡ some at
        → fits_telegram (length (possible_scores m.format)) ≡ true
        → IsPollOf m chat_id (draft m chat_id topic_id at id)
    unfolding draft
    draft-IsPollOf at id e fits = record {
      of_chat = refl;
      of_match = refl;
      offers = refl;
      few_options = ground (arith, length-number_from 0 (possible_scores m.format));
      is_new = refl;
      closes_at_start = e;
      anchored = (refl, refl);
    }

    create_as_ok :
        (at id : ℕ) (w : World) (p : Poll)
        → (create_as env m chat_id topic_id at id w).0 ≡ ok p
        → (s : SentPoll) × (p ≡ after_send (draft m chat_id topic_id at id) s)
    unfolding create_as send_stored
    create_as_ok at id w p h =
        let (d, hd, k) =
          bind_ok (save_poll env (draft m chat_id topic_id at id)) (send_stored env) w p h in
        let (s, hs, l) = bind_ok (gateway_send env d) (λ s. save_poll env (after_send d s)) _ p k in
        (s, save_poll_ok _ p _ l ∙ ap (λ d. after_send d s) (save_poll_ok _ d w hd))

    create_new_ok :
        (at : ℕ) (w : World) (p : Poll)
        → m.scheduled_at ≡ some at
        → (create_new env m chat_id topic_id at w).0 ≡ ok p
        → IsPollOf m chat_id p
    unfolding create_new after_send
    create_new_ok at w p e h = go (Bool-cases (fits_telegram (length (possible_scores m.format)))) h
      where
        Body : Bool → Type 0
        Body b =
            ((if b
                then fresh_id env >>= create_as env m chat_id topic_id at
                else fail (error "telegram polls support between 2 and 12 options"))
              w).0
            ≡ ok p

        go :
            ((fits_telegram (length (possible_scores m.format)) ≡ true)
              ⊎ (fits_telegram (length (possible_scores m.format)) ≡ false))
            → Body (fits_telegram (length (possible_scores m.format)))
            → IsPollOf m chat_id p
        go (inr no_fit) k = absurd (err-ne-ok _ p (subst Body no_fit k))
        go (inl fits) k =
            let (s, same) = create_as_ok at (env.new_id w.calls) (called w) p (subst Body fits k) in
            let base = draft-IsPollOf at (env.new_id w.calls) e fits in
            subst (IsPollOf m chat_id) (sym same) (record {
              of_chat = base.of_chat;
              of_match = base.of_match;
              offers = base.offers;
              few_options = base.few_options;
              is_new = base.is_new;
              closes_at_start = base.closes_at_start;
              anchored = base.anchored;
            })

    -- Where the chat has no poll for the match, a call that returns one has made it from the match:
    -- its options are the possible scores in order, numbered from 0, between 2 and 12 of them, it is
    -- open until the match starts, and it is anchored to the two teams.
    pub create_ok :
        (w : World) (p : Poll)
        → match_row m.id chat_id w.store ≡ none
        → (create env m chat_id topic_id w).0 ≡ ok p
        → IsPollOf m chat_id p
    unfolding create create_at create_unless find_by_match_and_chat
    create_ok w p absent h = known (participants_known m) h
      where
        Test : PollRow → Bool
        Test r = r.match_id == m.id && r.chat_id == chat_id

        found :
            (at : ℕ) (a : Option Poll) (w' : World)
            → m.scheduled_at ≡ some at
            → a ≡ none
            → (create_unless env m chat_id topic_id at a w').0 ≡ ok p
            → IsPollOf m chat_id p
        found at none w' e n k = create_new_ok at w' p e k
        found at (some q) w' e n k = cc

        in_time :
            (at : ℕ)
            → m.scheduled_at ≡ some at
            → ((scan_poll env Test >>= create_unless env m chat_id topic_id at) (called w)).0 ≡ ok p
            → IsPollOf m chat_id p
        in_time at e k =
            let (a, ha, l) =
              bind_ok (scan_poll env Test) (create_unless env m chat_id topic_id at) (called w) p
                k in
            found at a (scan_poll env Test (called w)).1 e
              (scan_poll_absent env Test (called w) a absent ha) l

        timed :
            (at : ℕ) (b : Bool)
            → m.scheduled_at ≡ some at
            → ((if b
                  then scan_poll env Test >>= create_unless env m chat_id topic_id at
                  else fail (error "match must be scheduled in the future"))
                (called w)).0
              ≡ ok p
            → IsPollOf m chat_id p
        timed at true e k = in_time at e k
        timed at false e k = absurd (err-ne-ok _ p k)

        scheduled :
            (o : Option ℕ)
            → m.scheduled_at ≡ o
            → (create_at env m chat_id topic_id o (env.clock w.calls) (called w)).0 ≡ ok p
            → IsPollOf m chat_id p
        scheduled none e k = absurd (err-ne-ok _ p k)
        scheduled (some at) e k = timed at (ltb (env.clock w.calls) at) e k

        known :
            (b : Bool)
            → ((if b
                  then now env >>= create_at env m chat_id topic_id m.scheduled_at
                  else fail (error "both participants must be known"))
                w).0
              ≡ ok p
            → IsPollOf m chat_id p
        known true k = scheduled m.scheduled_at refl k
        known false k = absurd (err-ne-ok _ p k)
