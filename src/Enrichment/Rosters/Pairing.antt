-- ===== src/Enrichment/Rosters/Pairing.antt =====
-- Each player and each nickname is paired once, and each pair has its reason.
use mathlib.Core.Option.{none-ne-some}
use cs2_predictor.Enrichment.Rosters.Exact.{exact_pass-IsPassed}
use cs2_predictor.Base.{
  inr, some, ◌≤◌, [], All, ◌∷◌, Bool-cases, false, refl, map, List, if◌then◌else◌, none, arith, sym,
  ℕ, ltb, ◌++◌, ap, ◌≡◌, ◌==◌, ◌+◌, ◌∙◌, inl, Option, ◌⊎◌, subst, true,
}
use cs2_predictor.Enrichment.Rosters.{
  fuzzy_pass, match_roster, PlayerMatch, fuzzy_round, Slot, exact_pass, append_match, Reported,
  RosterCandidate, best_free, take_slot,
}
use cs2_predictor.Enrichment.Identity.{confidence_fuzzy_name}
use cs2_predictor.Enrichment.Rosters.Reasons.{
  reported_named, HasReason, open_named, matches_named, take_slot-IsUsed, same_name, matches_of,
  IsReasoned, IsUsed,
}
use cs2_predictor.Enrichment.Rosters.Slots.{
  count_where-append, IsFree, free_slots, count_where, best_free-FreeFrom, FreeFrom-zero,
  candidates_of-take_slot, candidates_of, FreeFrom,
}
use cs2_predictor.Enrichment.Names.{Unicode}
use cs2_predictor.Enrichment.Similarity.{
  fuzzy_nickname_score, player_nickname_auto_accept_threshold,
}

module _ (u : Unicode) (candidates : List RosterCandidate) where
  -- What the second loop leaves, from the nicknames left, the free slots and the pairs so far.
  record IsPaired (reported : List Reported) (slots : List Slot) (matched : List PlayerMatch)
      (unmatched : List (List ℕ)) (p : List PlayerMatch × List (List ℕ)) : Type 0 where
    players : (id : ℕ) → matches_of id p.0 ≤ matches_of id matched + free_slots id slots
    names :
        (name : List ℕ)
        → matches_named name p.0 + count_where (same_name name) p.1
          ≡ matches_named name matched
            + open_named name reported
            + count_where (same_name name) unmatched
    reasons :
        candidates_of slots ≡ candidates
        → All (IsReasoned u candidates) matched
        → All (IsReasoned u candidates) p.0

  abbrev Rest : List Reported → Type 0
  Rest more =
      (slots : List Slot) (matched : List PlayerMatch) (unmatched : List (List ℕ))
      → IsPaired more slots matched unmatched (fuzzy_pass u more slots matched unmatched)

  IsPaired-left :
      (r : Reported) (more : List Reported) (slots : List Slot) (matched : List PlayerMatch)
      (unmatched : List (List ℕ)) (p : List PlayerMatch × List (List ℕ))
      → r.taken ≡ false
      → IsPaired more slots matched (unmatched ++ r.external ∷ []) p
      → IsPaired (r ∷ more) slots matched unmatched p
  IsPaired-left r more slots matched unmatched p left_open h = record {
    players = h.players;
    names = λ name. rw left_open (
        omega
          (arith, h.names name, count_where-append (same_name name) unmatched (r.external ∷ [])));
    reasons = h.reasons;
  }

  IsPaired-matched :
      (r : Reported) (more : List Reported) (slots : List Slot) (matched : List PlayerMatch)
      (unmatched : List (List ℕ)) (j : ℕ) (p : List PlayerMatch × List (List ℕ))
      → r.taken ≡ false
      → IsUsed u candidates confidence_fuzzy_name r.external j slots matched
      → IsPaired more
          (take_slot j slots).1
          (append_match confidence_fuzzy_name r.external (take_slot j slots).0 matched)
          unmatched
          p
      → IsPaired (r ∷ more) slots matched unmatched p
  IsPaired-matched r more slots matched unmatched j p left_open t h = record {
    players = λ id. omega (arith, h.players id, t.players id);
    names = λ name. rw left_open (omega (arith, h.names name, t.names name));
    reasons = λ same all. h.reasons (candidates_of-take_slot j slots ∙ same) (t.reasons same all);
  }

  fuzzy_round-IsPaired :
      (r : Reported) (more : List Reported) (slots : List Slot) (matched : List PlayerMatch)
      (unmatched : List (List ℕ)) (found : ℕ × Option ℕ)
      → r.taken ≡ false
      → Rest more
      → best_free u r.external slots 0 0 none ≡ found
      → IsPaired
          (r ∷ more)
          slots
          matched
          unmatched
          (fuzzy_round u r.external found (fuzzy_pass u more) slots matched unmatched)
  unfolding fuzzy_round
  fuzzy_round-IsPaired r more slots matched unmatched (n, none) left_open rest e =
      IsPaired-left r more slots matched unmatched
        (fuzzy_pass u more slots matched (unmatched ++ r.external ∷ [])) left_open
        (rest slots matched (unmatched ++ r.external ∷ []))
  fuzzy_round-IsPaired r more slots matched unmatched (n, some j) left_open rest e =
      elim (Bool-cases (ltb n player_nickname_auto_accept_threshold)) [
        | inl f ↦ rw f (
            IsPaired-left r more slots matched unmatched
              (fuzzy_pass u more slots matched (unmatched ++ r.external ∷ [])) left_open
              (rest slots matched (unmatched ++ r.external ∷ [])))
        | inr f ↦ rw f (
            IsPaired-matched r more slots matched unmatched j
              (fuzzy_pass u more (take_slot j slots).1
                (append_match confidence_fuzzy_name r.external (take_slot j slots).0 matched)
                unmatched)
              left_open
              (take_slot-IsUsed u candidates confidence_fuzzy_name r.external j slots matched
                (free f (best_free-FreeFrom u r.external slots 0 0 n j none e)))
              (rest (take_slot j slots).1
                (append_match confidence_fuzzy_name r.external (take_slot j slots).0 matched)
                unmatched))
      ]
    where
      free :
          ltb n player_nickname_auto_accept_threshold ≡ false
          → ((none ≡ some j) × (0 ≡ n))
            ⊎ FreeFrom (λ c. fuzzy_nickname_score u r.external c.nickname ≡ n) 0 j slots
          → IsFree (HasReason u candidates confidence_fuzzy_name r.external) j slots
      free f (inl (same, zeroed)) = absurd (none-ne-some j same)
      free f (inr h) = FreeFrom-zero j slots (λ c scored. inr (refl, ground arith)) h

  IsPaired-aside :
      (r : Reported) (more : List Reported) (slots : List Slot) (matched : List PlayerMatch)
      (unmatched : List (List ℕ)) (p : List PlayerMatch × List (List ℕ))
      → r.taken ≡ true
      → IsPaired more slots matched unmatched p
      → IsPaired (r ∷ more) slots matched unmatched p
  IsPaired-aside r more slots matched unmatched p aside h = record {
    players = h.players;
    names = λ name. rw aside (omega (arith, h.names name));
    reasons = h.reasons;
  }

  fuzzy_pass-IsPaired : (reported : List Reported) → Rest reported
  unfolding fuzzy_pass
  fuzzy_pass-IsPaired [] slots matched unmatched = record {
    players = λ id. omega arith;
    names = λ name. omega arith;
    reasons = λ same all. all;
  }
  fuzzy_pass-IsPaired (r ∷ more) slots matched unmatched =
      let aside = fuzzy_pass u more slots matched unmatched in
      let round =
        fuzzy_round u r.external (best_free u r.external slots 0 0 none) (fuzzy_pass u more) slots
          matched unmatched in
      elim (Bool-cases r.taken) [
        | inl e ↦
            subst (λ b. IsPaired (r ∷ more) slots matched unmatched (if b then aside else round))
              (sym e)
              (IsPaired-aside r more slots matched unmatched aside e
                (fuzzy_pass-IsPaired more slots matched unmatched))
        | inr e ↦
            subst (λ b. IsPaired (r ∷ more) slots matched unmatched (if b then aside else round))
              (sym e)
              (fuzzy_round-IsPaired r more slots matched unmatched
                (best_free u r.external slots 0 0 none) e (fuzzy_pass-IsPaired more) refl)
      ]

  all_slots : List RosterCandidate → List Slot
  all_slots = map (λ c. record { candidate = c; taken = false })

  all_slots_lem :
      (cs : List RosterCandidate)
      → (candidates_of (all_slots cs) ≡ cs)
        × ((id : ℕ) → free_slots id (all_slots cs) ≡ count_where (λ c. c.player_id == id) cs)
  unfolding all_slots
  all_slots_lem [] = (refl, λ id. refl)
  all_slots_lem (c ∷ cs) =
      (ap (λ l. c ∷ l) (all_slots_lem cs).0, λ id. omega (arith, (all_slots_lem cs).1 id))

  -- A player is matched no more often than listed; a nickname with a letter in it is matched or left
  -- over as often as it is reported, and one without is neither; and each pair has its reason.
  pub record IsPairing (externals : List (List ℕ)) (p : List PlayerMatch × List (List ℕ))
      : Type 0 where
    pub once : (id : ℕ) → matches_of id p.0 ≤ count_where (λ c. c.player_id == id) candidates
    pub accounted :
        (name : List ℕ)
        → matches_named name p.0 + count_where (same_name name) p.1
          ≡ reported_named u name externals
    pub reasoned : All (IsReasoned u candidates) p.0

  -- MatchRoster, for every roster and every list of nicknames: a player is matched at most as often
  -- as the roster lists it, every nickname with a letter in it is matched or left over as often as it
  -- was reported and no other is, and a match is of a listed player whose nickname has the same
  -- normal form, or one at least as similar as the threshold asks.
  pub match_roster-IsPairing :
      (externals : List (List ℕ)) → IsPairing externals (match_roster u candidates externals)
  unfolding match_roster all_slots
  match_roster-IsPairing externals =
      let slots = all_slots candidates in
      let first = exact_pass-IsPassed u candidates externals slots [] in
      let passed = exact_pass u externals slots [] in
      let second = fuzzy_pass-IsPaired passed.0 passed.1 passed.2 [] in
      let start = all_slots_lem candidates in
      record {
        once = λ id. omega (arith, second.players id, first.players id, start.1 id);
        accounted = λ name. omega (arith, second.names name, first.names name);
        reasoned = second.reasons (first.kept ∙ start.0) (first.reasons start.0 tt);
      }
