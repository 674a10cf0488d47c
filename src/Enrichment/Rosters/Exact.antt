-- ===== src/Enrichment/Rosters/Exact.antt =====
-- The first loop of MatchRoster: equal nicknames.
use cs2_predictor.Enrichment.Rosters.Reasons.{
  open_named, IsReasoned, take_slot-IsUsed, matches_named, matches_of, reported_named, HasReason,
  IsUsed,
}
use cs2_predictor.Enrichment.Identity.{confidence_exact_name}
use cs2_predictor.Enrichment.Names.{is_empty_text, normalize_nickname, Unicode}
use cs2_predictor.Enrichment.Rosters.{
  take_slot, RosterCandidate, is_nicknamed, add_reported, Passed, append_match, Slot, exact_round,
  first_free, exact_pass, PlayerMatch,
}
use cs2_predictor.Base.{
  List, ◌∷◌, arith, false, ◌≡◌, Bool-cases, ◌∙◌, Option, inl, ℕ, [], ◌+◌, All, some, refl, none,
  inr, true,
}
use cs2_predictor.Enrichment.Rosters.Slots.{
  candidates_of, candidates_of-take_slot, free_slots, IsFree, FreeFrom-zero, first_free-FreeFrom,
}
use cs2_predictor.Base.Splits.{same_bytes-eq}

module _ (u : Unicode) (candidates : List RosterCandidate) where
  pub record IsPassed (externals : List (List ℕ)) (slots : List Slot) (matched : List PlayerMatch)
      (p : Passed) : Type 0 where
    pub players :
        (id : ℕ)
        → matches_of id p.2 + free_slots id p.1 ≡ matches_of id matched + free_slots id slots
    pub names :
        (name : List ℕ)
        → matches_named name p.2 + open_named name p.0
          ≡ matches_named name matched + reported_named u name externals
    pub reasons :
        candidates_of slots ≡ candidates
        → All (IsReasoned u candidates) matched
        → All (IsReasoned u candidates) p.2
    pub kept : candidates_of p.1 ≡ candidates_of slots

  -- A nickname that is set aside, one that stays open, and one that is matched.
  IsPassed-aside :
      (external : List ℕ) (more : List (List ℕ)) (slots : List Slot) (matched : List PlayerMatch)
      (p : Passed)
      → is_empty_text (normalize_nickname u external) ≡ true
      → IsPassed more slots matched p
      → IsPassed
          (external ∷ more)
          slots
          matched
          (add_reported (record { external = external; taken = true }) p)
  IsPassed-aside external more slots matched p empty h = record {
    players = h.players;
    names = λ name. rw empty (omega (arith, h.names name));
    reasons = h.reasons;
    kept = h.kept;
  }

  IsPassed-open :
      (external : List ℕ) (more : List (List ℕ)) (slots : List Slot) (matched : List PlayerMatch)
      (p : Passed)
      → is_empty_text (normalize_nickname u external) ≡ false
      → IsPassed more slots matched p
      → IsPassed
          (external ∷ more)
          slots
          matched
          (add_reported (record { external = external; taken = false }) p)
  IsPassed-open external more slots matched p full h = record {
    players = h.players;
    names = λ name. rw full (omega (arith, h.names name));
    reasons = h.reasons;
    kept = h.kept;
  }

  IsPassed-matched :
      (external : List ℕ) (more : List (List ℕ)) (slots : List Slot) (matched : List PlayerMatch)
      (j : ℕ) (p : Passed)
      → is_empty_text (normalize_nickname u external) ≡ false
      → IsUsed u candidates confidence_exact_name external j slots matched
      → IsPassed more
          (take_slot j slots).1
          (append_match confidence_exact_name external (take_slot j slots).0 matched)
          p
      → IsPassed
          (external ∷ more)
          slots
          matched
          (add_reported (record { external = external; taken = true }) p)
  IsPassed-matched external more slots matched j p full t h = record {
    players = λ id. omega (arith, h.players id, t.players id);
    names = λ name. rw full (omega (arith, h.names name, t.names name));
    reasons = λ same all. h.reasons (candidates_of-take_slot j slots ∙ same) (t.reasons same all);
    kept = h.kept ∙ candidates_of-take_slot j slots;
  }

  exact_round-IsPassed :
      (external : List ℕ) (more : List (List ℕ)) (slots : List Slot) (matched : List PlayerMatch)
      (found : Option ℕ)
      → is_empty_text (normalize_nickname u external) ≡ false
      → ((slots' : List Slot) (matched' : List PlayerMatch)
          → IsPassed more slots' matched' (exact_pass u more slots' matched'))
      → first_free (is_nicknamed u (normalize_nickname u external)) slots 0 ≡ found
      → IsPassed
          (external ∷ more)
          slots
          matched
          (exact_round u external found (exact_pass u more) slots matched)
  unfolding exact_round
  exact_round-IsPassed external more slots matched none full rest e =
      IsPassed-open external more slots matched (exact_pass u more slots matched) full
        (rest slots matched)
  exact_round-IsPassed external more slots matched (some j) full rest e =
      IsPassed-matched external more slots matched j
        (exact_pass u more (take_slot j slots).1
          (append_match confidence_exact_name external (take_slot j slots).0 matched))
        full (take_slot-IsUsed u candidates confidence_exact_name external j slots matched free)
        (rest (take_slot j slots).1
          (append_match confidence_exact_name external (take_slot j slots).0 matched))
    where
      free : IsFree (HasReason u candidates confidence_exact_name external) j slots
      free =
          FreeFrom-zero j slots (λ c same. inl (refl, same_bytes-eq _ _ same))
            (first_free-FreeFrom (is_nicknamed u (normalize_nickname u external)) slots 0 j e)

  pub exact_pass-IsPassed :
      (externals : List (List ℕ)) (slots : List Slot) (matched : List PlayerMatch)
      → IsPassed externals slots matched (exact_pass u externals slots matched)
  unfolding exact_pass
  exact_pass-IsPassed [] slots matched = record {
    players = λ id. refl;
    names = λ name. refl;
    reasons = λ same all. all;
    kept = refl;
  }
  exact_pass-IsPassed (external ∷ more) slots matched =
      elim (Bool-cases (is_empty_text (normalize_nickname u external))) [
        | inl e ↦ rw e (
            IsPassed-aside external more slots matched (exact_pass u more slots matched) e
              (exact_pass-IsPassed more slots matched))
        | inr e ↦ rw e (
            exact_round-IsPassed external more slots matched
              (first_free (is_nicknamed u (normalize_nickname u external)) slots 0) e
              (exact_pass-IsPassed more) refl)
      ]
