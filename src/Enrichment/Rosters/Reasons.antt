-- ===== src/Enrichment/Rosters/Reasons.antt =====
-- When a pair of a player and a nickname has a reason, and what one pair uses up.
use mathlib.Core.List.{Mem}
use cs2_predictor.Enrichment.Identity.{
  confidence_exact_name, confidence_fuzzy_name, MatchConfidence,
}
use cs2_predictor.Base.{
  ◌≤◌, not, ◌==◌, List, subst, ◌⊎◌, ℕ, All-append, [], ◌∷◌, refl, if◌then◌else◌, ◌≡◌, arith, All,
  Bool, ◌+◌, ◌&&◌,
}
use cs2_predictor.Enrichment.Rosters.{
  RosterCandidate, take_slot, match_of, Reported, append_match, PlayerMatch, Slot,
}
use cs2_predictor.Enrichment.Similarity.{
  player_nickname_auto_accept_threshold, fuzzy_nickname_score,
}
use cs2_predictor.Enrichment.Names.{is_empty_text, Unicode, normalize_nickname}
use cs2_predictor.Enrichment.Rosters.Slots.{
  candidates_of, free_slots, IsFree, count_where, count_where-append,
}
use cs2_predictor.Base.Splits.{same_bytes}

abbrev pub same_name : List ℕ → List ℕ → Bool
same_name name other = same_bytes other name

-- How often a player and a nickname are matched, and how often they are still free.
abbrev pub matches_of : ℕ → List PlayerMatch → ℕ
matches_of id = count_where (λ m. m.player_id == id)

abbrev pub matches_named : List ℕ → List PlayerMatch → ℕ
matches_named name = count_where (λ m. same_name name m.external_name)

abbrev pub open_named : List ℕ → List Reported → ℕ
open_named name = count_where (λ r. not r.taken && same_name name r.external)

abbrev pub reported_named : Unicode → List ℕ → List (List ℕ) → ℕ
reported_named u name =
    count_where (λ e. not (is_empty_text (normalize_nickname u e)) && same_name name e)

module _ (u : Unicode) (candidates : List RosterCandidate) where
  -- The reason of a pair, by its confidence: equal normal forms, or similarity at the threshold.
  abbrev pub HasReason : MatchConfidence → List ℕ → RosterCandidate → Type 0
  HasReason confidence external c =
      ((confidence ≡ confidence_exact_name)
        × (normalize_nickname u c.nickname ≡ normalize_nickname u external))
      ⊎ ((confidence ≡ confidence_fuzzy_name)
          × (player_nickname_auto_accept_threshold ≤ fuzzy_nickname_score u external c.nickname))

  pub record IsReasoned (m : PlayerMatch) : Type 0 where
    pub paired : RosterCandidate
    pub listed : Mem paired candidates
    pub identified : m.player_id ≡ paired.player_id
    pub reason : HasReason m.confidence m.external_name paired

  -- Taking a free slot for a nickname.
  pub record IsUsed (confidence : MatchConfidence) (external : List ℕ) (j : ℕ) (slots : List Slot)
      (matched : List PlayerMatch) : Type 0 where
    pub players :
        (id : ℕ)
        → matches_of id (append_match confidence external (take_slot j slots).0 matched)
            + free_slots id (take_slot j slots).1
          ≡ matches_of id matched + free_slots id slots
    pub names :
        (name : List ℕ)
        → matches_named name (append_match confidence external (take_slot j slots).0 matched)
          ≡ matches_named name matched + (if same_name name external then 1 else 0)
    pub reasons :
        candidates_of slots ≡ candidates
        → All IsReasoned matched
        → All IsReasoned (append_match confidence external (take_slot j slots).0 matched)

  pub take_slot-IsUsed :
      (confidence : MatchConfidence) (external : List ℕ) (j : ℕ) (slots : List Slot)
      (matched : List PlayerMatch)
      → IsFree (HasReason confidence external) j slots
      → IsUsed confidence external j slots matched
  take_slot-IsUsed confidence external j slots matched h = record {
    players = λ id. rw h.given (
        omega (
          arith,
          h.fewer id,
          count_where-append (λ (m : PlayerMatch). m.player_id == id) matched
              (match_of confidence external h.chosen ∷ []),
        ));
    names = λ name. rw h.given (
        omega (
          arith,
          count_where-append (λ (m : PlayerMatch). same_name name m.external_name) matched
              (match_of confidence external h.chosen ∷ []),
        ));
    reasons = λ same all. rw h.given (
        All-append IsReasoned matched (match_of confidence external h.chosen ∷ []) all (
          record {
            paired = h.chosen;
            listed = subst (Mem h.chosen) same h.listed;
            identified = refl;
            reason = h.fits;
          },
          tt,
        ));
  }
