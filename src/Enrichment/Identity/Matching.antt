-- ===== src/Enrichment/Identity/Matching.antt =====
-- When MatchTeam identifies a team by its roster.
use mathlib.Core.Option.{none-ne-some, some-ne-none}
use cs2_predictor.Enrichment.Identity.{
  MatchConfidence, has_alias, TeamIdentity, best_roster, confidence_roster, confidence_alias,
  is_named, match_team, by_roster, matched_by, TeamCandidate, match_roster_of,
  confidence_exact_name,
}
use cs2_predictor.Base.{
  ap, ◌∷◌, ◌↔◌, ℕ, refl, none, some, false, or_else, List, Option, ◌≡◌, if◌then◌else◌, arith,
  find_first, [], ◌∙◌,
}
use cs2_predictor.Enrichment.Names.{Unicode, is_empty_text, normalize_team_name}
use cs2_predictor.Enrichment.Identity.Leaders.{
  IsLeader, best_roster-Ends, best_roster-leader, by_roster-Ends, overlap_nil,
}

module _ (u : Unicode) (cs : List TeamCandidate) where
  match_roster_of_iff :
      (roster : List (List ℕ)) (id : ℕ)
      → (match_roster_of u cs roster ≡ some (id, confidence_roster)) ↔ IsLeader u roster cs id
  unfolding match_roster_of by_roster
  match_roster_of_iff [] id = (
    λ h. absurd (none-ne-some _ h),
    λ l. absurd (omega (arith, overlap_nil u l.leader.roster, l.enough)),
  )
  match_roster_of_iff (p ∷ ps) id = (
    by_roster-Ends u (p ∷ ps) cs (best_roster u (p ∷ ps) cs 0 0 false) id
        (best_roster-Ends u (p ∷ ps) cs 0 0 false),
    back,
  )
    where
      back :
          IsLeader u (p ∷ ps) cs id
          → by_roster u (best_roster u (p ∷ ps) cs 0 0 false) ≡ some (id, confidence_roster)
      back l =
          let run =
            best_roster-leader u (p ∷ ps) l.earlier l.leader l.later 0 0 false
              (omega (arith, l.enough)) l.enough l.above_earlier l.above_later in
          ap (λ t. by_roster u (best_roster u (p ∷ ps) t 0 0 false)) l.listed
          ∙ ap (by_roster u) run
          ∙ ground (arith, l.enough, l.identified)

  -- A name or an alias comes before a roster: no candidate may have either.
  abbrev pub NoneNamed : List ℕ → Type 0
  NoneNamed norm =
      (find_first (is_named u norm) cs ≡ none) × (find_first (has_alias u norm) cs ≡ none)

  first_answer :
      (id : ℕ) {L : Type 0} (named known : Option TeamCandidate)
      (found : Option (ℕ × MatchConfidence))
      → (found ≡ some (id, confidence_roster)) ↔ L
      → (or_else
            (matched_by u confidence_exact_name named)
            (or_else (matched_by u confidence_alias known) found)
          ≡ some (id, confidence_roster))
        ↔ ((named ≡ none) × (known ≡ none) × L)
  unfolding matched_by
  first_answer id (some c) known found e = (λ h. cc, λ h. absurd (some-ne-none c h.0))
  first_answer id none (some c) found e = (λ h. cc, λ h. absurd (some-ne-none c h.1))
  first_answer id none none found e = (λ h. (refl, refl, e.0 h), λ h. e.1 h.2)

  -- A team is identified by its roster exactly where its name is not empty, no candidate has it as
  -- its name or alias, and one candidate shares at least three players, and more than any other.
  pub match_team-roster_iff :
      (external : TeamIdentity) (id : ℕ)
      → (match_team u cs external ≡ some (id, confidence_roster)) ↔ (
          (is_empty_text (normalize_team_name u external.name) ≡ false)
          × NoneNamed (normalize_team_name u external.name)
          × IsLeader u external.roster cs id)
  unfolding match_team
  match_team-roster_iff external id = go (normalize_team_name u external.name)
    where
      go :
          (norm : List ℕ)
          → ((if is_empty_text norm
                then none
                else or_else
                    (matched_by u confidence_exact_name (find_first (is_named u norm) cs))
                    (or_else
                      (matched_by u confidence_alias (find_first (has_alias u norm) cs))
                      (match_roster_of u cs external.roster)))
              ≡ some (id, confidence_roster))
            ↔ ((is_empty_text norm ≡ false) × NoneNamed norm × IsLeader u external.roster cs id)
      go [] = (λ h. absurd (none-ne-some _ h), λ h. cc (h.0))
      go (c ∷ norm) =
          let e =
            first_answer id (find_first (is_named u (c ∷ norm)) cs)
              (find_first (has_alias u (c ∷ norm)) cs) (match_roster_of u cs external.roster)
              (match_roster_of_iff external.roster id) in
          (λ h. let r = e.0 h in (refl, (r.0, r.1), r.2), λ h. e.1 (h.1.0, h.1.1, h.2))
