-- ===== src/Enrichment/Identity/Leaders.antt =====
-- The candidate that shares strictly more players than all others, if there is one. About the last
-- step of MatchTeam in internal/domain/enrichment/identity.go.
use cs2_predictor.Enrichment.Identity.{
  best_roster, overlap, min_roster_overlap, TeamCandidate, by_roster, confidence_roster,
}
use cs2_predictor.Base.{
  ◌++◌, List, arith, ◌≤◌, ◌∷◌, false, ℕ, All, refl, Bool, ◌≡◌, true, ◌⊎◌, [], ◌<◌, ◌==◌, sym, inr,
  inl, Bool-cases, ap, ltb, leb, ◌&&◌, some, not, subst,
}
use cs2_predictor.Enrichment.Names.{Unicode}

module _ (u : Unicode) (external : List (List ℕ)) where
  -- Fewer players are shared than n.
  abbrev pub SharesLess : ℕ → TeamCandidate → Type 0
  SharesLess n c = overlap u external c.roster < n

  -- One candidate shares at least three players, and all others share fewer than it.
  pub record IsLeader (candidates : List TeamCandidate) (id : ℕ) : Type 0 where
    pub earlier : List TeamCandidate
    pub leader : TeamCandidate
    pub later : List TeamCandidate
    pub listed : candidates ≡ earlier ++ leader ∷ later
    pub identified : leader.team_id ≡ id
    pub enough : min_roster_overlap ≤ overlap u external leader.roster
    pub above_earlier : All (SharesLess (overlap u external leader.roster)) earlier
    pub above_later : All (SharesLess (overlap u external leader.roster)) later

  best_roster-rest :
      (cs : List TeamCandidate) (best n : ℕ) (ambiguous : Bool)
      → All (SharesLess n) cs
      → best_roster u external cs best n ambiguous ≡ (best, n, ambiguous)
  unfolding best_roster
  best_roster-rest [] best n ambiguous h = refl
  best_roster-rest (c ∷ cs) best n ambiguous h =
      ground (arith, best_roster-rest cs best n ambiguous)

  pub best_roster-leader :
      (earlier : List TeamCandidate) (c : TeamCandidate) (later : List TeamCandidate) (best n : ℕ)
      (ambiguous : Bool)
      → n < overlap u external c.roster
      → min_roster_overlap ≤ overlap u external c.roster
      → All (SharesLess (overlap u external c.roster)) earlier
      → All (SharesLess (overlap u external c.roster)) later
      → best_roster u external (earlier ++ c ∷ later) best n ambiguous
        ≡ (c.team_id, overlap u external c.roster, false)
  unfolding best_roster
  best_roster-leader [] c later best n ambiguous h enough below above =
      ground (arith, best_roster-rest later c.team_id (overlap u external c.roster) false)
  best_roster-leader (d ∷ earlier) c later best n ambiguous h enough below above =
      let m = overlap u external d.roster in
      ground (
        arith,
        best_roster-leader earlier c later best n ambiguous h enough below.1 above,
        best_roster-leader earlier c later best n true h enough below.1 above,
        best_roster-leader earlier c later d.team_id m false below.0 enough below.1 above,
      )

  -- What an unambiguous end says of the candidates left, from what was found so far: nothing new, or
  -- a leader among them.
  abbrev Ends : List TeamCandidate → ℕ → ℕ → Bool → ℕ × ℕ × Bool → Type 0
  Ends cs best n ambiguous answer =
      ((answer.0 ≡ best) × (answer.1 ≡ n) × (ambiguous ≡ false) × All (SharesLess n) cs)
      ⊎ ((l : IsLeader cs answer.0) × (overlap u external l.leader.roster ≡ answer.1)
          × (n < answer.1))

  abbrev IsClear : ℕ × ℕ × Bool → Type 0
  IsClear answer = (answer.2 ≡ false) × (min_roster_overlap ≤ answer.1)

  -- A candidate in front that shares less.
  later_leader :
      (c : TeamCandidate) (cs : List TeamCandidate) (id : ℕ)
      → (l : IsLeader cs id) → SharesLess (overlap u external l.leader.roster) c
      → IsLeader (c ∷ cs) id
  later_leader c cs id l h = record {
    earlier = c ∷ l.earlier;
    leader = l.leader;
    later = l.later;
    listed = ap (λ t. c ∷ t) l.listed;
    identified = l.identified;
    enough = l.enough;
    above_earlier = (h, l.above_earlier);
    above_later = l.above_later;
  }

  -- A candidate that changes nothing, one that ties, and one that leads so far.
  Ends-skipped :
      (c : TeamCandidate) (cs : List TeamCandidate) (best n : ℕ) (ambiguous : Bool)
      (answer : ℕ × ℕ × Bool)
      → (overlap u external c.roster < n) ⊎ (overlap u external c.roster < min_roster_overlap)
      → IsClear answer
      → Ends cs best n ambiguous answer
      → Ends (c ∷ cs) best n ambiguous answer
  unfolding later_leader
  Ends-skipped c cs best n ambiguous answer small clear (inl (e, f, g, all)) =
      inl (e, f, g, (ground arith, all))
  Ends-skipped c cs best n ambiguous answer small clear (inr (l, e, f)) =
      inr (later_leader c cs answer.0 l (ground arith), e, f)

  Ends-tied :
      (c : TeamCandidate) (cs : List TeamCandidate) (best n : ℕ) (ambiguous : Bool)
      (answer : ℕ × ℕ × Bool)
      → overlap u external c.roster ≡ n
      → Ends cs best n true answer
      → Ends (c ∷ cs) best n ambiguous answer
  unfolding later_leader
  Ends-tied c cs best n ambiguous answer same (inl (e, f, g, all)) = cc
  Ends-tied c cs best n ambiguous answer same (inr (l, e, f)) =
      inr (later_leader c cs answer.0 l (omega arith), e, f)

  Ends-better :
      (c : TeamCandidate) (cs : List TeamCandidate) (best n : ℕ) (ambiguous : Bool)
      (answer : ℕ × ℕ × Bool)
      → n < overlap u external c.roster
      → IsClear answer
      → Ends cs c.team_id (overlap u external c.roster) false answer
      → Ends (c ∷ cs) best n ambiguous answer
  unfolding later_leader
  Ends-better c cs best n ambiguous answer more clear (inl (e, f, g, all)) = inr (
    record {
      earlier = [];
      leader = c;
      later = cs;
      listed = refl;
      identified = sym e;
      enough = omega (arith, clear.1);
      above_earlier = tt;
      above_later = all;
    },
    sym f,
    omega arith,
  )
  Ends-better c cs best n ambiguous answer more clear (inr (l, e, f)) =
      inr (later_leader c cs answer.0 l (omega arith), e, omega arith)

  pub best_roster-Ends :
      (cs : List TeamCandidate) (best n : ℕ) (ambiguous : Bool)
      → IsClear (best_roster u external cs best n ambiguous)
      → Ends cs best n ambiguous (best_roster u external cs best n ambiguous)
  unfolding best_roster
  best_roster-Ends [] best n ambiguous = λ clear. inl (refl, refl, clear.0, tt)
  best_roster-Ends (c ∷ cs) best n ambiguous =
      let m = overlap u external c.roster in
      elim (Bool-cases (ltb m min_roster_overlap)) [
        | inl e ↦ rw e (λ clear.
            Ends-skipped c cs best n ambiguous (best_roster u external cs best n ambiguous)
              (inr (ground arith)) clear (best_roster-Ends cs best n ambiguous clear))
        | inr e ↦ elim (Bool-cases (ltb n m)) [
          | inl f ↦
              rw (e, f)
                (λ clear.
                  Ends-better c cs best n ambiguous (best_roster u external cs c.team_id m false)
                    (ground arith) clear (best_roster-Ends cs c.team_id m false clear))
          | inr f ↦ elim (Bool-cases (m == n)) [
            | inl g ↦
                rw (e, f, g)
                  (λ clear.
                    Ends-tied c cs best n ambiguous (best_roster u external cs best n true)
                      (ground arith) (best_roster-Ends cs best n true clear))
            | inr g ↦
                rw (e, f, g)
                  (λ clear.
                    Ends-skipped c cs best n ambiguous (best_roster u external cs best n ambiguous)
                      (inl (ground arith)) clear (best_roster-Ends cs best n ambiguous clear))
          ]
        ]
      ]

  pub by_roster-Ends :
      (cs : List TeamCandidate) (answer : ℕ × ℕ × Bool) (id : ℕ)
      → (IsClear answer → Ends cs 0 0 false answer)
      → by_roster u answer ≡ some (id, confidence_roster)
      → IsLeader cs id
  unfolding by_roster
  by_roster-Ends cs (best, n, ambiguous) id ends h =
      elim (Bool-cases (leb min_roster_overlap n && not ambiguous)) [
        | inl e ↦
            let clear : IsClear (best, n, ambiguous) = (ground arith, ground arith) in
            let same : best ≡ id = cc (rw e at h) in
            subst (IsLeader cs) same (led (ends clear) clear.1)
        | inr e ↦ cc (rw e at h)
      ]
    where
      led : Ends cs 0 0 false (best, n, ambiguous) → min_roster_overlap ≤ n → IsLeader cs best
      led (inl (e, f, g, all)) k = absurd (omega arith)
      led (inr (l, e, f)) k = l

pub overlap_nil : (u : Unicode) (ps : List (List ℕ)) → overlap u [] ps ≡ 0
unfolding overlap
overlap_nil u [] = refl
overlap_nil u (p ∷ ps) = overlap_nil u ps
