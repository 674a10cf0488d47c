-- ===== src/Scoring/Nominations/Fairness.antt =====
-- Who is given the nominations of a tournament.
use mathlib.Core.List.Perm
use mathlib.Core.Bool.{Bool-set, true≢false}
use mathlib.Core.List.{Mem, mem-cons_self, mem-cons_of_mem}
use cs2_predictor.Base.Sort.{stable_sort, stable_sort-perm, mem_All}
use cs2_predictor.Scoring.Ranking.{UserStanding}
use cs2_predictor.Base.{
  List, inl, ℕ, length, All, map, ◌||◌, arith, true, ◌==◌, [], suc, zero, ◌≤◌, Bool, ◌≡◌, ◌∷◌, inr,
  Distinct, Bool-cases, false, refl, contains, ℕ_discrete, sym, subst, ◌∙◌,
}
use cs2_predictor.Scoring.Nominations.{
  EventAward, give, is_stronger, candidates_of, pick_event_awards, Candidate, shown, EventSpecials,
}

-- A person's title is among these, or there are as many as asked for.
abbrev pub is_settled : List EventAward → ℕ → Candidate → Bool
is_settled awards limit c =
    contains (map (λ a. a.user_id) awards) c.award.user_id || (length awards == limit)

-- At most as many as asked for, no two for one person, and nobody passed over while there was room.
pub record IsFair (limit : ℕ) (cs : List Candidate) (awards : List EventAward) : Type 0 where
  pub few : length awards ≤ limit
  pub one_each : Distinct (map (λ a. a.user_id) awards)
  pub nobody_missed : All (λ c. is_settled awards limit c ≡ true) cs

length-give : (n : ℕ) (seen : List ℕ) (cs : List Candidate) → length (give n seen cs) ≤ n
unfolding give
length-give zero seen cs = omega arith
length-give (suc n) seen [] = omega arith
length-give (suc n) seen (c ∷ cs) = elim (Bool-cases (contains seen c.award.user_id)) [
  | inl e ↦ rw e (length-give (suc n) seen cs)
  | inr e ↦ rw e (omega (arith, length-give n (c.award.user_id ∷ seen) cs))
]

-- Nobody seen before is given a title.
give_fresh :
    (n : ℕ) (seen : List ℕ) (cs : List Candidate) (u : ℕ)
    → contains seen u ≡ true
    → contains (map (λ a. a.user_id) (give n seen cs)) u ≡ false
unfolding give
give_fresh zero seen cs u h = refl
give_fresh (suc n) seen [] u h = refl
give_fresh (suc n) seen (c ∷ cs) u h = elim (Bool-cases (contains seen c.award.user_id)) [
  | inl e ↦ rw e (give_fresh (suc n) seen cs u h)
  | inr e ↦ elim (ℕ_discrete c.award.user_id u) [
    | yes same ↦ absurd (true≢false (sym (subst (λ x. contains seen x ≡ true) (sym same) h) ∙ e))
    | no other ↦
        rw e (ground (arith, give_fresh n (c.award.user_id ∷ seen) cs u (ground (arith, h))))
  ]
]

give-Distinct :
    (n : ℕ) (seen : List ℕ) (cs : List Candidate) → Distinct (map (λ a. a.user_id) (give n seen cs))
unfolding give
give-Distinct zero seen cs = tt
give-Distinct (suc n) seen [] = tt
give-Distinct (suc n) seen (c ∷ cs) = elim (Bool-cases (contains seen c.award.user_id)) [
  | inl e ↦ rw e (give-Distinct (suc n) seen cs)
  | inr e ↦ rw e (
    give_fresh n (c.award.user_id ∷ seen) cs c.award.user_id (ground arith),
    give-Distinct n (c.award.user_id ∷ seen) cs,
  )
]

give_skip :
    (n : ℕ) (seen : List ℕ) (c : Candidate) (cs : List Candidate)
    → contains seen c.award.user_id ≡ true
    → give (suc n) seen cs ≡ give (suc n) seen (c ∷ cs)
unfolding give
give_skip n seen c cs e = rw e

give_take :
    (n : ℕ) (seen : List ℕ) (c : Candidate) (cs : List Candidate)
    → contains seen c.award.user_id ≡ false
    → c.award ∷ give n (c.award.user_id ∷ seen) cs ≡ give (suc n) seen (c ∷ cs)
unfolding give
give_take n seen c cs e = rw e

-- Every candidate's person was seen before or is settled.
abbrev Settled : ℕ → List ℕ → List EventAward → List Candidate → Type 0
Settled n seen awards = All (λ c. (contains seen c.award.user_id || is_settled awards n c) ≡ true)

Settled-zero : (seen : List ℕ) (cs : List Candidate) → Settled 0 seen [] cs
Settled-zero seen [] = tt
Settled-zero seen (c ∷ cs) = (ground arith, Settled-zero seen cs)

Settled-take :
    (n : ℕ) (seen : List ℕ) (a : EventAward) (awards : List EventAward) (cs : List Candidate)
    → Settled n (a.user_id ∷ seen) awards cs
    → Settled (suc n) seen (a ∷ awards) cs
Settled-take n seen a awards [] h = tt
Settled-take n seen a awards (c ∷ cs) h = (ground (arith, h.0), Settled-take n seen a awards cs h.1)

give-Settled : (n : ℕ) (seen : List ℕ) (cs : List Candidate) → Settled n seen (give n seen cs) cs
give-Settled zero seen cs =
    subst (λ awards. Settled 0 seen awards cs) (give_zero seen cs) (Settled-zero seen cs)
  where
    give_zero : (seen : List ℕ) (cs : List Candidate) → [] ≡ give 0 seen cs
    give_zero seen cs = unfold give in refl
give-Settled (suc n) seen [] = tt
give-Settled (suc n) seen (c ∷ cs) = elim (Bool-cases (contains seen c.award.user_id)) [
  | inl e ↦
      subst (λ awards. Settled (suc n) seen awards (c ∷ cs)) (give_skip n seen c cs e)
        (ground (arith, e), give-Settled (suc n) seen cs)
  | inr e ↦
      subst (λ awards. Settled (suc n) seen awards (c ∷ cs)) (give_take n seen c cs e)
        (
          ground arith,
          Settled-take n seen c.award (give n (c.award.user_id ∷ seen) cs) cs
              (give-Settled n (c.award.user_id ∷ seen) cs),
        )
]

All-intro {κ} : {A : Type 0} (P : A → Type κ) (xs : List A) → ((a : A) → Mem a xs → P a) → All P xs
All-intro P [] f = tt
All-intro P (x ∷ xs) f = (f x mem-cons_self, All-intro P xs (λ a m. f a (mem-cons_of_mem x m)))

-- The nominations that a tournament gets are at most as many as asked for (three where the limit is
-- not positive), no two for one person, and no candidate is passed over whose person has no title,
-- unless there are as many as asked for.
pub pick_event_awards-IsFair :
    (rows : List UserStanding) (s : EventSpecials) (limit : ℕ)
    → IsFair (shown limit) (candidates_of rows s) (pick_event_awards rows s limit)
unfolding pick_event_awards
pick_event_awards-IsFair rows s limit = record {
  few = length-give (shown limit) [] sorted;
  one_each = give-Distinct (shown limit) [] sorted;
  nobody_missed = All-intro _ (candidates_of rows s) (λ c m.
      mem_All is_stronger (λ d. is_settled (give (shown limit) [] sorted) (shown limit) d ≡ true)
        (λ d. Bool-set _ _) sorted (give-Settled (shown limit) [] sorted)
        ((Perm.mem_iff (stable_sort-perm is_stronger (candidates_of rows s))).1 m));
}
  where
    sorted : List Candidate
    sorted = stable_sort is_stronger (candidates_of rows s)
