-- ===== src/Scoring/Milestones.antt =====
-- The ladder of exact-score milestones. About internal/domain/scoring/milestone.go. Counts are never
-- negative.
use cs2_predictor.Base.{
  ◌∙◌, if◌then◌else◌, ltb, ◌≤◌, Bool, false, All, arith, ◌<◌, or_else, List, inr, none, ◌≡◌,
  Bool-cases, sym, ◌∷◌, leb, inl, Option, is_some, ap, true, [], some, ℕ, ◌&&◌, refl,
}
use cs2_predictor.Outbox.Dispatch.{count}

abbrev pub exact_milestones : List ℕ
exact_milestones = 10 ∷ 25 ∷ 50 ∷ 100 ∷ 250 ∷ 500 ∷ 1000 ∷ 2500 ∷ 5000 ∷ 10000 ∷ []

abbrev pub is_crossed : ℕ → ℕ → ℕ → Bool
is_crossed before after milestone = ltb before milestone && leb milestone after

-- The loop of CrossedMilestone, with what it has found so far.
unfoldable pub crossed_loop : ℕ → ℕ → Option ℕ → List ℕ → Option ℕ
crossed_loop before after found [] = found
crossed_loop before after found (m ∷ ms) =
    crossed_loop before after (if is_crossed before after m then some m else found) ms

unfoldable pub crossed_milestone : ℕ → ℕ → Option ℕ
crossed_milestone before after = crossed_loop before after none exact_milestones

unfoldable pub next_from : ℕ → List ℕ → Option ℕ
next_from count [] = none
next_from count (m ∷ ms) = let rest = next_from count ms in if ltb count m then some m else rest

unfoldable pub next_milestone : ℕ → Option ℕ
next_milestone count = next_from count exact_milestones

-- The highest milestone crossed, from the end of the list.
unfoldable crossed_in : ℕ → ℕ → List ℕ → Option ℕ
crossed_in before after [] = none
crossed_in before after (m ∷ ms) =
    or_else (crossed_in before after ms) (if is_crossed before after m then some m else none)

or_else_assoc : (x y z : Option ℕ) → or_else (or_else x y) z ≡ or_else x (or_else y z)
or_else_assoc none y z = refl
or_else_assoc (some x) y z = refl

or_else-none : (x : Option ℕ) → or_else x none ≡ x
or_else-none none = refl
or_else-none (some x) = refl

crossed_loop_lem :
    (before after : ℕ) (found : Option ℕ) (ms : List ℕ)
    → crossed_loop before after found ms ≡ or_else (crossed_in before after ms) found
unfolding crossed_loop crossed_in
crossed_loop_lem before after found [] = refl
crossed_loop_lem before after found (m ∷ ms) = elim (Bool-cases (is_crossed before after m)) [
  | inl e ↦ rw e (
      crossed_loop_lem before after (some m) ms
      ∙ sym (or_else_assoc (crossed_in before after ms) (some m) found))
  | inr e ↦ rw e (
      crossed_loop_lem before after found ms
      ∙ sym (ap (λ x. or_else x found) (or_else-none (crossed_in before after ms))))
]

-- None of the milestones is crossed.
crossed_in-none :
    (before after : ℕ) (ms : List ℕ)
    → All (λ m. is_crossed before after m ≡ false) ms
    → crossed_in before after ms ≡ none
unfolding crossed_in
crossed_in-none before after [] h = refl
crossed_in-none before after (m ∷ ms) h = rw (h.0, crossed_in-none before after ms h.1)

abbrev Ascends : List ℕ → Type 0
Ascends [] = Unit
Ascends (m ∷ ms) = All (λ k. m < k) ms × Ascends ms

all_map : {P Q : ℕ → Type 0} (ms : List ℕ) → ((m : ℕ) → P m → Q m) → All P ms → All Q ms
all_map [] f h = tt
all_map (m ∷ ms) f h = (f m h.0, all_map ms f h.1)

abbrev pub reaches : Option ℕ → ℕ → Bool
reaches none count = false
reaches (some m) count = leb m count

crossed_in-next_from :
    (before after : ℕ) (ms : List ℕ)
    → Ascends ms
    → is_some (crossed_in before after ms) ≡ reaches (next_from before ms) after
unfolding crossed_in next_from
crossed_in-next_from before after [] h = refl
crossed_in-next_from before after (m ∷ ms) h = elim (Bool-cases (ltb before m)) [
  | inr e ↦
      rw (e, or_else-none (crossed_in before after ms)) (crossed_in-next_from before after ms h.1)
  | inl e ↦ elim (Bool-cases (leb m after)) [
    | inl f ↦ rw (e, f) (found (crossed_in before after ms))
    | inr f ↦
        rw (e, f, crossed_in-none before after ms (all_map ms (λ k above. too_high k f above) h.0))
  ]
]
  where
    found : (x : Option ℕ) → is_some (or_else x (some m)) ≡ true
    found none = refl
    found (some x) = refl

    too_high : (k : ℕ) → leb m after ≡ false → m < k → is_crossed before after k ≡ false
    too_high k f above = ground arith

crossed_in_trans :
    (a b c : ℕ) (ms : List ℕ)
    → a ≤ b
    → b ≤ c
    → Ascends ms
    → crossed_in a c ms ≡ or_else (crossed_in b c ms) (crossed_in a b ms)
unfolding crossed_in
crossed_in_trans a b c [] h k up = refl
crossed_in_trans a b c (m ∷ ms) h k up =
    let rest = crossed_in_trans a b c ms h k up.1 in
    elim (Bool-cases (ltb b m)) [
      | inl e ↦
          let missed : is_crossed a b m ≡ false = ground arith in
          let same : is_crossed a c m ≡ is_crossed b c m = ground arith in
          let behind = crossed_in-none a b ms (all_map ms (λ n above. too_high n e above) up.0) in
          rw (missed, same, rest, behind, or_else-none (crossed_in b c ms))
            (sym (
              or_else-none
                (or_else (crossed_in b c ms) (if is_crossed b c m then some m else none))))
      | inr e ↦
          let missed : is_crossed b c m ≡ false = ground arith in
          let same : is_crossed a c m ≡ is_crossed a b m = ground arith in
          rw (missed, same, rest, or_else-none (crossed_in b c ms))
            (or_else_assoc (crossed_in b c ms) (crossed_in a b ms)
              (if is_crossed a b m then some m else none))
    ]
  where
    too_high : (n : ℕ) → ltb b m ≡ true → m < n → is_crossed a b n ≡ false
    too_high n e above = ground arith

ladder-Ascends : Ascends exact_milestones
ladder-Ascends = ground arith

crossed_milestone_lem :
    (before after : ℕ) → crossed_milestone before after ≡ crossed_in before after exact_milestones
unfolding crossed_milestone
crossed_milestone_lem before after =
    crossed_loop_lem before after none exact_milestones
    ∙ or_else-none (crossed_in before after exact_milestones)

-- A milestone is crossed exactly where the new count reaches the milestone that was next.
pub crossed_milestone-next_milestone :
    (before after : ℕ)
    → is_some (crossed_milestone before after) ≡ reaches (next_milestone before) after
unfolding next_milestone
crossed_milestone-next_milestone before after =
    ap is_some (crossed_milestone_lem before after)
    ∙ crossed_in-next_from before after exact_milestones ladder-Ascends

-- Where a count grows in two steps, the milestone of the whole is the one of the second step, or,
-- where that crosses none, the one of the first.
pub crossed_milestone_trans :
    (a b c : ℕ)
    → a ≤ b
    → b ≤ c
    → crossed_milestone a c ≡ or_else (crossed_milestone b c) (crossed_milestone a b)
crossed_milestone_trans a b c h k =
    crossed_milestone_lem a c
    ∙ crossed_in_trans a b c exact_milestones h k ladder-Ascends
    ∙ sym (
        ap (λ x. or_else x (crossed_milestone a b)) (crossed_milestone_lem b c)
        ∙ ap (or_else (crossed_in b c exact_milestones)) (crossed_milestone_lem a b))
