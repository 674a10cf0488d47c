-- ===== src/Enrichment/Rosters/Slots.antt =====
-- Choosing a free slot and taking it.
use mathlib.Core.Option.{none-ne-some}
use mathlib.Core.List.{Mem, mem-cons_self, mem-cons_of_mem}
use cs2_predictor.Base.{
  ap, [], Bool-cases, true, ◌∷◌, inl, Option, false, refl, map, suc, if◌then◌else◌, zero, ◌++◌, inr,
  ◌||◌, ◌+◌, ◌&&◌, Bool, some, ◌⊎◌, arith, ◌≡◌, ◌==◌, List, ℕ, not, ltb, subst,
}
use cs2_predictor.Enrichment.Rosters.{Slot, RosterCandidate, best_free, first_free, take_slot}
use cs2_predictor.Enrichment.Names.{Unicode}
use cs2_predictor.Enrichment.Similarity.{fuzzy_nickname_score}

abbrev pub count_where {ℓ} : {A : Type ℓ} → (A → Bool) → List A → ℕ
count_where p [] = 0
count_where p (x ∷ xs) = (if p x then 1 else 0) + count_where p xs

pub count_where-append {ℓ} :
    {A : Type ℓ} (p : A → Bool) (xs ys : List A)
    → count_where p (xs ++ ys) ≡ count_where p xs + count_where p ys
count_where-append p [] ys = omega arith
count_where-append p (x ∷ xs) ys = omega (arith, count_where-append p xs ys)

-- The player's free slots.
abbrev pub free_slots : ℕ → List Slot → ℕ
free_slots id = count_where (λ s. not s.taken && (s.candidate.player_id == id))

abbrev pub candidates_of : List Slot → List RosterCandidate
candidates_of = map (λ s. s.candidate)

-- The slot at the index is free: taking it gives its candidate, and changes nothing else.
pub record IsFree (P : RosterCandidate → Type 0) (i : ℕ) (slots : List Slot) : Type 0 where
  pub chosen : RosterCandidate
  pub given : (take_slot i slots).0 ≡ some chosen
  pub fits : P chosen
  pub listed : Mem chosen (candidates_of slots)
  pub fewer :
      (id : ℕ)
      → free_slots id slots
        ≡ free_slots id (take_slot i slots).1 + (if chosen.player_id == id then 1 else 0)

IsFree-first :
    {P : RosterCandidate → Type 0} (s : Slot) (slots : List Slot)
    → s.taken ≡ false
    → P s.candidate
    → IsFree P 0 (s ∷ slots)
unfolding take_slot
IsFree-first s slots free p = record {
  chosen = s.candidate;
  given = refl;
  fits = p;
  listed = mem-cons_self;
  fewer = λ id. ground arith;
}

IsFree-later :
    {P : RosterCandidate → Type 0} (s : Slot) (slots : List Slot) (i : ℕ)
    → IsFree P i slots
    → IsFree P (suc i) (s ∷ slots)
unfolding take_slot
IsFree-later s slots i h = record {
  chosen = h.chosen;
  given = h.given;
  fits = h.fits;
  listed = mem-cons_of_mem s.candidate h.listed;
  fewer = λ id. omega (arith, h.fewer id);
}

pub candidates_of-take_slot :
    (i : ℕ) (slots : List Slot) → candidates_of (take_slot i slots).1 ≡ candidates_of slots
unfolding take_slot
candidates_of-take_slot i [] = refl
candidates_of-take_slot zero (s ∷ slots) = refl
candidates_of-take_slot (suc i) (s ∷ slots) =
    ap (λ l. s.candidate ∷ l) (candidates_of-take_slot i slots)

-- An index that counts from k.
abbrev pub FreeFrom : (RosterCandidate → Type 0) → ℕ → ℕ → List Slot → Type 0
FreeFrom P k j slots = (i : ℕ) × (j ≡ k + i) × IsFree P i slots

FreeFrom-later :
    {P : RosterCandidate → Type 0} (k j : ℕ) (s : Slot) (slots : List Slot)
    → FreeFrom P (suc k) j slots
    → FreeFrom P k j (s ∷ slots)
FreeFrom-later k j s slots (i, e, h) = (suc i, omega arith, IsFree-later s slots i h)

pub first_free-FreeFrom :
    (test : RosterCandidate → Bool) (slots : List Slot) (k j : ℕ)
    → first_free test slots k ≡ some j
    → FreeFrom (λ c. test c ≡ true) k j slots
unfolding first_free
first_free-FreeFrom test [] k j = λ h. absurd (none-ne-some j h)
first_free-FreeFrom test (s ∷ slots) k j = elim (Bool-cases (s.taken || not (test s.candidate))) [
  | inl e ↦ rw e (λ h. FreeFrom-later k j s slots (first_free-FreeFrom test slots (suc k) j h))
  | inr e ↦ rw e (λ h. (0, ground arith, IsFree-first s slots (ground arith) (ground arith)))
]

pub best_free-FreeFrom :
    (u : Unicode) (external : List ℕ) (slots : List Slot) (k so_far n j : ℕ) (best : Option ℕ)
    → best_free u external slots k so_far best ≡ (n, some j)
    → ((best ≡ some j) × (so_far ≡ n))
      ⊎ FreeFrom (λ c. fuzzy_nickname_score u external c.nickname ≡ n) k j slots
unfolding best_free
best_free-FreeFrom u external [] k so_far n j best h = inl (ap (λ t. t.1) h, ap (λ t. t.0) h)
best_free-FreeFrom u external (s ∷ slots) k so_far n j best h = elim (Bool-cases s.taken) [
  | inl e ↦ later (best_free-FreeFrom u external slots (suc k) so_far n j best (rw e at h))
  | inr e ↦ elim (Bool-cases (ltb so_far (fuzzy_nickname_score u external s.candidate.nickname))) [
    | inl f ↦ better e (
        best_free-FreeFrom u external slots (suc k)
          (fuzzy_nickname_score u external s.candidate.nickname) n j (some k) (rw (e, f) at h))
    | inr f ↦ later (best_free-FreeFrom u external slots (suc k) so_far n j best (rw (e, f) at h))
  ]
]
  where
    later :
        ((best ≡ some j) × (so_far ≡ n))
          ⊎ FreeFrom (λ c. fuzzy_nickname_score u external c.nickname ≡ n) (suc k) j slots
        → ((best ≡ some j) × (so_far ≡ n))
          ⊎ FreeFrom (λ c. fuzzy_nickname_score u external c.nickname ≡ n) k j (s ∷ slots)
    later (inl same) = inl same
    later (inr h) = inr (FreeFrom-later k j s slots h)

    better :
        s.taken ≡ false
        → ((some k ≡ some j) × (fuzzy_nickname_score u external s.candidate.nickname ≡ n))
          ⊎ FreeFrom (λ c. fuzzy_nickname_score u external c.nickname ≡ n) (suc k) j slots
        → ((best ≡ some j) × (so_far ≡ n))
          ⊎ FreeFrom (λ c. fuzzy_nickname_score u external c.nickname ≡ n) k j (s ∷ slots)
    better e (inl (same, scored)) = inr (0, ground arith, IsFree-first s slots e scored)
    better e (inr h) = inr (FreeFrom-later k j s slots h)

pub FreeFrom-zero :
    {P Q : RosterCandidate → Type 0} (j : ℕ) (slots : List Slot)
    → ((c : RosterCandidate) → P c → Q c)
    → FreeFrom P 0 j slots
    → IsFree Q j slots
FreeFrom-zero {Q} j slots f (i, e, h) =
    subst (λ n. IsFree Q n slots) (omega arith)
      (record {
        chosen = h.chosen;
        given = h.given;
        fits = f h.chosen h.fits;
        listed = h.listed;
        fewer = h.fewer;
      })
