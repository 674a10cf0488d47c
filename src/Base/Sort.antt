-- ===== src/Base/Sort.antt =====
-- `sort.SliceStable`: the stable sort by a strict weak order, and its laws.
use mathlib.Core.List.Perm
use mathlib.Core.Logic.Or
use mathlib.Core.List.{
  Perm, Mem, mem-cons_self, mem-cons_of_mem, eq-or-mem_of_mem-cons, not-mem-nil, List, [], ◌∷◌,
}
use mathlib.Core.Logic.{∥∥₁_prop, inl, inr}
use mathlib.Core.Path.{ap, ap₂, ◌≡◌, refl, sym, subst, ◌∙◌}
use mathlib.Core.Bool.{Bool, true, false, Bool-set, ◌||◌}
use native.Mathlib.Omega.{arith}
use cs2_predictor.Base.Tests.{if◌then◌else◌, Bool-cases}
use cs2_predictor.Base.Lists.{All, All-map, keep_if, any, length}
use Prim.Native.Nat.{suc}

-- What Go asks of a `less` function.
pub record IsWeakOrder {ℓ} {A : Type ℓ} (less : A → A → Bool) : Type ℓ where
  pub asym : (a b : A) → less a b ≡ true → less b a ≡ false
  pub cotrans : (a b c : A) → less a b ≡ false → less b c ≡ false → less a c ≡ false

module _ {ℓ} {A : Type ℓ} (less : A → A → Bool) where
  insert_before : A → List A → List A
  insert_before x [] = x ∷ []
  insert_before x (y ∷ ys) = if less y x then y ∷ insert_before x ys else x ∷ y ∷ ys

  unfoldable pub stable_sort : List A → List A
  unfolding insert_before
  stable_sort [] = []
  stable_sort (x ∷ xs) = insert_before x (stable_sort xs)

  -- Nothing later comes before anything earlier.
  abbrev pub IsSorted : List A → Type ℓ
  IsSorted [] = Unit
  IsSorted (x ∷ xs) = All (λ y. less y x ≡ false) xs × IsSorted xs

  -- Everything earlier comes before everything later.
  abbrev pub IsStrictlySorted : List A → Type ℓ
  IsStrictlySorted [] = Unit
  IsStrictlySorted (x ∷ xs) = All (λ y. less x y ≡ true) xs × IsStrictlySorted xs

module _ {ℓ} {A : Type ℓ} (less : A → A → Bool) where
  All-insert_before {κ} :
      (P : A → Type κ) (x : A) (ys : List A) → P x → All P ys → All P (insert_before less x ys)
  unfolding insert_before
  All-insert_before P x [] p h = (p, tt)
  All-insert_before P x (y ∷ ys) p h = elim (Bool-cases (less y x)) [
    | inl e ↦ rw e (h.0, All-insert_before P x ys p h.1)
    | inr e ↦ rw e (p, h)
  ]

  pub All-stable_sort {κ} : (P : A → Type κ) (xs : List A) → All P xs → All P (stable_sort less xs)
  unfolding stable_sort
  All-stable_sort P [] h = tt
  All-stable_sort P (x ∷ xs) h =
      All-insert_before P x (stable_sort less xs) h.0 (All-stable_sort P xs h.1)

  insert_before-perm : (x : A) (ys : List A) → Perm (insert_before less x ys) (x ∷ ys)
  unfolding insert_before
  insert_before-perm x [] = Perm.refl (x ∷ [])
  insert_before-perm x (y ∷ ys) = elim (Bool-cases (less y x)) [
    | inl e ↦ rw e (Perm.trans (Perm.cons y (insert_before-perm x ys)) (Perm.swap x y ys))
    | inr e ↦ rw e (Perm.refl (x ∷ y ∷ ys))
  ]

  pub stable_sort-perm : (xs : List A) → Perm (stable_sort less xs) xs
  unfolding stable_sort
  stable_sort-perm [] = Perm.refl []
  stable_sort-perm (x ∷ xs) =
      Perm.trans (insert_before-perm x (stable_sort less xs)) (Perm.cons x (stable_sort-perm xs))

  module _ (order : IsWeakOrder less) where
    insert_before-IsSorted :
        (x : A) (ys : List A) → IsSorted less ys → IsSorted less (insert_before less x ys)
    unfolding insert_before
    insert_before-IsSorted x [] s = (tt, tt)
    insert_before-IsSorted x (y ∷ ys) s = elim (Bool-cases (less y x)) [
      | inl e ↦ rw e (
        All-insert_before (λ z. less z y ≡ false) x ys (order.asym y x e) s.0,
        insert_before-IsSorted x ys s.1,
      )
      | inr e ↦ rw e (
        (
          e,
          All-map (λ z. less z y ≡ false) (λ z. less z x ≡ false) (λ z h. order.cotrans z y x h e)
              ys s.0,
        ),
        s,
      )
    ]

    pub stable_sort-IsSorted : (xs : List A) → IsSorted less (stable_sort less xs)
    unfolding stable_sort
    stable_sort-IsSorted [] = tt
    stable_sort-IsSorted (x ∷ xs) =
        insert_before-IsSorted x (stable_sort less xs) (stable_sort-IsSorted xs)

  -- Rows that tie keep the order that they came in.
  module _ (p : A → Bool) (ties : (a b : A) → p a ≡ true → p b ≡ true → less a b ≡ false) where
    keep_if-insert_before :
        (x : A) (ys : List A) → keep_if p (insert_before less x ys) ≡ keep_if p (x ∷ ys)
    unfolding insert_before
    keep_if-insert_before x [] = refl
    keep_if-insert_before x (y ∷ ys) = ground (arith, keep_if-insert_before x ys, ties y x)

    pub keep_if-stable_sort : (xs : List A) → keep_if p (stable_sort less xs) ≡ keep_if p xs
    unfolding stable_sort
    keep_if-stable_sort [] = refl
    keep_if-stable_sort (x ∷ xs) =
        ground (arith, keep_if-insert_before x (stable_sort less xs), keep_if-stable_sort xs)

  pub mem_All {κ} :
      (P : A → Type κ)
      → ((a : A) → IsProp (P a))
      → (xs : List A) → All P xs
      → {a : A} → Mem a xs
      → P a
  mem_All P prop [] h m = absurd (not-mem-nil m)
  mem_All P prop (x ∷ xs) h {a} m =
      Or.elim (prop a) (eq-or-mem_of_mem-cons m) (λ e. subst P (sym e) h.0)
        (λ r. mem_All P prop xs h.1 r)

-- A sort loses no row and adds none.
module _ {ℓ} {A : Type ℓ} (less : A → A → Bool) where
  any-insert_before :
      (q : A → Bool) (x : A) (ys : List A) → any q (insert_before less x ys) ≡ (q x || any q ys)
  unfolding insert_before
  any-insert_before q x [] = refl
  any-insert_before q x (y ∷ ys) = ground (arith, any-insert_before q x ys)

  pub any-stable_sort : (q : A → Bool) (xs : List A) → any q (stable_sort less xs) ≡ any q xs
  unfolding stable_sort
  any-stable_sort q [] = refl
  any-stable_sort q (x ∷ xs) =
      any-insert_before q x (stable_sort less xs) ∙ ap (λ b. q x || b) (any-stable_sort q xs)

  length-insert_before : (x : A) (ys : List A) → length (insert_before less x ys) ≡ suc (length ys)
  unfolding insert_before
  length-insert_before x [] = refl
  length-insert_before x (y ∷ ys) = elim (Bool-cases (less y x)) [
    | inl e ↦ rw e (ap suc (length-insert_before x ys))
    | inr e ↦ rw e
  ]

  pub length-stable_sort : (xs : List A) → length (stable_sort less xs) ≡ length xs
  unfolding stable_sort
  length-stable_sort [] = refl
  length-stable_sort (x ∷ xs) =
      length-insert_before x (stable_sort less xs) ∙ ap suc (length-stable_sort xs)

-- Two strictly sorted lists with the same members are one list: what a sort returns does not
-- depend on the order of its input.
module _ {ℓ} {A : Type ℓ} (less : A → A → Bool) (irrefl : (a : A) → less a a ≡ false)
    (asym : (a b : A) → less a b ≡ true → less b a ≡ false) (set : IsSet A) where
  before_tail :
      (x : A) (xs : List A) → All (λ y. less x y ≡ true) xs → {z : A} → Mem z xs → less x z ≡ true
  before_tail x xs h = mem_All less (λ y. less x y ≡ true) (λ y. Bool-set _ _) xs h

  heads_equal :
      (x y : A) (xs ys : List A)
      → IsStrictlySorted less (x ∷ xs)
      → IsStrictlySorted less (y ∷ ys)
      → Mem x (y ∷ ys)
      → Mem y (x ∷ xs)
      → x ≡ y
  heads_equal x y xs ys s t m n =
      Or.elim (set x y) (eq-or-mem_of_mem-cons m) (λ e. e)
        λ in_ys.
          Or.elim (set x y) (eq-or-mem_of_mem-cons n) (λ e. sym e)
            λ in_xs. absurd (clash (before_tail x xs s.0 in_xs) (before_tail y ys t.0 in_ys))
    where
      clash : less x y ≡ true → less y x ≡ true → ⊥
      clash p q = cc (asym x y p)

  tail_members :
      (x : A) (xs ys : List A)
      → IsStrictlySorted less (x ∷ xs)
      → ((z : A) → Mem z (x ∷ xs) → Mem z (x ∷ ys))
      → (z : A) → Mem z xs
      → Mem z ys
  tail_members x xs ys s sub z m =
      Or.elim ∥∥₁_prop (eq-or-mem_of_mem-cons (sub z (mem-cons_of_mem x m)))
        (λ e. absurd (clash (subst (λ w. less x w ≡ true) e (before_tail x xs s.0 m)))) (λ r. r)
    where
      clash : less x x ≡ true → ⊥
      clash p = cc (irrefl x)

  pub IsStrictlySorted-eq :
      (xs ys : List A)
      → IsStrictlySorted less xs
      → IsStrictlySorted less ys
      → ((z : A) → Mem z xs → Mem z ys)
      → ((z : A) → Mem z ys → Mem z xs)
      → xs ≡ ys
  IsStrictlySorted-eq [] [] s t f g = refl
  IsStrictlySorted-eq [] (y ∷ ys) s t f g = absurd (not-mem-nil (g y mem-cons_self))
  IsStrictlySorted-eq (x ∷ xs) [] s t f g = absurd (not-mem-nil (f x mem-cons_self))
  IsStrictlySorted-eq (x ∷ xs) (y ∷ ys) s t f g =
      let e : x ≡ y = heads_equal x y xs ys s t (f x mem-cons_self) (g y mem-cons_self) in
      let f' : (z : A) → Mem z (x ∷ xs) → Mem z (x ∷ ys) =
        λ z m. subst (λ w. Mem z (w ∷ ys)) (sym e) (f z m) in
      let t' : IsStrictlySorted less (x ∷ ys) =
        subst (λ w. IsStrictlySorted less (w ∷ ys)) (sym e) t in
      let g' : (z : A) → Mem z (x ∷ ys) → Mem z (x ∷ xs) =
        λ z m. g z (subst (λ w. Mem z (w ∷ ys)) e m) in
      ap₂ ◌∷◌ e
        (IsStrictlySorted-eq xs ys s.1 t.1 (tail_members x xs ys s f') (tail_members x ys xs t' g'))
