-- ===== src/Base/Pairs.antt =====
-- A symmetric relation between all entries of a list survives reordering.
use mathlib.Core.List.{List, [], ◌∷◌, Perm, Permᴰ, map}
use mathlib.Core.HLevel.{×_prop}
use mathlib.Core.Path.{subst, subst₂, ◌≡◌}
use mathlib.Core.Bool.{Bool, true, false}
use mathlib.Core.Logic.{∥∥₁_elim}
use cs2_predictor.Base.Lists.{All, All-map, All-take, All-keep_if, All-of_map, keep_if, take}
use cs2_predictor.Base.Sort.{IsSorted, IsStrictlySorted}
use Prim.Native.Nat.{ℕ, zero, suc}
use mathlib.Core.Logic.{inl, inr}
use cs2_predictor.Base.Tests.{Bool-cases}

abbrev pub Pairs {ℓ κ} : {A : Type ℓ} → (A → A → Type κ) → List A → Type κ
Pairs R [] = Unit
Pairs R (x ∷ xs) = All (R x) xs × Pairs R xs

All-permᴰ {ℓ κ} : {A : Type ℓ} (P : A → Type κ) {xs ys : List A} → Permᴰ xs ys → All P xs → All P ys
All-permᴰ P Permᴰ.nil h = h
All-permᴰ P (Permᴰ.cons e p) h = (subst P e h.0, All-permᴰ P p h.1)
All-permᴰ P (Permᴰ.swap d e) h = (subst P e h.1.0, (subst P d h.0, h.1.1))
All-permᴰ P (Permᴰ.trans p q) h = All-permᴰ P q (All-permᴰ P p h)

module _ {ℓ} {A : Type ℓ} (R : A → A → Type 0) (flip : (a b : A) → R a b → R b a) where
  Pairs-permᴰ : {xs ys : List A} → Permᴰ xs ys → Pairs R xs → Pairs R ys
  Pairs-permᴰ Permᴰ.nil h = h
  Pairs-permᴰ (Permᴰ.cons {b = b} {l₁ = l₁} e p) h =
      (All-permᴰ (R b) p (subst (λ a. All (R a) l₁) e h.0), Pairs-permᴰ p h.1)
  Pairs-permᴰ (Permᴰ.swap {l = l} d e) h = (
    (subst₂ R e d (flip _ _ h.0.0), subst (λ a. All (R a) l) e h.1.0),
    (subst (λ a. All (R a) l) d h.0.1, h.1.1),
  )
  Pairs-permᴰ (Permᴰ.trans p q) h = Pairs-permᴰ q (Pairs-permᴰ p h)

  pub Pairs-perm :
      ((a b : A) → IsProp (R a b)) → {xs ys : List A} → Perm xs ys → Pairs R xs → Pairs R ys
  Pairs-perm prop {ys = ys} p h = ∥∥₁_elim p (Pairs-prop ys) (λ d. Pairs-permᴰ d h)
    where
      All-prop : (a : A) (l : List A) → IsProp (All (R a) l)
      All-prop a [] = hlevel
      All-prop a (b ∷ l) = ×_prop (prop a b) (All-prop a l)

      Pairs-prop : (l : List A) → IsProp (Pairs R l)
      Pairs-prop [] = hlevel
      Pairs-prop (a ∷ l) = ×_prop (All-prop a l) (Pairs-prop l)

-- Where entries in relation never tie, a sorted list is strictly sorted.
pub IsSorted-IsStrictlySorted {ℓ} :
    {A : Type ℓ} (less : A → A → Bool) (R : A → A → Type 0)
    → ((a b : A) → R a b → less b a ≡ false → less a b ≡ true)
    → (xs : List A) → IsSorted less xs
    → Pairs R xs
    → IsStrictlySorted less xs
IsSorted-IsStrictlySorted less R total [] s h = tt
IsSorted-IsStrictlySorted {A} less R total (x ∷ xs) s h =
    (both xs s.0 h.0, IsSorted-IsStrictlySorted less R total xs s.1 h.1)
  where
    both : (l : List A) → All (λ y. less y x ≡ false) l → All (R x) l → All (λ y. less x y ≡ true) l
    both [] s h = tt
    both (y ∷ l) s h = (total x y h.0 s.0, both l s.1 h.1)

module _ {ℓ κ} {A : Type ℓ} (R : A → A → Type κ) where
  pub Pairs-take : (n : ℕ) (xs : List A) → Pairs R xs → Pairs R (take n xs)
  Pairs-take zero xs h = tt
  Pairs-take (suc n) [] h = tt
  Pairs-take (suc n) (x ∷ xs) h = (All-take (R x) n xs h.0, Pairs-take n xs h.1)

  pub Pairs-keep_if : (test : A → Bool) (xs : List A) → Pairs R xs → Pairs R (keep_if test xs)
  Pairs-keep_if test [] h = tt
  Pairs-keep_if test (x ∷ xs) h = elim (Bool-cases (test x)) [
    | inl e ↦
        rw e (
          All-map _ (R x) (λ y k. k.0) _ (All-keep_if (R x) test xs h.0),
          Pairs-keep_if test xs h.1,
        )
    | inr e ↦ rw e (Pairs-keep_if test xs h.1)
  ]

pub Pairs-of_map {ℓ κ μ} :
    {A : Type ℓ} {B : Type κ} (R : B → B → Type μ) (f : A → B) (xs : List A)
    → Pairs (λ x y. R (f x) (f y)) xs
    → Pairs R (map f xs)
Pairs-of_map R f [] h = tt
Pairs-of_map R f (x ∷ xs) h = (All-of_map (R (f x)) f xs h.0, Pairs-of_map R f xs h.1)
