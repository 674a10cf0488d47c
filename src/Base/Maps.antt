-- ===== src/Base/Maps.antt =====
-- Go maps keyed by text, as association lists with one entry for a key.
use Prim.Native.String.{String}
use mathlib.Core.Bool.{Bool, true, false}
use mathlib.Core.List.{List, [], ◌∷◌}
use mathlib.Core.Option.{Option, none, some}
use mathlib.Core.Logic.{inl, inr}
use mathlib.Core.Path.{◌≡◌, refl, sym, ap, subst}
use text.Mathlib.Text.{◌==◌ as str_eq}
use text.Mathlib.TextEquality.{eq_iff}
use cs2_predictor.Base.Tests.{if◌then◌else◌, Bool-cases}

abbrev pub same_key : String → String → Bool
same_key = str_eq

pub same_key_refl : (k : String) → same_key k k ≡ true
same_key_refl k = (eq_iff k k).1 refl

pub same_key_eq : (k n : String) → same_key k n ≡ true → k ≡ n
same_key_eq k n h = (eq_iff k n).0 h

module _ {ℓ} {A : Type ℓ} where
  abbrev pub get : String → List (String × A) → Option A
  get n [] = none
  get n ((k, a) ∷ m) = let rest = get n m in if same_key k n then some a else rest

  abbrev pub delete : String → List (String × A) → List (String × A)
  delete n [] = []
  delete n ((k, a) ∷ m) = let rest = delete n m in if same_key k n then rest else (k, a) ∷ rest

  abbrev pub put : String → A → List (String × A) → List (String × A)
  put n a m = (n, a) ∷ delete n m

  pub get-delete : (n : String) (m : List (String × A)) → get n (delete n m) ≡ none
  get-delete n [] = refl
  get-delete n ((k, a) ∷ m) = elim (Bool-cases (same_key k n)) [
    | inl e ↦ rw e (get-delete n m)
    | inr e ↦ rw (e, e) (get-delete n m)
  ]

  pub get-delete-other :
      (n o : String) (m : List (String × A)) → same_key n o ≡ false → get o (delete n m) ≡ get o m
  get-delete-other n o [] h = refl
  get-delete-other n o ((k, a) ∷ m) h = elim (Bool-cases (same_key k n)) [
    | inl e ↦
        let skipped : same_key k o ≡ false =
          subst (λ x. same_key x o ≡ false) (sym (same_key_eq k n e)) h in
        rw (e, skipped) (get-delete-other n o m h)
    | inr e ↦ rw e (ap (λ r. if same_key k o then some a else r) (get-delete-other n o m h))
  ]

  pub get-put : (n : String) (a : A) (m : List (String × A)) → get n (put n a m) ≡ some a
  get-put n a m = rw (same_key_refl n)

  pub get-put-other :
      (n o : String) (a : A) (m : List (String × A))
      → same_key n o ≡ false
      → get o (put n a m) ≡ get o m
  get-put-other n o a m h = rw h (get-delete-other n o m h)
