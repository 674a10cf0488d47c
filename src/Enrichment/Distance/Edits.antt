-- ===== src/Enrichment/Distance/Edits.antt =====
-- Turning one text into another by single letters, with the number of changes.
use cs2_predictor.Base.{◌+◌, List, arith, ℕ, ◌++◌, ◌∷◌, max, refl, suc, subst, ◌≡◌, sym, length, []}

pub data Edits : List ℕ → List ℕ → ℕ → Type 0 where
  finish : {n : ℕ} → n ≡ 0 → Edits [] [] n
  keep : {x y : ℕ} {a b : List ℕ} {n : ℕ} → x ≡ y → Edits a b n → Edits (x ∷ a) (y ∷ b) n
  change : {x y : ℕ} {a b : List ℕ} {n : ℕ} → Edits a b n → Edits (x ∷ a) (y ∷ b) (suc n)
  drop : {x : ℕ} {a b : List ℕ} {n : ℕ} → Edits a b n → Edits (x ∷ a) b (suc n)
  add : {y : ℕ} {a b : List ℕ} {n : ℕ} → Edits a b n → Edits a (y ∷ b) (suc n)

pub Edits-sym : {a b : List ℕ} {n : ℕ} → Edits a b n → Edits b a n
Edits-sym (finish e) = finish e
Edits-sym (keep e s) = keep (sym e) (Edits-sym s)
Edits-sym (change s) = change (Edits-sym s)
Edits-sym (drop s) = add (Edits-sym s)
Edits-sym (add s) = drop (Edits-sym s)

-- The first text backwards, in front of the second.
abbrev pub onto : List ℕ → List ℕ → List ℕ
onto [] acc = acc
onto (x ∷ a) acc = onto a (x ∷ acc)

pub onto-onto : (a b c : List ℕ) → onto (onto a b) c ≡ onto b (a ++ c)
onto-onto [] b c = refl
onto-onto (x ∷ a) b c = onto-onto a (x ∷ b) c

pub Edits-onto :
    {a b : List ℕ} {n : ℕ} (a' b' : List ℕ) (m : ℕ)
    → Edits a b n
    → Edits a' b' m
    → Edits (onto a a') (onto b b') (n + m)
Edits-onto a' b' m (finish e) t = subst (λ k. Edits a' b' k) (omega arith) t
Edits-onto a' b' m (keep {x} {y} e s) t = Edits-onto (x ∷ a') (y ∷ b') m s (keep e t)
Edits-onto a' b' m (change {x} {y} {a} {b} {n} s) t =
    subst (λ k. Edits (onto a (x ∷ a')) (onto b (y ∷ b')) k) (omega arith)
      (Edits-onto (x ∷ a') (y ∷ b') (suc m) s (change t))
Edits-onto a' b' m (drop {x} {a} {b} {n} s) t =
    subst (λ k. Edits (onto a (x ∷ a')) (onto b b') k) (omega arith)
      (Edits-onto (x ∷ a') b' (suc m) s (drop t))
Edits-onto a' b' m (add {y = y} {a} {b} {n} s) t =
    subst (λ k. Edits (onto a a') (onto b (y ∷ b')) k) (omega arith)
      (Edits-onto a' (y ∷ b') (suc m) s (add t))

-- No more changes than letters of the longer text are needed, and none only between equal texts.
pub Edits-max : (a b : List ℕ) → Edits a b (max (length a) (length b))
Edits-max [] [] = finish refl
Edits-max [] (y ∷ b) = subst (λ k. Edits [] (y ∷ b) k) (omega arith) (add {y = y} (Edits-max [] b))
Edits-max (x ∷ a) [] = subst (λ k. Edits (x ∷ a) [] k) (omega arith) (drop {x = x} (Edits-max a []))
Edits-max (x ∷ a) (y ∷ b) =
    subst (λ k. Edits (x ∷ a) (y ∷ b) k) (omega arith) (change {x = x} {y = y} (Edits-max a b))

pub Edits-zero : {a b : List ℕ} {n : ℕ} → Edits a b n → n ≡ 0 → a ≡ b
Edits-zero (finish e) z = refl
Edits-zero (keep e s) z = ground (arith, Edits-zero s z)
Edits-zero (change s) z = absurd (omega arith)
Edits-zero (drop s) z = absurd (omega arith)
Edits-zero (add s) z = absurd (omega arith)
