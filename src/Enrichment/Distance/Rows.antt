-- ===== src/Enrichment/Distance/Rows.antt =====
-- The rolling rows hold the recursive distances, and these are the least numbers of changes.

-- The distance between two texts that are read backwards.
use cs2_predictor.Enrichment.Distance.{
  count_up, entry, distance_of, cost, fill, run_rows, least, levenshtein,
}
use mathlib.Core.List.{append-nil}
use cs2_predictor.Base.{
  sym, inr, arith, ◌+◌, List, ◌∷◌, refl, inl, [], ◌≤◌, ℕ, ==_iff, length, subst, Bool-cases, ltb,
  ◌∙◌, suc, ap, ◌==◌, ◌≡◌,
}
use cs2_predictor.Enrichment.Distance.Edits.{
  Edits-sym, onto, Edits, drop, change, keep, finish, add, onto-onto, Edits-onto,
}

distance : List ℕ → List ℕ → ℕ
distance [] b = length b
distance (x ∷ a) [] = suc (length a)
distance (x ∷ a) (y ∷ b) =
    least (distance (x ∷ a) b + 1) (distance a (y ∷ b) + 1) (distance a b + cost x y)

-- A row behind its first entry: `pre` and `other` have been read, `w` has not.
row_rest : List ℕ → List ℕ → List ℕ → List ℕ
row_rest pre [] other = []
row_rest pre (x ∷ w) other = distance (x ∷ pre) other ∷ row_rest (x ∷ pre) w other

fill_lem :
    (c : ℕ) (pre w other : List ℕ)
    → fill c w (distance pre (c ∷ other)) (distance pre other ∷ row_rest pre w other)
      ≡ row_rest pre w (c ∷ other)
unfolding fill row_rest distance
fill_lem c pre [] other = refl
fill_lem c pre (x ∷ w) other =
    ap (λ l. distance (x ∷ pre) (c ∷ other) ∷ l) (fill_lem c (x ∷ pre) w other)

run_rows_lem :
    (w rest other : List ℕ)
    → run_rows w rest (suc (length other)) (distance [] other ∷ row_rest [] w other)
      ≡ distance [] (onto rest other) ∷ row_rest [] w (onto rest other)
unfolding run_rows distance
run_rows_lem w [] other = refl
run_rows_lem w (c ∷ rest) other = rw (fill_lem c [] w other) (run_rows_lem w rest (c ∷ other))

distance-nil : (a : List ℕ) → distance a [] ≡ length a
unfolding distance
distance-nil [] = refl
distance-nil (x ∷ a) = refl

count_up_lem :
    (pre w : List ℕ) → count_up (length pre) (length w) ≡ distance pre [] ∷ row_rest pre w []
unfolding row_rest
count_up_lem pre [] = ap (λ n. n ∷ []) (sym (distance-nil pre))
count_up_lem pre (x ∷ w) =
    ap (λ n. n ∷ count_up (suc (length pre)) (length w)) (sym (distance-nil pre))
    ∙ ap (λ l. distance pre [] ∷ l) (count_up_lem (x ∷ pre) w)

entry_lem :
    (pre w other : List ℕ)
    → entry (distance pre other ∷ row_rest pre w other) (length w) ≡ distance (onto w pre) other
unfolding row_rest
entry_lem pre [] other = refl
entry_lem pre (x ∷ w) other = entry_lem (x ∷ pre) w other

distance_of-distance : (a b : List ℕ) → distance_of a b ≡ distance (onto a []) (onto b [])
unfolding distance_of
distance_of-distance a b =
    ap (λ row. entry (run_rows a b 1 row) (length a)) (count_up_lem [] a)
    ∙ ap (λ row. entry row (length a)) (run_rows_lem a b [])
    ∙ entry_lem [] a (onto b [])

cost-le-one : (x y : ℕ) → cost x y ≤ 1
cost-le-one x y = ground arith

length-distance : (b : List ℕ) → Edits [] b (length b)
length-distance [] = finish refl
length-distance (y ∷ b) = add (length-distance b)

substitute : (x y : ℕ) {a b : List ℕ} {n : ℕ} → Edits a b n → Edits (x ∷ a) (y ∷ b) (n + cost x y)
substitute x y {a} {b} {n} s = elim (Bool-cases (x == y)) [
  | inl e ↦ rw e (subst (λ k. Edits (x ∷ a) (y ∷ b) k) (omega arith) (keep ((==_iff x y).0 e) s))
  | inr e ↦ rw e (subst (λ k. Edits (x ∷ a) (y ∷ b) k) (omega arith) (change {x = x} {y = y} s))
]

least-Edits :
    {a b : List ℕ} (m n k : ℕ) → Edits a b m → Edits a b n → Edits a b k → Edits a b (least m n k)
least-Edits m n k s t r = elim (Bool-cases (ltb n m)) [
  | inl e ↦ elim (Bool-cases (ltb k n)) [ inl f ↦ rw (e, f) r | inr f ↦ rw (e, f) t ]
  | inr e ↦ elim (Bool-cases (ltb k m)) [ inl f ↦ rw (e, f) r | inr f ↦ rw (e, f) s ]
]

distance_attained : (a b : List ℕ) → Edits a b (distance a b)
unfolding distance
distance_attained [] b = length-distance b
distance_attained (x ∷ a) [] = Edits-sym (length-distance (x ∷ a))
distance_attained (x ∷ a) (y ∷ b) =
    least-Edits (distance (x ∷ a) b + 1) (distance a (y ∷ b) + 1) (distance a b + cost x y)
      (subst (λ k. Edits (x ∷ a) (y ∷ b) k) (omega arith)
        (add {y = y} (distance_attained (x ∷ a) b)))
      (subst (λ k. Edits (x ∷ a) (y ∷ b) k) (omega arith)
        (drop {x = x} (distance_attained a (y ∷ b))))
      (substitute x y (distance_attained a b))

distance-le : {a b : List ℕ} {n : ℕ} → Edits a b n → distance a b ≤ n
unfolding distance
distance-le (finish e) = omega arith
distance-le (keep {x} {y} {a} {b} e s) = ground (arith, distance-le s)
distance-le (change {x} {y} {a} {b} s) = ground (arith, distance-le s, cost-le-one x y)
distance-le (drop {x} {a} {b = []} s) = omega (arith, distance-le s, distance-nil a)
distance-le (drop {x} {a} {b = y ∷ b} s) = ground (arith, distance-le s)
distance-le (add {y} {a = []} {b} s) = omega (arith, distance-le s)
distance-le (add {y} {a = x ∷ a} {b} s) = ground (arith, distance-le s)

-- A text that is reversed twice.
onto_twice : (a : List ℕ) → onto (onto a []) [] ≡ a
onto_twice a = onto-onto a [] [] ∙ append-nil a

distance_of-Edits : (a b : List ℕ) → Edits a b (distance_of a b)
distance_of-Edits a b =
    subst (λ t. Edits t b (distance_of a b)) (onto_twice a)
      (subst (λ t. Edits (onto (onto a []) []) t (distance_of a b)) (onto_twice b)
        (subst (λ n. Edits (onto (onto a []) []) (onto (onto b []) []) n) same
          (Edits-onto [] [] 0 (distance_attained (onto a []) (onto b [])) (finish refl))))
  where
    same : distance (onto a []) (onto b []) + 0 ≡ distance_of a b
    same = omega (arith, distance_of-distance a b)

distance_of-le : (a b : List ℕ) (n : ℕ) → Edits a b n → distance_of a b ≤ n
distance_of-le a b n s =
    let turned = distance-le (Edits-onto [] [] 0 s (finish refl)) in
    omega (arith, distance_of-distance a b)

-- The distance that the rows give is a number of changes that turns one text into the other, and
-- the least such number.
pub levenshtein_least :
    (a b : List ℕ) → Edits a b (levenshtein a b) × ((n : ℕ) → Edits a b n → levenshtein a b ≤ n)
unfolding levenshtein
levenshtein_least a b = elim (Bool-cases (ltb (length b) (length a))) [
  | inl e ↦ rw e (Edits-sym (distance_of-Edits b a), λ n s. distance_of-le b a n (Edits-sym s))
  | inr e ↦ rw e (distance_of-Edits a b, λ n s. distance_of-le a b n s)
]
