-- ===== src/Enrichment/Similarity/Scores.antt =====
-- What a score says about two names.
use cs2_predictor.Enrichment.Similarity.{ratio, score_of, max_len}
use cs2_predictor.Base.{
  ◌↔◌, ◌≤◌, zero, ◌+◌, All, false, suc, true, length, [], ◌∷◌, refl, Bool-cases, inl, max, ◌≡◌,
  subst, ◌<◌, List, ◌/◌, ℕ, ◌*◌, inr, arith, ◌==◌, ◌||◌, ◌-◌,
}
use cs2_predictor.Enrichment.Names.{is_empty_text, byte_length}
use cs2_predictor.Enrichment.Distance.Edits.{Edits-zero, Edits-max, Edits}
use cs2_predictor.Base.Splits.{same_bytes, same_bytes_refl, same_bytes-eq}
use cs2_predictor.Enrichment.Distance.{levenshtein}
use cs2_predictor.Enrichment.Distance.Rows.{levenshtein_least}

one_off : (d m : ℕ) → 1 ≤ d → 0 < m → 100 / m ≤ d * 100 / m
one_off d m h k = grind arith

half_off : (d m : ℕ) → 0 < m → 2 * d ≤ m → d * 100 / m ≤ 50
half_off d m k l = grind arith

levenshtein_pos : (na nb : List ℕ) → same_bytes na nb ≡ false → 1 ≤ levenshtein na nb
levenshtein_pos na nb other = go (levenshtein na nb) (levenshtein_least na nb).0
  where
    clash : na ≡ nb → ⊥
    clash e = cc (subst (λ t. same_bytes na t ≡ true) e (same_bytes_refl na))

    go : (n : ℕ) → Edits na nb n → 1 ≤ n
    go zero s = absurd (clash (Edits-zero s refl))
    go (suc n) s = omega arith

byte_length_pos : (l : List ℕ) → is_empty_text l ≡ false → 0 < byte_length l
byte_length_pos [] h = cc
byte_length_pos (c ∷ l) h = ground arith

max_len_bounds :
    (na nb : List ℕ) → (byte_length na ≤ max_len na nb) × (byte_length nb ≤ max_len na nb)
max_len_bounds na nb = ground arith

score_of_empty :
    (na nb : List ℕ) → (is_empty_text na || is_empty_text nb) ≡ true → score_of na nb ≡ 0
unfolding score_of
score_of_empty na nb e = rw e

score_of_same :
    (na nb : List ℕ)
    → (is_empty_text na || is_empty_text nb) ≡ false
    → same_bytes na nb ≡ true
    → score_of na nb ≡ 100
unfolding score_of
score_of_same na nb e f = rw (e, f)

score_of_other :
    (na nb : List ℕ)
    → (is_empty_text na || is_empty_text nb) ≡ false
    → same_bytes na nb ≡ false
    → score_of na nb ≡ 100 - levenshtein na nb * 100 / max_len na nb
unfolding score_of ratio
score_of_other na nb e f = rw (e, f) (rw some_length)
  where
    some_length : (max_len na nb == 0) ≡ false
    some_length = ground (arith, byte_length_pos na)

-- Where one letter costs more than is missing to 100, a score reaches the threshold exactly for
-- equal names that are not empty.
pub score_of_reached :
    (na nb : List ℕ) (threshold : ℕ)
    → 0 < threshold
    → threshold ≤ 100
    → 100 < threshold + 100 / max_len na nb
    → (threshold ≤ score_of na nb) ↔ ((na ≡ nb) × (is_empty_text na ≡ false))
score_of_reached na nb threshold h k l = (there, back)
  where
    there : threshold ≤ score_of na nb → (na ≡ nb) × (is_empty_text na ≡ false)
    there reached = elim (Bool-cases (is_empty_text na || is_empty_text nb)) [
      | inl e ↦ absurd (omega (arith, score_of_empty na nb e))
      | inr e ↦ elim (Bool-cases (same_bytes na nb)) [
        | inl f ↦ (same_bytes-eq na nb f, ground arith)
        | inr f ↦ absurd (
            omega (
              arith,
              score_of_other na nb e f,
              one_off (levenshtein na nb) (max_len na nb) (levenshtein_pos na nb f)
                  (ground (arith, byte_length_pos na)),
            ))
      ]
    ]

    back : (na ≡ nb) × (is_empty_text na ≡ false) → threshold ≤ score_of na nb
    back (same, full) =
        subst (λ t. threshold ≤ score_of na t) same
          (omega (arith, score_of_same na na (rw full) (same_bytes_refl na)))

byte_length_wide : (l : List ℕ) → All (λ c. 128 ≤ c) l → 2 * length l ≤ byte_length l
byte_length_wide [] h = omega arith
byte_length_wide (c ∷ l) h = ground (arith, byte_length_wide l h.1)

levenshtein-le-max : (na nb : List ℕ) → levenshtein na nb ≤ max (length na) (length nb)
levenshtein-le-max na nb = (levenshtein_least na nb).1 _ (Edits-max na nb)

-- Two names that are not empty and have no ASCII character, however different, score 50 at least,
-- since the distance counts characters and the length bytes: more than a request needs.
pub score_of_wide :
    (na nb : List ℕ)
    → is_empty_text na ≡ false
    → is_empty_text nb ≡ false
    → All (λ c. 128 ≤ c) na
    → All (λ c. 128 ≤ c) nb
    → 50 ≤ score_of na nb
score_of_wide na nb h k wide_a wide_b = elim (Bool-cases (same_bytes na nb)) [
  | inl e ↦ omega (arith, score_of_same na nb (rw (h, k)) e)
  | inr e ↦ omega (
    arith,
    score_of_other na nb (rw (h, k)) e,
    half_off (levenshtein na nb) (max_len na nb) long enough,
  )
]
  where
    long : 0 < max_len na nb
    long = ground (arith, byte_length_pos na)

    enough : 2 * levenshtein na nb ≤ max_len na nb
    enough = omega (
      arith,
      levenshtein-le-max na nb,
      byte_length_wide na wide_a,
      byte_length_wide nb wide_b,
      max_len_bounds na nb,
    )
