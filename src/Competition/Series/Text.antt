-- ===== src/Competition/Series/Text.antt =====
-- `MatchScore.String` and `SeriesFormat.Label` as bytes, and a reader that takes a score text
-- apart again. The text of a score is the hash by which a settlement is recognised.
use cs2_predictor.Base.{
  refl, ℕ, List, suc, [], ◌∷◌, ◌/◌, ◌<◌, ◌≡◌, arith, sym, ◌+◌, ◌*◌, ◌-◌, ◌%◌, ◌∙◌, if◌then◌else◌,
  Bool-cases, ap, ltb, ◌==◌, inl, zero, inr,
}
use cs2_predictor.Competition.Series.{
  MatchScore, SeriesFormat, SeriesKind, score, other_kind, first_to, best_of, fixed_maps,
}

-- `%d`: the digits of n in front of a rest. The fuel is above n, and n falls by `/ 10`.
decimal_onto : ℕ → ℕ → List ℕ → List ℕ
decimal_onto zero n rest = rest
decimal_onto (suc fuel) n rest =
    let more = decimal_onto fuel (n / 10) ((48 + n % 10) ∷ rest) in
    if ltb n 10 then (48 + n) ∷ rest else more

unfoldable pub decimal : ℕ → List ℕ → List ℕ
unfolding decimal_onto
decimal n rest = decimal_onto (suc n) n rest

-- "first:second".
unfoldable pub score_text : MatchScore → List ℕ
unfolding decimal
score_text s = decimal s.first (b':' ∷ decimal s.second [])

prefix_of : SeriesKind → List ℕ → List ℕ
prefix_of first_to n = b'F' ∷ b'T' ∷ n
prefix_of best_of n = b'B' ∷ b'O' ∷ n
prefix_of fixed_maps n = b'B' ∷ b'O' ∷ n
prefix_of (other_kind k) n = b'B' ∷ b'O' ∷ n

unfoldable pub label : SeriesFormat → List ℕ
unfolding prefix_of decimal
label f = prefix_of f.kind (decimal f.size [])

-- Reads digits up to a colon or the end.
read_number : ℕ → List ℕ → ℕ × List ℕ
read_number n [] = (n, [])
read_number n (c ∷ cs) =
    let more = read_number (n * 10 + (c - 48)) cs in if c == b':' then (n, cs) else more

pub read_score : List ℕ → MatchScore
unfolding read_number
read_score cs = score (read_number 0 cs).0 (read_number 0 (read_number 0 cs).1).0

read_number-decimal_onto :
    (fuel n : ℕ) (rest : List ℕ)
    → n < fuel
    → read_number 0 (decimal_onto fuel n rest) ≡ read_number n rest
unfolding read_number decimal_onto
read_number-decimal_onto zero n rest h = absurd (omega arith)
read_number-decimal_onto (suc fuel) n rest h = elim (Bool-cases (ltb n 10)) [
  | inl small ↦ rw small (ground arith)
  | inr large ↦ rw large (
      read_number-decimal_onto fuel (n / 10) ((48 + n % 10) ∷ rest) (ground arith)
      ∙ ground (arith, shift n))
]
  where
    shift : (n : ℕ) → n / 10 * 10 + n % 10 ≡ n
    shift n = omega arith

read_number-decimal : (n : ℕ) (rest : List ℕ) → read_number 0 (decimal n rest) ≡ read_number n rest
unfolding decimal
read_number-decimal n rest = read_number-decimal_onto (suc n) n rest (omega arith)

-- The text of a score can be read back.
pub read_score-score_text : (s : MatchScore) → read_score (score_text s) ≡ s
unfolding read_score score_text
read_score-score_text s =
    rw (read_number-decimal s.first (b':' ∷ decimal s.second []))
      (rw (read_number-decimal s.second []) refl)

-- Scores with one text are one score.
pub score_text_injective : (s t : MatchScore) → score_text s ≡ score_text t → s ≡ t
score_text_injective s t e =
    sym (read_score-score_text s) ∙ ap read_score e ∙ read_score-score_text t
