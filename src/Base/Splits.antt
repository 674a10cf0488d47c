-- ===== src/Base/Splits.antt =====
-- `strings.Split` and `strings.Join` at one byte, over texts that are lists of bytes.
use native.Mathlib.Omega.{arith}
use mathlib.Core.Path.{◌≡◌, refl, ap, ◌∙◌}
use mathlib.Core.Bool.{Bool, true, false, ◌&&◌}
use mathlib.Core.List.{List, [], ◌∷◌, ◌++◌}
use Prim.Native.Nat.{ℕ}
use cs2_predictor.Base.Tests.{◌==◌, if◌then◌else◌, ==_refl}
use cs2_predictor.Base.Lists.{All}

-- `strings.Split` at one byte: the first part and those behind it.
abbrev pub add_front : ℕ → List ℕ × List (List ℕ) → List ℕ × List (List ℕ)
add_front c (first, more) = (c ∷ first, more)

abbrev pub new_part : List ℕ × List (List ℕ) → List ℕ × List (List ℕ)
new_part (first, more) = ([], first ∷ more)

unfoldable pub split_at : ℕ → List ℕ → List ℕ × List (List ℕ)
split_at sep [] = ([], [])
split_at sep (c ∷ l) =
    let rest = split_at sep l in if c == sep then new_part rest else add_front c rest

-- The byte does not occur.
abbrev pub HasNo : ℕ → List ℕ → Type 0
HasNo sep = All (λ c. (c == sep) ≡ false)

pub split_at-whole : (sep : ℕ) (l : List ℕ) → HasNo sep l → split_at sep l ≡ (l, [])
unfolding split_at
split_at-whole sep [] h = refl
split_at-whole sep (c ∷ l) h = rw (h.0, split_at-whole sep l h.1)

-- What stands before the first separator is the first part.
pub split_at-append :
    (sep : ℕ) (l rest : List ℕ)
    → HasNo sep l
    → split_at sep (l ++ sep ∷ rest) ≡ (l, (split_at sep rest).0 ∷ (split_at sep rest).1)
unfolding split_at
split_at-append sep [] rest h = rw (==_refl sep)
split_at-append sep (c ∷ l) rest h = rw (h.0, split_at-append sep l rest h.1)

-- `strings.Join` of one part and more.
abbrev pub join : ℕ → List ℕ → List (List ℕ) → List ℕ
join sep part [] = part
join sep part (other ∷ more) = part ++ sep ∷ join sep other more

-- Parts without the separator that are joined by it are split into the same parts.
pub split_at-join :
    (sep : ℕ) (part : List ℕ) (more : List (List ℕ))
    → HasNo sep part
    → All (HasNo sep) more
    → split_at sep (join sep part more) ≡ (part, more)
split_at-join sep part [] h k = split_at-whole sep part h
split_at-join sep part (other ∷ more) h k =
    split_at-append sep part (join sep other more) h
    ∙ ap (λ t. (part, t.0 ∷ t.1)) (split_at-join sep other more k.0 k.1)

-- Equality of texts.
abbrev pub same_bytes : List ℕ → List ℕ → Bool
same_bytes [] [] = true
same_bytes [] (d ∷ l) = false
same_bytes (c ∷ k) [] = false
same_bytes (c ∷ k) (d ∷ l) = (c == d) && same_bytes k l

pub same_bytes_refl : (l : List ℕ) → same_bytes l l ≡ true
same_bytes_refl [] = refl
same_bytes_refl (c ∷ l) = rw (==_refl c) (same_bytes_refl l)

pub same_bytes-eq : (k l : List ℕ) → same_bytes k l ≡ true → k ≡ l
same_bytes-eq [] [] h = refl
same_bytes-eq [] (d ∷ l) h = cc
same_bytes-eq (c ∷ k) [] h = cc
same_bytes-eq (c ∷ k) (d ∷ l) h = ground (arith, same_bytes-eq k l)
