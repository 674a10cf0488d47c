-- ===== src/Base/Numerals.antt =====
-- What strconv formats is a numeral of bounded length, and it is parsed as the same integer.
use Prim.Native.Nat.{ℕ, zero, suc, ◌+◌, ◌/◌, ◌%◌, ◌^◌, ◌≤◌, ◌<◌}
use native.Mathlib.Nat.{mod-lt, div-add-mod'}
use mathlib.Core.Path.{◌≡◌, refl, sym, subst, ap, ◌∙◌}
use mathlib.Core.Logic.{inl, inr}
use mathlib.Core.Bool.{Bool, true, false, ◌&&◌, ◌||◌}
use mathlib.Core.List.{List, [], ◌∷◌}
use mathlib.Core.Option.{some}
use native.Mathlib.Omega.{arith}
use cs2_predictor.Base.Tests.{ltb, leb, ◌==◌, Bool-cases, ℤ, pos, negsuc, lt→ltb, ==_ne}
use cs2_predictor.Base.Lists.{All, All-map, length}
use cs2_predictor.Base.Digits.{
  digit_char, digit_value, format_digits, format_nat, format_int, push_digit, parse_digits, signed,
  parse_nat, parse_int,
}

abbrev pub is_digit_char : ℕ → Bool
is_digit_char c = (leb b'0' c && leb c b'9') || (leb b'a' c && leb c b'z')

-- One digit and more of them.
abbrev pub IsNumeral : List ℕ → Type 0
IsNumeral l =
    (c : ℕ) × (rest : List ℕ) × (l ≡ c ∷ rest)
    × (is_digit_char c ≡ true)
    × All (λ k. is_digit_char k ≡ true) rest

abbrev pub IsInt64 : ℤ → Type 0
IsInt64 (pos n) = n < 2 ^ 63
IsInt64 (negsuc n) = suc n ≤ 2 ^ 63

lt→leb : (a b : ℕ) → a ≤ b → leb a b ≡ true
lt→leb a b h = ground arith

digit_char_sound : (d : ℕ) → d < 36 → is_digit_char (digit_char d) ≡ true
digit_char_sound d h = ground arith

digit_value-digit_char : (d : ℕ) → d < 36 → digit_value (digit_char d) ≡ some d
digit_value-digit_char d h = ground arith

numeral_chars : (l : List ℕ) → IsNumeral l → All (λ c. (is_digit_char c || (c == b'-')) ≡ true) l
numeral_chars l (c, rest, e, d, all) =
    subst (All (λ k. (is_digit_char k || (k == b'-')) ≡ true)) (sym e)
      (rw d, All-map _ _ (λ k h. rw h) rest all)

module _ (base : ℕ) (low : 2 ≤ base) (high : base ≤ 36) where
  quotient_lt : (n : ℕ) → 0 < n → n / base < n
  quotient_lt n h = grind (arith, div-add-mod' n base)

  parse_digits-format_digits :
      (fuel n : ℕ) (digits : List ℕ)
      → n ≤ fuel
      → parse_digits base (some 0) (format_digits base fuel n digits)
        ≡ parse_digits base (some n) digits
  unfolding format_digits parse_digits
  parse_digits-format_digits zero n digits h =
      ap (λ k. parse_digits base (some k) digits) (omega arith)
  parse_digits-format_digits (suc fuel) n digits h = elim (Bool-cases (ltb 0 n)) [
    | inl e ↦
        let small : n % base < base = mod-lt n (omega arith) in
        rw e (
          parse_digits-format_digits fuel (n / base) (digit_char (n % base) ∷ digits)
            (ground (arith, quotient_lt n))
          ∙ ap (λ o. parse_digits base (push_digit base (n / base) o) digits)
              (digit_value-digit_char (n % base) (omega arith))
          ∙ ap (λ o. parse_digits base o digits) (pushed n small))
    | inr e ↦ rw e (ap (λ k. parse_digits base (some k) digits) (ground arith))
  ]
    where
      pushed : (m : ℕ) → m % base < base → push_digit base (m / base) (some (m % base)) ≡ some m
      pushed m small = rw (lt→ltb _ _ small, div-add-mod' m base)

  -- The digits that are formatted: at least one, and no other character.
  format_digits-zero : (fuel : ℕ) (digits : List ℕ) → format_digits base fuel 0 digits ≡ digits
  unfolding format_digits
  format_digits-zero zero digits = refl
  format_digits-zero (suc fuel) digits = refl

  format_digits-IsNumeral :
      (fuel n : ℕ) (digits : List ℕ)
      → n ≤ fuel
      → 0 < n
      → All (λ c. is_digit_char c ≡ true) digits
      → IsNumeral (format_digits base fuel n digits)
  unfolding format_digits
  format_digits-IsNumeral zero n digits h some_left all = absurd (omega arith)
  format_digits-IsNumeral (suc fuel) n digits h some_left all =
      let digit : is_digit_char (digit_char (n % base)) ≡ true =
        digit_char_sound (n % base) (omega (arith, mod-lt n {m = base} (omega arith))) in
      rw (lt→ltb 0 n some_left) (elim (Bool-cases (ltb 0 (n / base))) [
        | inl e ↦
            format_digits-IsNumeral fuel (n / base) (digit_char (n % base) ∷ digits)
              (ground (arith, quotient_lt n)) (ground arith) (digit, all)
        | inr e ↦
            subst (λ k. IsNumeral (format_digits base fuel k (digit_char (n % base) ∷ digits)))
              (sym (zero_of e))
              (subst IsNumeral (sym (format_digits-zero fuel (digit_char (n % base) ∷ digits)))
                (digit_char (n % base), digits, refl, digit, all))
      ])
    where
      zero_of : ltb 0 (n / base) ≡ false → n / base ≡ 0
      zero_of e = ground arith

  format_nat-IsNumeral : (n : ℕ) → IsNumeral (format_nat base n)
  unfolding format_nat
  format_nat-IsNumeral n = elim (Bool-cases (n == 0)) [
    | inl e ↦ rw e (b'0', [], refl, refl, tt)
    | inr e ↦ rw e (format_digits-IsNumeral n n [] (omega arith) (ground arith) tt)
  ]

  parse_zero : parse_digits base (some 0) (b'0' ∷ []) ≡ some 0
  unfolding parse_digits
  parse_zero = ap (λ o. parse_digits base o []) first
    where
      first : push_digit base 0 (some 0) ≡ some 0
      first = rw (lt→ltb 0 base (omega arith)) (ap (λ k. some k) (omega arith))

  parse_digits-format_nat : (n : ℕ) → parse_digits base (some 0) (format_nat base n) ≡ some n
  unfolding format_nat parse_digits
  parse_digits-format_nat n = elim (Bool-cases (n == 0)) [
    | inl e ↦ rw e (parse_zero ∙ ap (λ k. some k) (ground arith))
    | inr e ↦ rw e (parse_digits-format_digits n n [] (omega arith))
  ]

  parse_nat-format_nat : (n : ℕ) → parse_nat base (format_nat base n) ≡ some n
  unfolding parse_nat
  parse_nat-format_nat n = go (format_nat-IsNumeral n)
    where
      go : IsNumeral (format_nat base n) → parse_nat base (format_nat base n) ≡ some n
      go (c, rest, e, d, all) =
          rw e (subst (λ l. parse_digits base (some 0) l ≡ some n) e (parse_digits-format_nat n))

  -- A numeral has no sign.
  parse_int-numeral : (l : List ℕ) → IsNumeral l → parse_int base l ≡ signed (parse_nat base l)
  unfolding parse_int
  parse_int-numeral l (c, rest, e, d, all) =
      rw (e, ==_ne c b'+' (ground arith), ==_ne c b'-' (ground arith))

  -- A 64-bit integer that is formatted and parsed comes back.
  pub parse_int-format_int : (z : ℤ) → IsInt64 z → parse_int base (format_int base z) ≡ some z
  unfolding parse_int format_int
  parse_int-format_int (pos n) h =
      parse_int-numeral (format_nat base n) (format_nat-IsNumeral n)
      ∙ ap signed (parse_nat-format_nat n)
      ∙ (rw (lt→ltb n (2 ^ 63) h))
  parse_int-format_int (negsuc n) h = rw (parse_nat-format_nat (suc n), lt→leb (suc n) (2 ^ 63) h)

  -- The characters of a formatted integer.
  pub format_int-chars :
      (z : ℤ) → All (λ c. (is_digit_char c || (c == b'-')) ≡ true) (format_int base z)
  unfolding format_int
  format_int-chars (pos n) = numeral_chars (format_nat base n) (format_nat-IsNumeral n)
  format_int-chars (negsuc n) =
      (refl, numeral_chars (format_nat base (suc n)) (format_nat-IsNumeral (suc n)))

-- A number below the k-th power of 36 has at most k digits more than those that are there.
length-format_digits :
    (k fuel n : ℕ) (digits : List ℕ)
    → n < 36 ^ k
    → length (format_digits 36 fuel n digits) ≤ k + length digits
unfolding format_digits
length-format_digits k zero n digits h = omega arith
length-format_digits zero (suc fuel) n digits h = elim (Bool-cases (ltb 0 n)) [
  | inl e ↦ absurd (ground arith)
  | inr e ↦ rw e (omega arith)
]
length-format_digits (suc k) (suc fuel) n digits h = elim (Bool-cases (ltb 0 n)) [
  | inl e ↦
      let smaller : n / 36 < 36 ^ k = omega arith in
      rw e
        (omega (arith, length-format_digits k fuel (n / 36) (digit_char (n % 36) ∷ digits) smaller))
  | inr e ↦ rw e (omega arith)
]

length-format_nat : (n : ℕ) → n ≤ 2 ^ 63 → length (format_nat 36 n) ≤ 13
unfolding format_nat
length-format_nat n h = elim (Bool-cases (n == 0)) [
  | inl e ↦ rw e (omega arith)
  | inr e ↦ rw e (length-format_digits 13 n n [] (omega arith))
]

-- A 64-bit integer has at most 14 characters to the base 36.
pub length-format_int : (z : ℤ) → IsInt64 z → length (format_int 36 z) ≤ 14
unfolding format_int
length-format_int (pos n) h = omega (arith, length-format_nat n (omega arith))
length-format_int (negsuc n) h = omega (arith, length-format_nat (suc n) h)
