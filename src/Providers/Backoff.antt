-- ===== src/Providers/Backoff.antt =====
-- How long a circuit stays open.
use native.Mathlib.Nat.{pow-le-pow_right, one-le-pow, mul-le-mul_left}
use cs2_predictor.Providers.{backoff}
use cs2_predictor.Base.{
  ◌%◌, min, ℕ, zero, ◌∙◌, ◌==◌, leb, true, ltb, suc, if◌then◌else◌, ◌||◌, ◌*◌, ◌&&◌, refl, ◌^◌, ◌<◌,
  sym, ◌≤◌, ap, arith, ◌≡◌, Bool, ==_iff, ℕ_discrete,
}

-- With a positive maximum, the delay is positive and at most the maximum, whatever the shift comes to.
pub backoff_bounds :
    (base max_delay over : ℕ)
    → 0 < max_delay
    → (0 < backoff base max_delay over) × (backoff base max_delay over ≤ max_delay)
unfolding backoff
backoff_bounds base max_delay over h = ground arith

in_range :
    (x max_delay : ℕ)
    → 0 < x
    → x < 2 ^ 63
    → (if (x % 2 ^ 64 == 0) || leb (2 ^ 63) (x % 2 ^ 64) || ltb max_delay (x % 2 ^ 64)
        then max_delay
        else x % 2 ^ 64)
      ≡ min max_delay x
in_range x max_delay h k = ground arith

-- With a positive base whose shift by 30 does not overflow, the delay doubles with each further
-- failure, thirty times at most, up to the maximum.
pub backoff_eq :
    (base max_delay over : ℕ)
    → 0 < base
    → base * 2 ^ 30 < 2 ^ 63
    → backoff base max_delay over ≡ min max_delay (base * 2 ^ min over 30)
unfolding backoff
backoff_eq base max_delay over h k =
    let capped : 2 ^ min over 30 ≤ 2 ^ 30 = pow-le-pow_right (omega arith) {j = 30} (omega arith) in
    let positive : 1 ≤ 2 ^ min over 30 = one-le-pow (min over 30) 2 (omega arith) in
    let above : base * 1 ≤ base * 2 ^ min over 30 = mul-le-mul_left base positive in
    let below : base * 2 ^ min over 30 ≤ base * 2 ^ 30 = mul-le-mul_left base capped in
    in_range (base * 2 ^ min over 30) max_delay (omega arith) (omega arith)

-- The delays of the default routing.
abbrev expected : ℕ → ℕ
expected over = if ltb over 5 then 30000000000 * 2 ^ over else 900000000000

abbrev agree_to : ℕ → Bool
unfolding backoff
agree_to zero = backoff 30000000000 900000000000 0 == expected 0
agree_to (suc n) = (backoff 30000000000 900000000000 (suc n) == expected (suc n)) && agree_to n

both : (a b : Bool) → (a && b) ≡ true → (a ≡ true) × (b ≡ true)
both a b e = ground (arith, e)

agree_to_sound :
    (n over : ℕ)
    → over ≤ n
    → agree_to n ≡ true
    → backoff 30000000000 900000000000 over ≡ expected over
unfolding agree_to
agree_to_sound zero over h e =
    let at_zero : over ≡ 0 = omega arith in
    rw at_zero ((==_iff (backoff 30000000000 900000000000 0) (expected 0)).0 e)
agree_to_sound (suc n) over h e =
    let here : backoff 30000000000 900000000000 (suc n) ≡ expected (suc n) =
      (==_iff (backoff 30000000000 900000000000 (suc n)) (expected (suc n))).0 (both _ _ e).0 in
    elim (ℕ_discrete over (suc n)) [
      | yes same ↦ rw same here
      | no other ↦ agree_to_sound n over (omega arith) (both _ _ e).1
    ]

backoff-min :
    (base max_delay over : ℕ) → backoff base max_delay (min over 30) ≡ backoff base max_delay over
unfolding backoff
backoff-min base max_delay over =
    let same : min (min over 30) 30 ≡ min over 30 = omega arith in rw same

expected-min : (over : ℕ) → expected (min over 30) ≡ expected over
expected-min over = elim (ℕ_discrete (min over 30) over) [
  | yes same ↦ ap expected same
  | no other ↦ ground arith
]

-- By default the shift overflows at 30 further failures, and the delay is exact all the same.
pub backoff_default :
    (over : ℕ)
    → backoff 30000000000 900000000000 over
      ≡ (if ltb over 5 then 30000000000 * 2 ^ over else 900000000000)
unfolding agree_to
backoff_default over =
    sym (backoff-min 30000000000 900000000000 over)
    ∙ agree_to_sound 30 (min over 30) (omega arith) refl
    ∙ expected-min over
