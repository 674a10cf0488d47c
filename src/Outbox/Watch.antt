-- ===== src/Outbox/Watch.antt =====
-- DeadLetterWatch of internal/app/dead_letters.go.

-- The loop of itoa, on fuel; the digits that are there already stand behind.
use cs2_predictor.Base.{
  ap, suc, ◌==◌, ◌∷◌, ℕ, ◌-◌, ==_ne, ◌≡◌, [], none, ◌≤◌, bytes, zero, ◌<◌, ◌%◌, arith, List, inl,
  ltb, leb, if◌then◌else◌, Bool-cases, ◌++◌, some, ◌+◌, inr, Option, All-map, All, ◌∙◌, ◌/◌, ◌*◌,
}
use cs2_predictor.Outbox.Letters.{total, DeadLetterGroup}
use cs2_predictor.Outbox.Table.{Bytes}
use cs2_predictor.Base.Pairs.{Pairs}

digits_loop : ℕ → ℕ → Bytes → Bytes
digits_loop zero n digits = digits
digits_loop (suc fuel) n digits =
    let rest = digits_loop fuel (n / 10) ((b'0' + n % 10) ∷ digits) in
    if ltb 0 n then rest else digits

unfoldable pub itoa : ℕ → Bytes
unfolding digits_loop
itoa n = if n == 0 then b'0' ∷ [] else digits_loop n n []

-- The number that decimal digits denote, after those that were read before.
abbrev pub decimal : ℕ → Bytes → ℕ
decimal before [] = before
decimal before (c ∷ digits) = decimal (before * 10 + (c - b'0')) digits

decimal-digits_loop :
    (fuel n : ℕ) (digits : Bytes)
    → n ≤ fuel
    → decimal 0 (digits_loop fuel n digits) ≡ decimal n digits
unfolding digits_loop
decimal-digits_loop zero n digits h = ap (λ k. decimal k digits) (omega arith)
decimal-digits_loop (suc fuel) n digits h = elim (Bool-cases (ltb 0 n)) [
  | inl e ↦ rw e (
      decimal-digits_loop fuel (n / 10) ((b'0' + n % 10) ∷ digits) (ground arith)
      ∙ ap (λ k. decimal k digits) (omega arith))
  | inr e ↦ rw e (ap (λ k. decimal k digits) (ground arith))
]

-- The text of a number denotes the number.
pub decimal-itoa : (n : ℕ) → decimal 0 (itoa n) ≡ n
unfolding itoa
decimal-itoa n = elim (Bool-cases (n == 0)) [
  | inl e ↦ rw e (ground arith)
  | inr e ↦ rw e (decimal-digits_loop n n [] (omega arith))
]

-- `g.EventType + "×" + itoa(g.Count)`, the sign in its two bytes.
abbrev one_kind : DeadLetterGroup → Bytes
one_kind g = bytes g.event_type ++ (0xc3 ∷ 0x97 ∷ itoa g.count)

-- The groups from the index `i` on; the loop ends at the third.
abbrev describe_from : ℕ → List DeadLetterGroup → Bytes
describe_from i [] = []
describe_from i (g ∷ groups) =
    let rest = describe_from (i + 1) groups in
    if i == 3 then [] else (if ltb 0 i then bytes ", " else []) ++ (one_kind g ++ rest)

unfoldable pub describe_dead_letters : List DeadLetterGroup → Bytes
unfolding itoa
describe_dead_letters groups = describe_from 0 groups

pub record DeadLetterWatch : Type 0 where
  pub alerted : ℕ
  -- the alerts handed to the alerter, the last one first: the count and the description
  pub alerts : List (ℕ × Bytes)

-- Check, with the answer of the store; none where its query failed.
unfoldable pub check : Option (List DeadLetterGroup) → DeadLetterWatch → DeadLetterWatch
unfolding describe_dead_letters
check none w = w
check (some groups) w =
    if total groups == 0
    then record w { alerted = 0 }
    else if leb (total groups) w.alerted
    then w
    else record w {
      alerted = total groups;
      alerts = (total groups, describe_dead_letters groups) ∷ w.alerts;
    }

abbrev pub check_all : List (Option (List DeadLetterGroup)) → DeadLetterWatch → DeadLetterWatch
check_all [] w = w
check_all (groups ∷ later) w = check_all later (check groups w)

-- Of two alerts the later one names more messages.
abbrev pub IsRising : List (ℕ × Bytes) → Type 0
IsRising = Pairs (λ later earlier. earlier.0 < later.0)

-- A check that is answered finds dead letters.
abbrev pub FindsSome : Option (List DeadLetterGroup) → Type 0
FindsSome none = Unit {0}
FindsSome (some groups) = 0 < total groups

record IsWatching (w : DeadLetterWatch) : Type 0 where
  rising : IsRising w.alerts
  below : All (λ a. a.0 ≤ w.alerted) w.alerts

check-IsWatching :
    (answer : Option (List DeadLetterGroup)) (w : DeadLetterWatch)
    → FindsSome answer
    → IsWatching w
    → IsWatching (check answer w) × (w.alerted ≤ (check answer w).alerted)
unfolding check
check-IsWatching none w found h = (h, omega arith)
check-IsWatching (some groups) w found h = elim (Bool-cases (leb (total groups) w.alerted)) [
  | inl e ↦ rw (==_ne (total groups) 0 (ground arith), e) (h, omega arith)
  | inr e ↦
      rw (==_ne (total groups) 0 (ground arith), e)
        (
          record {
            rising = (All-map _ _ (λ a k. ground arith) w.alerts h.below, h.rising);
            below = (omega arith, All-map _ _ (λ a k. ground arith) w.alerts h.below);
          },
          ground arith,
        )
]

check_all-IsWatching :
    (answers : List (Option (List DeadLetterGroup))) (w : DeadLetterWatch)
    → All FindsSome answers
    → IsWatching w
    → IsWatching (check_all answers w)
check_all-IsWatching [] w found h = h
check_all-IsWatching (a ∷ answers) w found h =
    check_all-IsWatching answers (check a w) found.1 (check-IsWatching a w found.0 h).0

-- From a watch that has sent nothing yet, as long as the checks that the store answers find dead
-- letters, every alert names more messages than the one before, whatever the checks find.
pub check_all-IsRising :
    (answers : List (Option (List DeadLetterGroup)))
    → All FindsSome answers
    → IsRising (check_all answers (record { alerted = 0; alerts = [] })).alerts
check_all-IsRising answers found =
    (check_all-IsWatching answers (record { alerted = 0; alerts = [] }) found
      (record { rising = tt; below = tt })).rising
