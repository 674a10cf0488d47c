-- ===== src/Outbox/Budget.antt =====
-- The budget of attempts: without faults every handling of a message that is not held spends some
-- of it, so retries come to an end. About internal/app/outbox_dispatcher.go.
use native.Mathlib.Nat.{pow-le-pow_right}
use cs2_predictor.Outbox.Rows.{IsOpen}
use cs2_predictor.Base.{
  Bool-cases, ℕ, ◌+◌, ◌*◌, find_first, ◌-◌, ◌≢◌, inl, ◌^◌, ◌<◌, any, ◌∷◌, Bool, arith, All, false,
  [], ◌≤◌, true, length, ◌≡◌, inr, if◌then◌else◌, List, some, refl, ◌&&◌,
}
use cs2_predictor.Outbox.Table.{
  outbox_max_attempts, unpublished, cast_refused, mark_failed, mark_published, OutboxRow,
  update_where, Bytes, OutboxMessage, cut_error, is_row, failed_update,
}
use cs2_predictor.Outbox.Dispatch.{held, Publisher, Surroundings}

-- The attempts that a row may still make.
abbrev pub remaining : OutboxRow → ℕ
remaining r = if unpublished r then outbox_max_attempts - r.attempts else 0

abbrev pub budget : List OutboxRow → ℕ
budget [] = 0
budget (r ∷ rows) = remaining r + budget rows

pub budget_le : (rows : List OutboxRow) → budget rows ≤ outbox_max_attempts * length rows
budget_le [] = omega arith
budget_le (r ∷ rows) = ground (arith, budget_le rows)

-- Texts that the database takes, whatever they are.
abbrev pub TakesTexts : Surroundings → Type 0
TakesTexts out = (text : Bytes) → out.storable text ≡ true

-- The publisher found for the message never asks for another moment.
abbrev pub NeverHeld : List Publisher → OutboxMessage → Type 0
NeverHeld publishers m =
    (p : Publisher)
    → find_first (λ q. q.supports m.event_type) publishers ≡ some p
    → (n until : ℕ) → p.publish n m ≢ held until

update-budget_le :
    (test : OutboxRow → Bool) (change : OutboxRow → OutboxRow)
    → ((r : OutboxRow) → IsOpen r → remaining (change r) < remaining r)
    → (rows : List OutboxRow) → All (λ r. test r ≡ true → IsOpen r) rows
    → budget (update_where test change rows) ≤ budget rows
update-budget_le test change spends [] h = omega arith
update-budget_le test change spends (r ∷ rows) h = elim (Bool-cases (test r)) [
  | inl e ↦ rw e (omega (arith, spends r (h.0 e), update-budget_le test change spends rows h.1))
  | inr e ↦ rw e (omega (arith, update-budget_le test change spends rows h.1))
]

pub update-budget_lt :
    (test : OutboxRow → Bool) (change : OutboxRow → OutboxRow)
    → ((r : OutboxRow) → IsOpen r → remaining (change r) < remaining r)
    → (rows : List OutboxRow) → All (λ r. test r ≡ true → IsOpen r) rows
    → any test rows ≡ true
    → budget (update_where test change rows) < budget rows
update-budget_lt test change spends [] h found = cc
update-budget_lt test change spends (r ∷ rows) h found = elim (Bool-cases (test r)) [
  | inl e ↦ rw e (omega (arith, spends r (h.0 e), update-budget_le test change spends rows h.1))
  | inr e ↦ rw e (omega (arith, update-budget_lt test change spends rows h.1 (rw e at found)))
]

-- With attempts below the budget the power fits the cast.
pub cast_fits : (r : OutboxRow) → r.attempts < outbox_max_attempts → cast_refused r ≡ false
cast_fits r h =
    let small : 2 ^ r.attempts ≤ 2 ^ 20 = pow-le-pow_right (omega arith) {j = 20} (omega arith) in
    ground arith

pub published-remaining :
    (at : ℕ) (r : OutboxRow) → IsOpen r → remaining (mark_published at r) < remaining r
published-remaining at r h = ground arith

pub failed-remaining :
    (at : ℕ) (text : Bytes) (r : OutboxRow)
    → IsOpen r
    → remaining (mark_failed at text r) < remaining r
failed-remaining at text r h = ground arith

-- With open rows and a text that the database takes, the UPDATE of Failed is not refused.
pub failed_update-open :
    (storable : Bytes → Bool) (at id occurred_at : ℕ) (text : Bytes) (rows : List OutboxRow)
    → ((t : Bytes) → storable t ≡ true)
    → All (λ r. is_row id occurred_at r ≡ true → IsOpen r) rows
    → failed_update storable at id occurred_at text rows
      ≡ some (update_where (is_row id occurred_at) (mark_failed at (cut_error text)) rows)
unfolding failed_update
failed_update-open storable at id occurred_at text rows takes h =
    rw (takes (cut_error text), none_refused rows h)
  where
    none_refused :
        (l : List OutboxRow)
        → All (λ r. is_row id occurred_at r ≡ true → IsOpen r) l
        → any (λ row. is_row id occurred_at row && cast_refused row) l ≡ false
    none_refused [] k = refl
    none_refused (r ∷ l) k = elim (Bool-cases (is_row id occurred_at r)) [
      | inl e ↦ rw (e, cast_fits r (k.0 e).1) (none_refused l k.1)
      | inr e ↦ rw e (none_refused l k.1)
    ]
