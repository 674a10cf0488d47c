-- ===== src/Outbox/Letters.antt =====
-- DeadLetters of internal/adapter/postgres/outbox.go: the messages whose attempts are spent, by
-- event type, and what ReplayDeadLetters does to them. The database's order of texts is a parameter.
use cs2_predictor.Base.{
  none, Bool, min, if◌then◌else◌, arith, ◌==◌, max, same_key, ℕ, suc, ◌+◌, String, Bool-cases, ◌≡◌,
  ◌∷◌, length, ◌∙◌, ◌||◌, [], inr, ap, refl, inl, ◌&&◌, sym, some, Option, List, keep_if, ltb,
}
use cs2_predictor.Outbox.Table.{
  is_dead, revive, OutboxRow, update_where, replay_dead_letters, is_pending, Bytes,
}
use cs2_predictor.Base.Sort.{stable_sort-perm, stable_sort}
use native.Mathlib.Nat.{ℕ_set}
use mathlib.Core.List.{Perm, Permᴰ}
use mathlib.Core.Logic.{∥∥₁_elim}
use mathlib.Core.Path.{ap₂}

pub record DeadLetterGroup : Type 0 where
  pub event_type : String
  pub count : ℕ
  pub oldest : ℕ
  pub newest : ℕ
  pub last_error : Bytes

-- `coalesce(…, '')`
abbrev pub error_text : Option Bytes → Bytes
error_text none = []
error_text (some text) = text

abbrev pub group_of : OutboxRow → DeadLetterGroup
group_of r = record {
  event_type = r.event_type;
  count = 1;
  oldest = r.occurred_at;
  newest = r.occurred_at;
  last_error = error_text r.last_error;
}

-- The aggregates of a group with one more row.
abbrev pub grow : OutboxRow → DeadLetterGroup → DeadLetterGroup
grow r g = record g {
  count = g.count + 1;
  oldest = min r.occurred_at g.oldest;
  newest = max r.occurred_at g.newest;
  last_error = if ltb g.newest r.occurred_at then error_text r.last_error else g.last_error;
}

-- `GROUP BY event_type`, row by row.
abbrev pub add_row : OutboxRow → List DeadLetterGroup → List DeadLetterGroup
add_row r [] = group_of r ∷ []
add_row r (g ∷ groups) =
    let rest = add_row r groups in
    if same_key g.event_type r.event_type then grow r g ∷ groups else g ∷ rest

abbrev pub group_rows : List OutboxRow → List DeadLetterGroup
group_rows [] = []
group_rows (r ∷ rows) = add_row r (group_rows rows)

-- `ORDER BY count(*) DESC, event_type`
abbrev pub worse : (String → String → Bool) → DeadLetterGroup → DeadLetterGroup → Bool
worse collates a b =
    ltb b.count a.count || ((a.count == b.count) && collates a.event_type b.event_type)

unfoldable pub dead_letters : (String → String → Bool) → List OutboxRow → List DeadLetterGroup
unfolding stable_sort
dead_letters collates rows = stable_sort (worse collates) (group_rows (keep_if is_dead rows))

abbrev pub total : List DeadLetterGroup → ℕ
total [] = 0
total (g ∷ groups) = g.count + total groups

total-add_row :
    (r : OutboxRow) (groups : List DeadLetterGroup) → total (add_row r groups) ≡ suc (total groups)
total-add_row r [] = omega arith
total-add_row r (g ∷ groups) = elim (Bool-cases (same_key g.event_type r.event_type)) [
  | inl e ↦ rw e (omega arith)
  | inr e ↦ rw e (omega (arith, total-add_row r groups))
]

total-group_rows : (rows : List OutboxRow) → total (group_rows rows) ≡ length rows
total-group_rows [] = refl
total-group_rows (r ∷ rows) = total-add_row r (group_rows rows) ∙ ap suc (total-group_rows rows)

total-perm : (xs ys : List DeadLetterGroup) → Perm xs ys → total xs ≡ total ys
total-perm xs ys p = ∥∥₁_elim p (ℕ_set _ _) (λ d. go d)
  where
    go : {us vs : List DeadLetterGroup} → Permᴰ us vs → total us ≡ total vs
    go Permᴰ.nil = refl
    go (Permᴰ.cons e p) = ap₂ ◌+◌ (ap (λ g. g.count) e) (go p)
    go (Permᴰ.swap {l = l} d e) = omega (arith, ap (λ g. g.count) d, ap (λ g. g.count) e)
    go (Permᴰ.trans p q) = go p ∙ go q

-- The groups count every dead row once.
pub total-dead_letters :
    (collates : String → String → Bool) (rows : List OutboxRow)
    → total (dead_letters collates rows) ≡ length (keep_if is_dead rows)
unfolding dead_letters
total-dead_letters collates rows =
    total-perm _ _ (stable_sort-perm (worse collates) (group_rows (keep_if is_dead rows)))
    ∙ total-group_rows (keep_if is_dead rows)

replay_none_dead :
    (at : ℕ) (rows : List OutboxRow) → keep_if is_dead (update_where is_dead (revive at) rows) ≡ []
replay_none_dead at [] = refl
replay_none_dead at (r ∷ rows) = ground (arith, replay_none_dead at rows)

replay_due :
    (at : ℕ) (rows : List OutboxRow)
    → length (keep_if (is_pending at) (update_where is_dead (revive at) rows))
      ≡ length (keep_if (is_pending at) rows) + length (keep_if is_dead rows)
replay_due at [] = refl
replay_due at (r ∷ rows) = ground (arith, replay_due at rows)

-- A replay answers with the number of messages that the groups counted, leaves no dead message,
-- and makes exactly that many more messages due at once.
pub replay-dead_letters :
    (collates : String → String → Bool) (at : ℕ) (rows : List OutboxRow)
    → ((replay_dead_letters at rows).1 ≡ total (dead_letters collates rows))
      × (dead_letters collates (replay_dead_letters at rows).0 ≡ [])
      × (length (keep_if (is_pending at) (replay_dead_letters at rows).0)
          ≡ length (keep_if (is_pending at) rows) + (replay_dead_letters at rows).1)
unfolding replay_dead_letters dead_letters
replay-dead_letters collates at rows =
    (sym (total-dead_letters collates rows), rw (replay_none_dead at rows), replay_due at rows)
