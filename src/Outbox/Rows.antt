-- ===== src/Outbox/Rows.antt =====
-- The rows of the outbox by their primary key (id, occurred_at): what an UPDATE of one row leaves
-- alone, and what the query for a batch selects. About internal/adapter/postgres/outbox.go.
use cs2_predictor.Base.{
  inl, ◌<◌, All-map, All-zip, ◌&&◌, false, Bool-cases, if◌then◌else◌, [], All-append, inr, none,
  arith, ◌==◌, Bool, ◌≡◌, All, List, ◌∷◌, true, ℕ,
}
use cs2_predictor.Outbox.Table.{
  outbox_max_attempts, is_pending, OutboxRow, is_row, OutboxMessage, update_where, insert_row,
}
use cs2_predictor.Base.Pairs.{Pairs}

abbrev pub same_message : OutboxMessage → OutboxMessage → Bool
same_message m n = (m.id == n.id) && (m.occurred_at == n.occurred_at)

-- Two rows have different keys, which is what the primary key of the table demands.
abbrev pub ApartRows : OutboxRow → OutboxRow → Type 0
ApartRows a b = is_row a.id a.occurred_at b ≡ false

abbrev pub IsKeyed : List OutboxRow → Type 0
IsKeyed = Pairs ApartRows

abbrev pub Apart : OutboxMessage → OutboxMessage → Type 0
Apart m n = same_message m n ≡ false

-- The row may still be handled: it is not published and has attempts left.
abbrev pub IsOpen : OutboxRow → Type 0
IsOpen r = (r.published_at ≡ none) × (r.attempts < outbox_max_attempts)

-- Whichever row the message names is open.
abbrev pub IsFresh : List OutboxRow → OutboxMessage → Type 0
IsFresh rows m = All (λ r. is_row m.id m.occurred_at r ≡ true → IsOpen r) rows

pub All-update {κ μ} :
    (P : OutboxRow → Type κ) (Q : OutboxRow → Type μ) (test : OutboxRow → Bool)
    (change : OutboxRow → OutboxRow)
    → ((r : OutboxRow) → P r → test r ≡ true → Q (change r))
    → ((r : OutboxRow) → P r → test r ≡ false → Q r)
    → (rows : List OutboxRow) → All P rows
    → All Q (update_where test change rows)
All-update P Q test change hit miss [] h = tt
All-update P Q test change hit miss (r ∷ rows) h = elim (Bool-cases (test r)) [
  | inl e ↦ rw e (hit r h.0 e, All-update P Q test change hit miss rows h.1)
  | inr e ↦ rw e (miss r h.0 e, All-update P Q test change hit miss rows h.1)
]

-- An UPDATE that keeps the keys keeps them different.
pub update-IsKeyed :
    (test : OutboxRow → Bool) (change : OutboxRow → OutboxRow)
    → ((r : OutboxRow) → ((change r).id ≡ r.id) × ((change r).occurred_at ≡ r.occurred_at))
    → (rows : List OutboxRow) → IsKeyed rows
    → IsKeyed (update_where test change rows)
update-IsKeyed test change keep [] h = tt
update-IsKeyed test change keep (r ∷ rows) h = (
  All-update (ApartRows r) (ApartRows (if test r then change r else r)) test change
      (λ s apart e. ground (arith, keep r, keep s)) (λ s apart e. ground (arith, keep r)) rows h.0,
  update-IsKeyed test change keep rows h.1,
)

-- A row whose key no other row has, put at the end.
pub insert-IsKeyed :
    (row : OutboxRow) (rows : List OutboxRow)
    → IsKeyed rows
    → All (ApartRows row) rows
    → IsKeyed (insert_row row rows)
insert-IsKeyed row [] h apart = (tt, tt)
insert-IsKeyed row (r ∷ rows) h apart = (
  All-append (ApartRows r) rows (row ∷ []) h.0 (ground (arith, apart.0), tt),
  insert-IsKeyed row rows h.1 apart.1,
)

-- Under different keys, a row that agrees with a pending one in its key is pending too.
pub keyed_pending :
    (at : ℕ) (rows : List OutboxRow)
    → IsKeyed rows
    → All
        (λ s.
          is_pending at s ≡ true
          → All (λ r. is_row s.id s.occurred_at r ≡ true → is_pending at r ≡ true) rows)
        rows
keyed_pending at [] h = tt
keyed_pending at (x ∷ rows) h = (
  λ p. (λ e. p, All-map (ApartRows x) _ (λ r apart e. cc) rows h.0),
  All-map _ _ (λ s k p. (λ e. absurd (clash s k.0 e), k.1 p)) rows
      (All-zip (ApartRows x) _ rows h.0 (keyed_pending at rows h.1)),
)
  where
    clash : (s : OutboxRow) → ApartRows x s → is_row s.id s.occurred_at x ≡ true → ⊥
    clash s apart e = ground arith
