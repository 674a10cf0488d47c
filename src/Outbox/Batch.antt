-- ===== src/Outbox/Batch.antt =====
-- What the query for a batch answers with: messages of open rows, each row at most once.
-- About Pending of internal/adapter/postgres/outbox.go.
use mathlib.Core.List.Perm
use cs2_predictor.Base.{
  All-take, All-of_map, true, arith, All-keep_if, ◌≡◌, All-map, [], ℕ, ◌∷◌, List, All,
}
use cs2_predictor.Outbox.Table.{occurred_before, is_pending, message_of, OutboxRow, pending}
use cs2_predictor.Base.Pairs.{Pairs-keep_if, Pairs-perm, Pairs-of_map, Pairs-take, Pairs}
use cs2_predictor.Outbox.Rows.{IsOpen, Apart, IsFresh, IsKeyed, keyed_pending}
use cs2_predictor.Base.Sort.{stable_sort-perm, All-stable_sort}
use mathlib.Core.Bool.{Bool-set}

is_pending-IsOpen : (at : ℕ) (r : OutboxRow) → is_pending at r ≡ true → IsOpen r
is_pending-IsOpen at r h = ground arith

pub pending-IsFresh :
    (at limit : ℕ) (rows : List OutboxRow)
    → IsKeyed rows
    → All (IsFresh rows) (pending at limit rows)
unfolding pending
pending-IsFresh at limit rows keyed = All-of_map (IsFresh rows) message_of _ (
    All-take _ limit _ (
      All-stable_sort occurred_before (λ s. IsFresh rows (message_of s)) _
        (All-map _ (λ s. IsFresh rows (message_of s))
          (λ s h. All-map _ _ (λ r k e. is_pending-IsOpen at r (k e)) rows (h.0 h.1)) _
          (All-keep_if _ (is_pending at) rows (keyed_pending at rows keyed)))))

pub pending-Apart :
    (at limit : ℕ) (rows : List OutboxRow) → IsKeyed rows → Pairs Apart (pending at limit rows)
unfolding pending
pending-Apart at limit rows keyed = Pairs-of_map Apart message_of _ (
    Pairs-take (λ a b. Apart (message_of a) (message_of b)) limit _
      (Pairs-perm (λ a b. Apart (message_of a) (message_of b)) (λ a b h. ground arith)
        (λ a b. Bool-set _ _) (Perm.symm (stable_sort-perm occurred_before _))
        (Pairs-keep_if _ (is_pending at) rows (apart rows keyed))))
  where
    apart : (l : List OutboxRow) → IsKeyed l → Pairs (λ a b. Apart (message_of a) (message_of b)) l
    apart [] h = tt
    apart (x ∷ l) h = (All-map _ _ (λ r k. ground arith) l h.0, apart l h.1)
