-- ===== src/Prediction/Rows.antt =====
-- The poll table under the statements of the repository.
use mathlib.Core.Option
use cs2_predictor.Base.Pairs.{Pairs}
use cs2_predictor.Prediction.Effects.{Store, PollRow}
use cs2_predictor.Base.{
  any, ℕ, or_else, ◌++◌, All, refl, ◌==◌, [], ok, List, none, ◌∷◌, some, false, All-zip, ◌≡◌,
  if◌then◌else◌, All-map, arith, true,
}
use cs2_predictor.Prediction.Store.{write_row, row_of, upsert_poll, has_id, new_row, updated_row}
use cs2_predictor.Prediction.Poll.{Poll}

-- PRIMARY KEY (id).
abbrev pub OtherId : PollRow → PollRow → Type 0
OtherId a b = (a.id == b.id) ≡ false

abbrev pub DistinctIds : Store → Type 0
DistinctIds s = Pairs OtherId s.polls

pub row_of-write_row :
    (f : PollRow → PollRow) (id j : ℕ) (rs : List PollRow)
    → ((r : PollRow) → (f r).id ≡ r.id)
    → row_of j (write_row f id rs) ≡ (if j == id then Option.map f (row_of j rs) else row_of j rs)
unfolding row_of write_row
row_of-write_row f id j [] h = ground arith
row_of-write_row f id j (r ∷ rs) h = ground (arith, h r, row_of-write_row f id j rs h)

pub row_of-append :
    (j : ℕ) (rs : List PollRow) (x : PollRow)
    → row_of j (rs ++ x ∷ []) ≡ or_else (row_of j rs) (if x.id == j then some x else none)
unfolding row_of
row_of-append j [] x = ground arith
row_of-append j (r ∷ rs) x = ground (arith, row_of-append j rs x)

pub any-has_id :
    (id : ℕ) (rs : List PollRow)
    → any (has_id id) rs ≡ elim (row_of id rs) [ none ↦ false | some r ↦ true ]
unfolding row_of has_id
any-has_id id [] = refl
any-has_id id (r ∷ rs) = ground (arith, any-has_id id rs)

pub row_of_id : (id : ℕ) (rs : List PollRow) (r : PollRow) → row_of id rs ≡ some r → r.id ≡ id
unfolding row_of
row_of_id id [] r h = cc
row_of_id id (x ∷ rs) r h = ground (arith, row_of_id id rs r)

-- With distinct ids every row is the one that its id finds.
pub rows-found : (rs : List PollRow) → Pairs OtherId rs → All (λ r. row_of r.id rs ≡ some r) rs
unfolding row_of
rows-found [] h = tt
rows-found (x ∷ rs) h = (
  ground arith,
  All-map (λ r. OtherId x r × (row_of r.id rs ≡ some r)) (λ r. row_of r.id (x ∷ rs) ≡ some r)
      (λ r k. ground arith) rs
      (All-zip (OtherId x) (λ r. row_of r.id rs ≡ some r) rs h.0 (rows-found rs h.1)),
)

-- What an upsert does: other ids keep their rows; the poll's own id has its old row, updated, or
-- where there was none a new one.
pub upsert-other :
    (p : Poll) (s t : Store) (j : ℕ)
    → upsert_poll p s ≡ ok t
    → (j == p.id) ≡ false
    → row_of j t.polls ≡ row_of j s.polls
unfolding upsert_poll updated_row new_row
upsert-other p s t j e ne = ground (
  arith,
  row_of-write_row (updated_row p) p.id j s.polls (λ r. refl),
  row_of-append j s.polls (new_row p),
)

pub upsert_old :
    (p : Poll) (s t : Store) (r : PollRow)
    → upsert_poll p s ≡ ok t
    → row_of p.id s.polls ≡ some r
    → row_of p.id t.polls ≡ some (updated_row p r)
unfolding upsert_poll updated_row
upsert_old p s t r e h =
    ground (
      arith,
      row_of-write_row (updated_row p) p.id p.id s.polls (λ r. refl),
      any-has_id p.id s.polls,
    )

pub upsert_new :
    (p : Poll) (s t : Store)
    → upsert_poll p s ≡ ok t
    → row_of p.id s.polls ≡ none
    → row_of p.id t.polls ≡ some (new_row p)
unfolding upsert_poll new_row
upsert_new p s t e h =
    ground (arith, row_of-append p.id s.polls (new_row p), any-has_id p.id s.polls)
