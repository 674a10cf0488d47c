-- ===== src/Prediction/Keys.antt =====
-- No statement of the service breaks the primary key of the poll table.
use cs2_predictor.Base.Pairs.{Pairs}
use cs2_predictor.Prediction.Poll.{Poll}
use cs2_predictor.Base.{
  refl, inl, ok, All, Bool-cases, ℕ, ◌++◌, arith, ◌≡◌, inr, ◌∷◌, All-append, List, ◌==◌, [], false,
  any,
}
use cs2_predictor.Prediction.Store.{has_id, updated_row, upsert_poll, new_row, write_row}
use cs2_predictor.Prediction.Rows.{OtherId, DistinctIds}
use cs2_predictor.Prediction.Effects.{Store, PollRow}

DistinctIds-write_row :
    (f : PollRow → PollRow) (id : ℕ) (rs : List PollRow)
    → ((r : PollRow) → (f r).id ≡ r.id)
    → Pairs OtherId rs
    → Pairs OtherId (write_row f id rs)
unfolding write_row
DistinctIds-write_row f id [] same h = tt
DistinctIds-write_row f id (r ∷ rs) same h = elim (Bool-cases (r.id == id)) [
  | inl e ↦
      rw e
        (others (f r) rs (all_from r (f r) (same r) rs h.0), DistinctIds-write_row f id rs same h.1)
  | inr e ↦ rw e (others r rs h.0, DistinctIds-write_row f id rs same h.1)
]
  where
    all_from :
        (x y : PollRow)
        → y.id ≡ x.id
        → (rs : List PollRow) → All (OtherId x) rs
        → All (OtherId y) rs
    all_from x y e [] k = tt
    all_from x y e (r ∷ rs) k = (ground arith, all_from x y e rs k.1)

    others :
        (x : PollRow) (rs : List PollRow) → All (OtherId x) rs → All (OtherId x) (write_row f id rs)
    others x [] k = tt
    others x (r ∷ rs) k = elim (Bool-cases (r.id == id)) [
      | inl e ↦ rw e (rw (same r) k.0, others x rs k.1)
      | inr e ↦ rw e (k.0, others x rs k.1)
    ]

DistinctIds-append :
    (x : PollRow) (rs : List PollRow)
    → any (has_id x.id) rs ≡ false
    → Pairs OtherId rs
    → Pairs OtherId (rs ++ x ∷ [])
unfolding has_id
DistinctIds-append x [] n h = (tt, tt)
DistinctIds-append x (r ∷ rs) n h = (
  All-append (OtherId r) rs (x ∷ []) h.0 (ground arith, tt),
  DistinctIds-append x rs (ground arith) h.1,
)

-- A poll that is saved leaves the ids of the table distinct if they were.
pub upsert-DistinctIds :
    (p : Poll) (s t : Store) → upsert_poll p s ≡ ok t → DistinctIds s → DistinctIds t
unfolding upsert_poll updated_row new_row
upsert-DistinctIds p s t e h = ground (
  arith,
  DistinctIds-write_row (updated_row p) p.id s.polls (λ r. refl) h,
  DistinctIds-append (new_row p) s.polls,
)
