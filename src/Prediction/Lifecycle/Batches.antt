-- ===== src/Prediction/Lifecycle/Batches.antt =====
-- The batches of the service: every poll of a batch is open when its turn comes, since the others
-- do not touch its row.
use cs2_predictor.Base.Pairs.{Pairs}
use cs2_predictor.Base.{Result, arith, ◌∷◌, ok, sym, All, ◌==◌, ◌≡◌, List, ℕ, false, ◌∙◌, err, []}
use cs2_predictor.Prediction.Keeps.{Keeps}
use cs2_predictor.Prediction.Poll.{Poll}
use cs2_predictor.Prediction.Service.{moved_or, Batch, run_each, move_each}
use cs2_predictor.Prediction.Effects.{Env, World, M, Store}
use cs2_predictor.Prediction.Lifecycle.{
  save_poll-other, Evolves-refl, SameRow, save_poll-Evolves, Evolves-trans, OpenRow, Evolves,
}
use cs2_predictor.Prediction.Repository.{save_poll}

abbrev pub OtherPoll : Poll → Poll → Type 0
OtherPoll a b = (a.id == b.id) ≡ false

-- What a list of open polls is for the store that it was read from.
abbrev pub IsPending : List Poll → Store → Type 0
IsPending ps s = Pairs OtherPoll ps × All (λ p. OpenRow p.id s) ps

OpenRow-SameRow : (id : ℕ) (s t : Store) → SameRow id s t → OpenRow id s → OpenRow id t
OpenRow-SameRow id s t e h r k = h r (sym e ∙ k)

pub All-OpenRow-other :
    (p : Poll) (ps : List Poll) (s t : Store)
    → ((j : ℕ) → (j == p.id) ≡ false → SameRow j s t)
    → All (OtherPoll p) ps
    → All (λ q. OpenRow q.id s) ps
    → All (λ q. OpenRow q.id t) ps
All-OpenRow-other p [] s t e o h = tt
All-OpenRow-other p (q ∷ ps) s t e o h =
    (OpenRow-SameRow q.id s t (e q.id (ground arith)) h.0, All-OpenRow-other p ps s t e o.1 h.1)

module _ (env : Env) where
  module _ (step : Poll → M (Unit {0}))
      (moves : (p : Poll) (w : World) → OpenRow p.id w.store → Keeps Evolves (step p) w)
      (alone : (p : Poll) (w : World) (j : ℕ)
        → (j == p.id) ≡ false
        → Keeps (SameRow j) (step p) w) where
    pub run_each-Evolves :
        (ps : List Poll) (w : World)
        → IsPending ps w.store
        → Evolves w.store (run_each env step ps w).1.store
    unfolding run_each
    run_each-Evolves [] w h = Evolves-refl w.store
    run_each-Evolves (p ∷ ps) w h =
        Evolves-trans w.store (step p w).1.store (run_each env step ps (step p w).1).1.store
          (moves p w h.1.0)
          (run_each-Evolves ps (step p w).1
            (h.0.1, All-OpenRow-other p ps w.store (step p w).1.store (alone p w) h.0.0 h.1.1))

  pub move_each-Evolves :
      (at : ℕ) (ps : List Poll) (w : World)
      → IsPending ps w.store
      → Evolves w.store (move_each env at ps w).1.store
  unfolding move_each
  move_each-Evolves at [] w h = Evolves-refl w.store
  move_each-Evolves at (p ∷ ps) w h = go (save_poll env moved w).0 (
      move_each-Evolves at ps (save_poll env moved w).1 (
        h.0.1,
        All-OpenRow-other p ps w.store (save_poll env moved w).1.store
            (λ j ne. save_poll-other env moved w j ne) h.0.0 h.1.1,
      ))
    where
      moved : Poll
      moved = record p { closes_at = at }

      first : Evolves w.store (save_poll env moved w).1.store
      first = save_poll-Evolves env moved w h.1.0

      rest : Batch × World
      rest = move_each env at ps (save_poll env moved w).1

      go :
          (r : Result Poll)
          → Evolves (save_poll env moved w).1.store rest.1.store
          → Evolves w.store (moved_or p.id r (save_poll env moved w).1 rest).1.store
      go (ok q) k = Evolves-trans w.store (save_poll env moved w).1.store rest.1.store first k
      go (err e) k = first
