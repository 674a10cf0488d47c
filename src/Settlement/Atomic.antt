-- ===== src/Settlement/Atomic.antt =====
-- The settlement of one poll happens whole or not at all. About settleOne of
-- internal/app/settlement.go under RunInTx of internal/adapter/postgres/db.go.
use cs2_predictor.Settlement.Tables.{
  S, Ledger, Books, SettlementOutside, begun, committed, closed_by, finished, run_in_tx,
}
use cs2_predictor.Settlement.{settle_one}
use cs2_predictor.Base.{
  none, err, refl, some, Option, List, sym, false, ◌≡◌, Result, ok, true, ℕ, Error, Bool, subst,
  ◌+◌,
}
use cs2_predictor.Prediction.Poll.{Poll}
use cs2_predictor.Competition.Catalog.{Event, Match}
use cs2_predictor.Settlement.Settled.{IsSettled, settle_one_done}
use cs2_predictor.Settlement.Tables.{committed, closed_by, finished, begun, run_in_tx}

-- In a transaction, either what it ran has succeeded from the tables of before and stays, or the
-- tables are as they were.
abbrev pub HasRun : S (Unit {0}) → Ledger → Result (Unit {0}) → Books → Type 0
HasRun body w (ok done) books =
    (w' : Ledger) × (w'.books ≡ w.books) × ((body w').0 ≡ ok tt) × (books ≡ (body w').1.books)
HasRun body w (err e) books = books ≡ w.books

committed_lem :
    (out : SettlementOutside) (body : S (Unit {0})) (w w' : Ledger) (fault : Option Error)
    → w'.books ≡ w.books
    → (body w').0 ≡ ok tt
    → HasRun body w
        (committed fault w.books (body w').1).0
        (committed fault w.books (body w').1).1.books
committed_lem out body w w' none same h = (w', same, h, refl)
committed_lem out body w w' (some e) same h = refl

closed_by_lem :
    (out : SettlementOutside) (body : S (Unit {0})) (w w' : Ledger) (aborted : Bool)
    → w'.books ≡ w.books
    → (body w').0 ≡ ok tt
    → HasRun body w
        (closed_by out w.books aborted (body w').1).0
        (closed_by out w.books aborted (body w').1).1.books
closed_by_lem out body w w' true same h = refl
closed_by_lem out body w w' false same h =
    committed_lem out body w w' (out.fault (body w').1.calls) same h

finished_lem :
    (out : SettlementOutside) (body : S (Unit {0})) (w w' : Ledger) (r : Result (Unit {0}))
    → w'.books ≡ w.books
    → (body w').0 ≡ r
    → HasRun body w
        (finished out w.books r (body w').1).0
        (finished out w.books r (body w').1).1.books
finished_lem out body w w' (err e) same h = refl
finished_lem out body w w' (ok tt) same h = closed_by_lem out body w w' (body w').1.aborted same h

begun_lem :
    (out : SettlementOutside) (body : S (Unit {0})) (w : Ledger) (fault : Option Error)
    → HasRun body w (begun out fault body w).0 (begun out fault body w).1.books
begun_lem out body w (some e) = refl
begun_lem out body w none =
    finished_lem out body w (record w { calls = w.calls + 1; aborted = false }) _ refl refl

pub run_in_tx_lem :
    (out : SettlementOutside) (body : S (Unit {0})) (w : Ledger)
    → HasRun body w (run_in_tx out body w).0 (run_in_tx out body w).1.books
unfolding run_in_tx
run_in_tx_lem out body w = begun_lem out body w (out.fault w.calls)

-- What the transaction of one poll leaves.
abbrev pub AllOrNothing :
    SettlementOutside → Match → Poll → List ℕ → Books → Result (Unit {0}) → Books → Type 0
AllOrNothing out m p hash before (ok done) after = IsSettled out m p hash before after
AllOrNothing out m p hash before (err e) after = after ≡ before

whole :
    (out : SettlementOutside) (event : Event) (m : Match) (p : Poll) (hash : List ℕ) (w : Ledger)
    → (r : Result (Unit {0})) (books : Books) → HasRun (settle_one out event m p hash) w r books
    → AllOrNothing out m p hash w.books r books
whole out event m p hash w (ok done) books (w', same, success, stored) =
    subst (λ b. IsSettled out m p hash b books) same
      (subst (IsSettled out m p hash w'.books) (sym stored)
        (settle_one_done out event m p hash w' success))
whole out event m p hash w (err e) books h = h

-- The settlement of a poll in its transaction, whichever of its statements fail and wherever it
-- stops: it gives an error and the awards, the outbox and the marks are as they were, or it succeeds
-- and the poll's awards are those that its votes have earned by the match's score, its hash is
-- stored, the hashes and the awards of all other polls are as they were, the
-- outbox has new rows at its end only, and one of these is the message about the match.
pub settled_whole :
    (out : SettlementOutside) (event : Event) (m : Match) (p : Poll) (hash : List ℕ) (w : Ledger)
    → AllOrNothing out m p hash w.books
        (run_in_tx out (settle_one out event m p hash) w).0
        (run_in_tx out (settle_one out event m p hash) w).1.books
settled_whole out event m p hash w =
    whole out event m p hash w _ _ (run_in_tx_lem out (settle_one out event m p hash) w)
