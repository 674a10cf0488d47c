-- ===== src/Settlement/Again.antt =====
-- Settling a match again. About Settle of internal/app/settlement.go.
use cs2_predictor.Settlement.Tables.{
  result_hash, Ledger, Books, SettlementOutside, run_in_tx, next_call,
}
use cs2_predictor.Base.{
  true, err, [], ℕ, none, Option, List, false, subst, some, Bool-cases, ◌+◌, ◌==◌, All, ◌∷◌, inr,
  ◌≡◌, Bool, inl, refl, ok, Result, sym, arith, Error,
}
use cs2_predictor.Settlement.{
  settle_final, has_hash, unless_settled, settle_match, after_tx, settle_one, is_finished,
  settle_polls, after_polls, after_hash,
}
use cs2_predictor.Competition.Catalog.{Event, Match}
use cs2_predictor.Competition.Series.{MatchScore}
use cs2_predictor.Competition.Series.Text.{score_text}
use cs2_predictor.Settlement.Atomic.{AllOrNothing, settled_whole}
use cs2_predictor.Settlement.Settled.{IsSettled}
use cs2_predictor.Prediction.Poll.{Poll}
use cs2_predictor.Base.Splits.{same_bytes_refl}
use mathlib.Core.Option.{some-ne-none}

-- The poll is marked with the hash.
abbrev pub Done : List ℕ → Books → ℕ → Type 0
Done hash books id = has_hash (result_hash id books) hash ≡ true

abbrev Answer : Type 0
Answer = (ℕ × Option Error) × Ledger

module _ (hash : List ℕ) where
  own-Done :
      (out : SettlementOutside) (m : Match) (p : Poll) (b c : Books)
      → IsSettled out m p hash b c
      → Done hash c p.id
  own-Done out m p b c h = subst (λ x. has_hash x hash ≡ true) (sym h.hashed) (same_bytes_refl hash)

  settled_keeps :
      (out : SettlementOutside) (m : Match) (p : Poll) (b c : Books) (id : ℕ)
      → IsSettled out m p hash b c
      → Done hash b id
      → Done hash c id
  settled_keeps out m p b c id h before = elim (Bool-cases (p.id == id)) [
    | inl e ↦
        let same : p.id ≡ id = ground arith in subst (Done hash c) same (own-Done out m p b c h)
    | inr e ↦ subst (λ x. has_hash x hash ≡ true) (sym (h.other_hashes id e)) before
  ]

  tx_keeps :
      (out : SettlementOutside) (m : Match) (p : Poll) (b c : Books) (id : ℕ)
      (r : Result (Unit {0}))
      → AllOrNothing out m p hash b r c
      → Done hash b id
      → Done hash c id
  tx_keeps out m p b c id (ok done) h before = settled_keeps out m p b c id h before
  tx_keeps out m p b c id (err e) h before = subst (λ x. Done hash x id) (sym h) before

  -- What a loop keeps.
  abbrev KeepsDone : (ℕ → Ledger → Answer) → Type 0
  KeepsDone further =
      (id n : ℕ) (w : Ledger) → Done hash w.books id → Done hash (further n w).1.books id

  after_tx-KeepsDone :
      (further : ℕ → Ledger → Answer) (r : Result (Unit {0}))
      → KeepsDone further
      → KeepsDone (after_tx r further)
  unfolding after_tx
  after_tx-KeepsDone further (ok done) k id n w before = k id (n + 1) w before
  after_tx-KeepsDone further (err e) k id n w before = before

  module _ (out : SettlementOutside) (event : Event) (m : Match) where
    unless_settled-KeepsDone :
        (p : Poll) (further : ℕ → Ledger → Answer) (skipped : Bool)
        → KeepsDone further
        → KeepsDone (unless_settled skipped out (settle_one out event m p hash) further)
    unfolding unless_settled
    unless_settled-KeepsDone p further true k id n w before = k id n w before
    unless_settled-KeepsDone p further false k id n w before =
        after_tx-KeepsDone further (run_in_tx out (settle_one out event m p hash) w).0 k id n
          (run_in_tx out (settle_one out event m p hash) w).1
          (tx_keeps out m p w.books _ id _ (settled_whole out event m p hash w) before)

    after_hash-KeepsDone :
        (p : Poll) (further : ℕ → Ledger → Answer) (fault : Option Error)
        → KeepsDone further
        → KeepsDone (after_hash fault out event m hash p further)
    unfolding after_hash
    after_hash-KeepsDone p further (some e) k id n w before = before
    after_hash-KeepsDone p further none k id n w before =
        unless_settled-KeepsDone p further (has_hash (result_hash p.id w.books) hash) k id n
          (next_call w) before

    settle_polls-KeepsDone : (ps : List Poll) → KeepsDone (settle_polls out event m hash ps)
    unfolding settle_polls
    settle_polls-KeepsDone [] id n w before = before
    settle_polls-KeepsDone (p ∷ ps) id n w before =
        after_hash-KeepsDone p (settle_polls out event m hash ps) (out.fault w.calls)
          (settle_polls-KeepsDone ps) id n w before

    -- A loop that ends without an error has marked its polls.
    abbrev Marks : List Poll → Answer → Type 0
    Marks ps answer = answer.0.1 ≡ none → All (λ p. Done hash answer.1.books p.id) ps

    after_tx-Marks :
        (p : Poll) (ps : List Poll) (n : ℕ) (w w' : Ledger) (r : Result (Unit {0}))
        → AllOrNothing out m p hash w.books r w'.books
        → Marks ps (settle_polls out event m hash ps (n + 1) w')
        → Marks (p ∷ ps) (after_tx r (settle_polls out event m hash ps) n w')
    unfolding after_tx
    after_tx-Marks p ps n w w' (ok done) h rest none_left = (
      settle_polls-KeepsDone ps p.id (n + 1) w' (own-Done out m p w.books w'.books h),
      rest none_left,
    )
    after_tx-Marks p ps n w w' (err e) h rest none_left = absurd (some-ne-none e none_left)

    unless_settled-Marks :
        (p : Poll) (ps : List Poll) (n : ℕ) (w : Ledger) (skipped : Bool)
        → has_hash (result_hash p.id w.books) hash ≡ skipped
        → ((k : ℕ) (w' : Ledger) → Marks ps (settle_polls out event m hash ps k w'))
        → Marks (p ∷ ps) (
            unless_settled skipped out
              (settle_one out event m p hash)
              (settle_polls out event m hash ps)
              n
              w)
    unfolding unless_settled
    unless_settled-Marks p ps n w true e rest none_left =
        (settle_polls-KeepsDone ps p.id n w e, rest n w none_left)
    unless_settled-Marks p ps n w false e rest none_left =
        after_tx-Marks p ps n w _ _ (settled_whole out event m p hash w) (rest (n + 1) _) none_left

    after_hash-Marks :
        (p : Poll) (ps : List Poll) (n : ℕ) (w : Ledger) (fault : Option Error)
        → ((k : ℕ) (w' : Ledger) → Marks ps (settle_polls out event m hash ps k w'))
        → Marks
            (p ∷ ps)
            (after_hash fault out event m hash p (settle_polls out event m hash ps) n w)
    unfolding after_hash
    after_hash-Marks p ps n w (some e) rest none_left = absurd (some-ne-none e none_left)
    after_hash-Marks p ps n w none rest none_left =
        unless_settled-Marks p ps n (next_call w) _ refl rest none_left

    pub settle_polls-Marks :
        (ps : List Poll) (n : ℕ) (w : Ledger) → Marks ps (settle_polls out event m hash ps n w)
    unfolding settle_polls
    settle_polls-Marks [] n w none_left = tt
    settle_polls-Marks (p ∷ ps) n w none_left =
        after_hash-Marks p ps n w (out.fault w.calls) (settle_polls-Marks ps) none_left

    -- A loop that does nothing.
    abbrev Idle : ℕ → Ledger → Answer → Type 0
    Idle n w answer = (answer.0.0 ≡ n) × (answer.1.books ≡ w.books)

    after_hash-Idle :
        (p : Poll) (ps : List Poll) (n : ℕ) (w : Ledger) (fault : Option Error)
        → Done hash w.books p.id
        → ((w' : Ledger) → w'.books ≡ w.books → Idle n w' (settle_polls out event m hash ps n w'))
        → Idle n w (after_hash fault out event m hash p (settle_polls out event m hash ps) n w)
    unfolding after_hash unless_settled
    after_hash-Idle p ps n w (some e) done rest = (refl, refl)
    after_hash-Idle p ps n w none done rest = rw done (rest (next_call w) refl)

    pub settle_polls-Idle :
        (ps : List Poll) (n : ℕ) (w : Ledger)
        → All (λ p. Done hash w.books p.id) ps
        → Idle n w (settle_polls out event m hash ps n w)
    unfolding settle_polls
    settle_polls-Idle [] n w h = (refl, refl)
    settle_polls-Idle (p ∷ ps) n w h = after_hash-Idle p ps n w (out.fault w.calls) h.0 (λ w' same.
        settle_polls-Idle ps n w' (subst (λ b. All (λ q. Done hash b q.id) ps) (sym same) h.1))

module _ (out : SettlementOutside) (event : Event) (m : Match) where
  -- What a second settlement does on the tables of a first.
  abbrev pub NothingNew : Answer → Books → Type 0
  NothingNew second books = (second.0.0 ≡ 0) × (second.1.books ≡ books)

  polls_again :
      (hash : List ℕ) (w w' : Ledger) (fault fault' : Option Error)
      → (after_polls fault out event m hash w).0.1 ≡ none
      → w'.books ≡ (after_polls fault out event m hash w).1.books
      → NothingNew (after_polls fault' out event m hash w') w'.books
  unfolding after_polls
  polls_again hash w w' fault (some e) h same = (refl, refl)
  polls_again hash w w' (some e) none h same = absurd (some-ne-none e h)
  polls_again hash w w' none none h same =
      settle_polls-Idle hash out event m (out.polls_of m.id) 0 (next_call w') (
        subst (λ b. All (λ p. Done hash b p.id) (out.polls_of m.id)) (sym same)
          (settle_polls-Marks hash out event m (out.polls_of m.id) 0 (next_call w) h))

  final_again :
      (over : Bool) (result : Option MatchScore) (w w' : Ledger)
      → (settle_final out event m over result w).0.1 ≡ none
      → w'.books ≡ (settle_final out event m over result w).1.books
      → NothingNew (settle_final out event m over result w') w'.books
  unfolding settle_final
  final_again over none w w' h same = (refl, refl)
  final_again false (some result) w w' h same = (refl, refl)
  final_again true (some result) w w' h same =
      polls_again (score_text result) w w' (out.fault w.calls) (out.fault w'.calls) h same

  -- A settlement of a match that gave no error is done for good: a later one of the same match and
  -- the same polls, from the tables that the first left, settles no poll and changes no table,
  -- whichever of its own statements fail.
  pub settled_once :
      (w w' : Ledger)
      → (settle_match out event m w).0.1 ≡ none
      → w'.books ≡ (settle_match out event m w).1.books
      → NothingNew (settle_match out event m w') w'.books
  unfolding settle_match
  settled_once = final_again (is_finished m.status) m.result
