-- ===== src/Settlement/Settled.antt =====
-- What a settlement of one poll leaves where it succeeds. About settleOne of
-- internal/app/settlement.go.
use mathlib.Core.List.{append_assoc}
use cs2_predictor.Settlement.Tables.{
  ◌>>=◌, ◌>>◌, mark_row, result_hash, enqueue, SettledRow, S, Ledger, Books, mark_settled,
  SettlementOutside, hash_in, is_settlement, ask,
}
use cs2_predictor.Settlement.{
  finish, standings_after, enqueue_recaps, settle_one, settle_from, result_notification, announce,
  settle_awards,
}
use cs2_predictor.Base.{
  find_first, inr, ap, [], refl, ◌==◌, some, String, List, sym, false, ◌≡◌, arith, ==_refl, ◌∷◌,
  ◌∙◌, ok, ◌++◌, inl, Bool-cases, ℕ, subst,
}
use cs2_predictor.Scoring.Ranking.{UserStanding}
use cs2_predictor.Outbox.Table.{insert_row, OutboxRow}
use cs2_predictor.Settlement.Steady.{
  enqueue_recaps-Steadily, IsSteady, settle_awards-Steadily, IsSteady-trans, ask-Steadily, of_poll,
  of_others, kept,
}
use cs2_predictor.Scoring.Settle.{Award}
use cs2_predictor.Prediction.Poll.{Poll}
use cs2_predictor.Competition.Catalog.{Event, Match}
use cs2_predictor.Settlement.Owed.{
  AreOwed, AreOwed_same, bind_done, executed_ok, settle_awards_done,
}

-- What a settled poll leaves: the awards that its votes have earned, its hash, the hashes and the awards of the other polls as they were, and a
-- message to the chat among the rows that are new at the end of the outbox.
pub record IsSettled (out : SettlementOutside) (m : Match) (p : Poll) (hash : List ℕ) (b c : Books)
    : Type 0 where
  pub owed : AreOwed out m p c
  pub hashed : result_hash p.id c ≡ some hash
  pub other_hashes : (id : ℕ) → (p.id == id) ≡ false → result_hash id c ≡ result_hash id b
  pub other_awards : kept (of_others p.id) c ≡ kept (of_others p.id) b
  pub earlier : List OutboxRow
  pub message : OutboxRow
  pub later : List OutboxRow
  pub announced : c.outbox ≡ b.outbox ++ (earlier ++ message ∷ later)
  pub message_type : message.event_type ≡ "telegram.match-result"

hash-mark_row :
    (id : ℕ) (hash : List ℕ) (at : ℕ) (rows : List SettledRow)
    → hash_in (find_first (is_settlement id) (mark_row id hash at rows)) ≡ some hash
unfolding mark_row
hash-mark_row id hash at [] = rw (==_refl id)
hash-mark_row id hash at (row ∷ rows) = elim (Bool-cases (row.poll_id == id)) [
  | inl e ↦ rw (e, e)
  | inr e ↦ rw (e, e) (hash-mark_row id hash at rows)
]

other-mark_row :
    (id other : ℕ) (hash : List ℕ) (at : ℕ) (rows : List SettledRow)
    → (id == other) ≡ false
    → hash_in (find_first (is_settlement other) (mark_row id hash at rows))
      ≡ hash_in (find_first (is_settlement other) rows)
unfolding mark_row
other-mark_row id other hash at [] apart = rw apart
other-mark_row id other hash at (row ∷ rows) apart = elim (Bool-cases (row.poll_id == id)) [
  | inl e ↦ let skipped : (row.poll_id == other) ≡ false = ground arith in rw (e, skipped)
  | inr e ↦ elim (Bool-cases (row.poll_id == other)) [
    | inl f ↦ rw (e, f)
    | inr f ↦ rw (e, f) (other-mark_row id other hash at rows apart)
  ]
]

module _ (out : SettlementOutside) (event : Event) (m : Match) (p : Poll) (hash : List ℕ) where
  finish_done :
      (w : Ledger)
      → (finish out p hash w).0 ≡ ok tt
      → (at : ℕ) × ((finish out p hash w).1.books ≡ mark_settled p.id hash at w.books)
  unfolding finish
  finish_done w h = (out.moment w.calls, executed_ok w.aborted _ tt tt _ _ h)

  enqueue_done :
      (payload : String) (w : Ledger)
      → (enqueue out p.id "telegram.match-result" payload w).0 ≡ ok tt
      → (row : OutboxRow) × (row.event_type ≡ "telegram.match-result")
        × ((enqueue out p.id "telegram.match-result" payload w).1.books
            ≡ record w.books { outbox = insert_row row w.books.outbox })
  unfolding enqueue
  enqueue_done payload w h = (_, refl, executed_ok w.aborted _ tt tt _ _ h)

  -- The parts put together: a steady part, the message, a steady part, and the mark.
  assemble :
      (b c d e f : Books) (row : OutboxRow) (at : ℕ)
      → IsSteady (of_others p.id) b c
      → row.event_type ≡ "telegram.match-result"
      → d ≡ record c { outbox = insert_row row c.outbox }
      → AreOwed out m p c
      → IsSteady (of_others p.id) d e
      → IsSteady (of_poll p.id) d e
      → f ≡ mark_settled p.id hash at e
      → IsSettled out m p hash b f
  unfolding result_hash
  assemble b c d e f row at h kind posted earned k l stored = record {
    owed =
        AreOwed_same out m p c f
          (ap (kept (of_poll p.id)) stored ∙ l.same_awards ∙ ap (kept (of_poll p.id)) posted)
          earned;
    hashed = ap (λ x. result_hash p.id x) stored ∙ hash-mark_row p.id hash at e.settled;
    other_hashes = λ id apart.
        ap (λ x. result_hash id x) stored
        ∙ other-mark_row p.id id hash at e.settled apart
        ∙ ap (λ l. hash_in (find_first (is_settlement id) l))
            (k.same_settled ∙ ap (λ x. x.settled) posted ∙ h.same_settled);
    other_awards =
        ap (kept (of_others p.id)) stored
        ∙ k.same_awards
        ∙ ap (kept (of_others p.id)) posted
        ∙ h.same_awards;
    earlier = h.more;
    message = row;
    later = k.more;
    announced =
        ap (λ x. x.outbox) stored
        ∙ k.appended
        ∙ ap (λ l. l ++ k.more) (ap (λ x. x.outbox) posted ∙ ap (λ l. l ++ row ∷ []) h.appended)
        ∙ regroup b.outbox h.more k.more;
    message_type = kind;
  }
    where
      regroup : (x y z : List OutboxRow) → ((x ++ y) ++ row ∷ []) ++ z ≡ x ++ (y ++ row ∷ z)
      regroup x y z = simp (append_assoc)

  announce_done :
      (before : List UserStanding) (awards : List Award) (after : List UserStanding) (b : Books)
      (w : Ledger)
      → IsSteady (of_others p.id) b w.books
      → AreOwed out m p w.books
      → (announce out event m p hash before awards after w).0 ≡ ok tt
      → IsSettled out m p hash b (announce out event m p hash before awards after w).1.books
  unfolding announce
  announce_done before awards after b w steady earned h =
      let payload = out.encode_result (result_notification event m p hash before after awards) in
      let sending = enqueue out p.id "telegram.match-result" payload in
      let recaps = enqueue_recaps out event m p hash awards in
      let first = bind_done sending (λ _. recaps >> finish out p hash) w h in
      let w1 = (sending w).1 in
      let second = bind_done recaps (λ _. finish out p hash) w1 (ap (λ t. t.0) (sym first.2) ∙ h) in
      let w2 = (recaps w1).1 in
      let last = finish_done w2 (ap (λ t. t.0) (sym second.2) ∙ ap (λ t. t.0) (sym first.2) ∙ h) in
      let row = enqueue_done payload w first.1 in
      assemble b w.books w1.books w2.books _ row.0 last.0 steady row.1 row.2 earned
        (enqueue_recaps-Steadily out event m p hash awards (of_others p.id) w1)
        (enqueue_recaps-Steadily out event m p hash awards (of_poll p.id) w1)
        (ap (λ t. t.1.books) (first.2 ∙ second.2) ∙ last.1)

  -- What settles after another part has succeeded.
  bind_IsSettled :
      {A : Type 0} (x : S A) (f : A → S (Unit {0})) (b : Books) (w : Ledger)
      → ((a : A)
          → (x w).0 ≡ ok a
          → (f a (x w).1).0 ≡ ok tt
          → IsSettled out m p hash b (f a (x w).1).1.books)
      → ((x >>= f) w).0 ≡ ok tt
      → IsSettled out m p hash b ((x >>= f) w).1.books
  bind_IsSettled x f b w settles h =
      let step = bind_done x f w h in
      subst (λ t. IsSettled out m p hash b t.1.books) (sym step.2)
        (settles step.0 step.1 (ap (λ t. t.0) (sym step.2) ∙ h))

  ranks : Books → List UserStanding
  ranks books = out.leaderboard books p.chat_id event.id

  standings_done :
      (before : List UserStanding) (awards : List Award) (b : Books) (w : Ledger)
      → IsSteady (of_others p.id) b w.books
      → AreOwed out m p w.books
      → (standings_after out event m p hash before awards w).0 ≡ ok tt
      → IsSettled out m p hash b (standings_after out event m p hash before awards w).1.books
  unfolding standings_after ranks
  standings_done before awards b w steady earned =
      let asked = ask out ranks w in
      bind_IsSettled (ask out ranks) (announce out event m p hash before awards) b w (λ after e.
        announce_done before awards after b asked.1
          (IsSteady-trans (of_others p.id) b w.books asked.1.books steady
            (ask-Steadily out (of_others p.id) ranks w))
          (AreOwed_same out m p w.books asked.1.books
            (ask-Steadily out (of_poll p.id) ranks w).same_awards earned))

  settle_from_done :
      (before : List UserStanding) (b : Books) (w : Ledger)
      → IsSteady (of_others p.id) b w.books
      → (settle_from out event m p hash before w).0 ≡ ok tt
      → IsSettled out m p hash b (settle_from out event m p hash before w).1.books
  unfolding settle_from
  settle_from_done before b w steady =
      let scored = settle_awards out m p w in
      bind_IsSettled (settle_awards out m p) (standings_after out event m p hash before) b w
        (λ awards e.
          standings_done before awards b scored.1
            (IsSteady-trans (of_others p.id) b w.books scored.1.books steady
              (settle_awards-Steadily out event m p w))
            (settle_awards_done out m p w e))

  pub settle_one_done :
      (w : Ledger)
      → (settle_one out event m p hash w).0 ≡ ok tt
      → IsSettled out m p hash w.books (settle_one out event m p hash w).1.books
  unfolding settle_one ranks
  settle_one_done w =
      bind_IsSettled (ask out ranks) (settle_from out event m p hash) w.books w (λ before e.
        settle_from_done before w.books (ask out ranks w).1
          (ask-Steadily out (of_others p.id) ranks w))
