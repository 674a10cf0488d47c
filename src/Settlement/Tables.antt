-- ===== src/Settlement/Tables.antt =====
-- The tables that a settlement writes, and statements in and out of a transaction: within one, a
-- statement that fails makes every later one fail, as PostgreSQL has it.
use cs2_predictor.Base.{
  false, ◌+◌, ◌==◌, String, [], if◌then◌else◌, List, Result, true, none, Option, Error, ℕ, ◌∷◌,
  Bool, find_first, some, any, err, error, ok, or_else,
}
use cs2_predictor.Scoring.Settle.{Award}
use cs2_predictor.Outbox.Table.{OutboxRow, insert_row, new_row}
use cs2_predictor.Prediction.Poll.{PollOption, Vote, Poll}
use cs2_predictor.Competition.Series.Text.{score_text}
use cs2_predictor.Scoring.Ranking.{UserStanding}
use cs2_predictor.Competition.Catalog.{Team}

pub record StandingNotification : Type 0 where
  pub user_id : ℕ
  pub display_name : String
  pub rank : ℕ
  pub previous_rank : Option ℕ
  pub points : ℕ
  pub points_delta : ℕ
  pub exact_predictions : ℕ
  pub correct_predictions : ℕ
  pub predictions : ℕ

pub record MatchResultNotification : Type 0 where
  pub chat_id : ℕ
  pub topic_id : Option ℕ
  pub reply_to_message_id : Option ℕ
  pub event_id : ℕ
  pub event_name : String
  pub stage : Option String
  pub format : List ℕ
  pub first_team : String
  pub second_team : String
  pub result : List ℕ
  pub standings : List StandingNotification

pub record ResultRecapNotification : Type 0 where
  pub user_id : ℕ
  pub chat_title : String
  pub event_name : String
  pub first_team : String
  pub second_team : String
  pub result : List ℕ
  pub predicted : List ℕ
  pub points : ℕ

-- A row of match_settlement.
pub record SettledRow : Type 0 where
  pub poll_id : ℕ
  pub result_hash : List ℕ
  pub settled_at : ℕ

pub record Books : Type 0 where
  pub awards : List Award
  pub outbox : List OutboxRow
  pub settled : List SettledRow

-- The tables, the number of outside calls so far, and whether the transaction is aborted.
pub record Ledger : Type 0 where
  pub books : Books
  pub calls : ℕ
  pub aborted : Bool

pub record SettlementOutside : Type 0 where
  pub fault : ℕ → Option Error
  pub moment : ℕ → ℕ
  pub new_id : ℕ → ℕ
  pub polls_of : ℕ → List Poll
  pub votes_of : ℕ → List Vote
  pub leaderboard : Books → ℕ → ℕ → List UserStanding
  pub encode_result : MatchResultNotification → String
  pub encode_recap : ResultRecapNotification → String
  pub poll_text : ℕ → String
  pub audience : Option (List ℕ → List ℕ)
  pub chat_titles : Option (ℕ → String)

abbrev pub S : Type 0 → Type 0
S A = Ledger → Result A × Ledger

abbrev pub go_on : {A B : Type 0} → Result A → (A → S B) → S B
go_on (ok a) f w = f a w
go_on (err e) f w = (err e, w)

infixl 5 ◌>>=◌ ◌>>◌
abbrev pub ◌>>=◌ : {A B : Type 0} → S A → (A → S B) → S B
◌>>=◌ m f w = go_on (m w).0 f (m w).1

abbrev pub ◌>>◌ : {B : Type 0} → S (Unit {0}) → S B → S B
m >> k = m >>= λ _. k

abbrev pub pure : {A : Type 0} → A → S A
pure a w = (ok a, w)

abbrev pub fail : {A : Type 0} → Error → S A
fail e w = (err e, w)

-- The error as a value.
abbrev pub attempt : {A : Type 0} → S A → S (Result A)
attempt m w = (ok (m w).0, (m w).1)

abbrev pub next_call : Ledger → Ledger
next_call w = record w { calls = w.calls + 1 }

abbrev pub executed : {A : Type 0} → Bool → Option Error → A → Books → S A
executed true fault a books w = (err (error "current transaction is aborted"), next_call w)
executed false none a books w = (ok a, record w { books = books; calls = w.calls + 1 })
executed false (some e) a books w = (err e, record w { calls = w.calls + 1; aborted = true })

-- A statement within a transaction that reads, or that writes.
abbrev pub ask : SettlementOutside → {A : Type 0} → (Books → A) → S A
ask out f w = executed w.aborted (out.fault w.calls) (f w.books) w.books w

abbrev pub write : SettlementOutside → (Books → Books) → S (Unit {0})
write out f w = executed w.aborted (out.fault w.calls) tt (f w.books) w

abbrev pub now : SettlementOutside → S ℕ
now out w = (ok (out.moment w.calls), next_call w)

-- `Outbox.Enqueue` with the aggregate MATCH_POLL.
unfoldable pub enqueue : SettlementOutside → ℕ → String → String → S (Unit {0})
enqueue out poll_id event_type payload w =
    write out
      (λ books. record books {
        outbox =
            insert_row
              (new_row (out.new_id w.calls) "MATCH_POLL" (out.poll_text poll_id) event_type payload
                (out.moment w.calls))
              books.outbox;
      })
      w

abbrev pub is_settlement : ℕ → SettledRow → Bool
is_settlement poll_id row = row.poll_id == poll_id

abbrev pub hash_in : Option SettledRow → Option (List ℕ)
hash_in none = none
hash_in (some row) = some row.result_hash

-- ResultHash
unfoldable pub result_hash : ℕ → Books → Option (List ℕ)
result_hash poll_id books = hash_in (find_first (is_settlement poll_id) books.settled)

-- The upsert of MarkSettled on the rows.
unfoldable pub mark_row : ℕ → List ℕ → ℕ → List SettledRow → List SettledRow
mark_row poll_id hash at [] = record { poll_id = poll_id; result_hash = hash; settled_at = at } ∷ []
mark_row poll_id hash at (row ∷ rows) =
    let rest = mark_row poll_id hash at rows in
    if is_settlement poll_id row
    then record row { result_hash = hash; settled_at = at } ∷ rows
    else row ∷ rest

abbrev pub mark_settled : ℕ → List ℕ → ℕ → Books → Books
mark_settled poll_id hash at books = record books {
  settled = mark_row poll_id hash at books.settled;
}

-- The rank that a user had, the points that the awards add, and the names in a message.
abbrev pub rank_before : ℕ → List UserStanding → Option ℕ
rank_before user [] = none
rank_before user (st ∷ rest) =
    or_else (rank_before user rest) (if st.user_id == user then some st.rank else none)

abbrev pub delta_of : ℕ → List Award → ℕ
delta_of user [] = 0
delta_of user (a ∷ rest) =
    let later = delta_of user rest in
    if any (λ b. b.user_id == user) rest then later else if a.user_id == user then a.points else 0

abbrev pub team_name : Option Team → String
team_name none = ""
team_name (some t) = t.name

abbrev pub title_of : Option (ℕ → String) → ℕ → String
title_of none chat_id = ""
title_of (some titles) chat_id = titles chat_id

abbrev pub no_votes : List Vote → Bool
no_votes [] = true
no_votes (v ∷ vs) = false

-- `byIndex`: the last option with an index counts; an index that no option has gives no text.
abbrev pub predicted_text : ℕ → List PollOption → List ℕ
predicted_text index [] = []
predicted_text index (o ∷ os) =
    let later = predicted_text index os in
    if any (λ q. q.index == index) os
    then later
    else if o.index == index
    then score_text o.result
    else []

-- RunInTx: what fails, at the beginning, within, or at the end, leaves the tables as they were.
abbrev pub committed : Option Error → Books → Ledger → Result (Unit {0}) × Ledger
committed none before w = (ok tt, next_call w)
committed (some e) before w =
    (err e, record w { books = before; calls = w.calls + 1; aborted = false })

abbrev pub closed_by : SettlementOutside → Books → Bool → Ledger → Result (Unit {0}) × Ledger
closed_by out before true w = (
  err (error "commit unexpectedly resulted in rollback"),
  record w { books = before; calls = w.calls + 1; aborted = false },
)
closed_by out before false w = committed (out.fault w.calls) before w

abbrev pub finished :
    SettlementOutside → Books → Result (Unit {0}) → Ledger → Result (Unit {0}) × Ledger
finished out before (err e) w = (err e, record w { books = before; aborted = false })
finished out before (ok done) w = closed_by out before w.aborted w

abbrev pub begun :
    SettlementOutside → Option Error → S (Unit {0}) → Ledger → Result (Unit {0}) × Ledger
begun out (some e) body w = (err e, next_call w)
begun out none body w =
    finished out w.books (body (record w { calls = w.calls + 1; aborted = false })).0
      (body (record w { calls = w.calls + 1; aborted = false })).1

unfoldable pub run_in_tx : SettlementOutside → S (Unit {0}) → S (Unit {0})
run_in_tx out body w = begun out (out.fault w.calls) body w
