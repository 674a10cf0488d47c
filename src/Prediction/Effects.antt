-- ===== src/Prediction/Effects.antt =====
-- What the service and the repository do to the world. Every call of the outside (a statement sent
-- to PostgreSQL, a Telegram call, a reading of the clock, a new UUID) takes the next number, and the
-- environment says what the call with that number does: it is arbitrary. A statement either fails
-- and changes nothing, or does what its SQL says.
use cs2_predictor.Base.{ℕ, String, Error, some, ◌∷◌, Result, err, suc, none, Option, List, ok}
use cs2_predictor.Prediction.Poll.{PollOption, SentPoll, Poll, PollStatus}

pub record Env : Type 0 where
  pub fault : ℕ → Option Error  -- the statement fails: connection, foreign key into another table
  pub clock : ℕ → ℕ
  pub new_id : ℕ → ℕ
  pub send : ℕ → Poll → Result SentPoll
  pub close : ℕ → Poll → Option Error
  pub cancel : ℕ → Poll → Option Error

-- match_poll, poll_option, prediction_vote and telegram_user.
pub record PollRow : Type 0 where
  pub id : ℕ
  pub chat_id : ℕ
  pub match_id : ℕ
  pub topic_id : Option ℕ
  pub telegram_poll_id : Option String
  pub telegram_message_id : Option ℕ
  pub status : PollStatus
  pub closes_at : ℕ
  pub first_team_id : Option ℕ
  pub second_team_id : Option ℕ
  pub stream_url : Option String
  pub reminded_at : Option ℕ

pub record OptionRow : Type 0 where
  pub poll_id : ℕ
  pub option : PollOption

pub record VoteRow : Type 0 where
  pub poll_id : ℕ
  pub user_id : ℕ
  pub option_index : ℕ
  pub voted_at : ℕ

pub record UserRow : Type 0 where
  pub id : ℕ
  pub username : Option String
  pub display_name : String

pub record Store : Type 0 where
  pub polls : List PollRow
  pub options : List OptionRow
  pub votes : List VoteRow
  pub users : List UserRow

-- The store, the number of outside calls made, and the polls sent to Telegram, newest first.
pub record World : Type 0 where
  pub store : Store
  pub calls : ℕ
  pub sent : List Poll

abbrev pub M : Type 0 → Type 0
M A = World → Result A × World

abbrev pub called : World → World
called w = record w { calls = suc w.calls }

abbrev pub pure : {A : Type 0} → A → M A
pure a w = (ok a, w)

abbrev pub fail : {A : Type 0} → Error → M A
fail e w = (err e, w)

abbrev pub and_then : {A B : Type 0} → Result A → (A → M B) → M B
and_then (ok a) f w = f a w
and_then (err e) f w = (err e, w)

infixl 5 ◌>>=◌ ◌>>◌
abbrev pub ◌>>=◌ : {A B : Type 0} → M A → (A → M B) → M B
◌>>=◌ m f w = and_then (m w).0 f (m w).1

abbrev pub ◌>>◌ : {B : Type 0} → M (Unit {0}) → M B → M B
m >> k = m >>= λ _. k

-- What a statement does, from the environment's answer and the SQL's.
abbrev pub answer : {A : Type 0} → Option Error → A → M A
answer none a w = (ok a, called w)
answer (some e) a w = (err e, called w)

abbrev pub commit : Option Error → Result Store → M (Unit {0})
commit none (ok s) w = (ok tt, record w { store = s; calls = suc w.calls })
commit none (err e) w = (err e, called w)
commit (some e) r w = (err e, called w)

abbrev pub done_or : Option Error → M (Unit {0})
done_or none w = (ok tt, called w)
done_or (some e) w = (err e, called w)

abbrev pub sent_or : Result SentPoll → Poll → M SentPoll
sent_or (ok s) p w = (ok s, record w { calls = suc w.calls; sent = p ∷ w.sent })
sent_or (err e) p w = (err e, called w)

module _ (env : Env) where
  abbrev pub now : M ℕ
  now w = (ok (env.clock w.calls), called w)

  abbrev pub fresh_id : M ℕ
  fresh_id w = (ok (env.new_id w.calls), called w)

  -- A statement that reads.
  abbrev pub query : {A : Type 0} → (Store → A) → M A
  query f w = answer (env.fault w.calls) (f w.store) w

  -- A statement that writes, or fails on a constraint.
  abbrev pub exec : (Store → Result Store) → M (Unit {0})
  exec f w = commit (env.fault w.calls) (f w.store) w

  abbrev pub gateway_close : Poll → M (Unit {0})
  gateway_close p w = done_or (env.close w.calls p) w

  abbrev pub gateway_cancel : Poll → M (Unit {0})
  gateway_cancel p w = done_or (env.cancel w.calls p) w

  -- A poll that went out is remembered.
  abbrev pub gateway_send : Poll → M SentPoll
  gateway_send p w = sent_or (env.send w.calls p) p w
