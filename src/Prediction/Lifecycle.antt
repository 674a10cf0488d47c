-- ===== src/Prediction/Lifecycle.antt =====
-- How a poll may change over its life, whatever the service does and wherever it is interrupted.
pub mod Batches
use mathlib.Core.Path.{transport}
use cs2_predictor.Prediction.Effects.{
  ◌>>=◌, ◌>>◌, gateway_cancel, gateway_close, Env, done_or, World, Store, PollRow, pure, M,
}
use cs2_predictor.Base.{
  ap, refl, ok, some, Bool-cases, ◌≡◌, false, ◌==◌, ◌∙◌, ◌⊎◌, none, Option, inr, arith, inl, subst,
  sym, Error, ℕ,
}
use cs2_predictor.Prediction.Store.{insert_option, updated_row, row_of, upsert_poll}
use cs2_predictor.Prediction.Poll.{Poll, poll_open, PollStatus, PollOption}
use cs2_predictor.Prediction.Service.{close_with}
use cs2_predictor.Prediction.Rows.{upsert-other, upsert_old}
use cs2_predictor.Prediction.Keeps.{bind-Keeps, save_poll-Keeps, Keeps, Rel, discard-Keeps}
use cs2_predictor.Prediction.Repository.{save_poll}

-- What a row may become: the same poll of the same chat, match and teams; only an open one may
-- change its status.
pub record Later (r q : PollRow) : Type 0 where
  pub same_id : q.id ≡ r.id
  pub same_chat : q.chat_id ≡ r.chat_id
  pub same_match : q.match_id ≡ r.match_id
  pub same_first : q.first_team_id ≡ r.first_team_id
  pub same_second : q.second_team_id ≡ r.second_team_id
  pub status_moves : (q.status ≡ r.status) ⊎ (r.status ≡ poll_open)

pub Later-refl : (r : PollRow) → Later r r
Later-refl r = ground arith

pub Later-trans : {r q u : PollRow} → Later r q → Later q u → Later r u
Later-trans a b = ground arith

-- Every row of the first store is in the second, changed at most so.
abbrev pub Evolves : Store → Store → Type 0
Evolves s t =
    (id : ℕ) (r : PollRow)
    → row_of id s.polls ≡ some r
    → (q : PollRow) × (row_of id t.polls ≡ some q) × Later r q

pub Evolves-refl : (s : Store) → Evolves s s
Evolves-refl s id r h = (r, h, Later-refl r)

pub Evolves-trans : (s t u : Store) → Evolves s t → Evolves t u → Evolves s u
Evolves-trans s t u f g id r h =
    let (q, hq, a) = f id r h in let (v, hv, b) = g id q hq in (v, hv, Later-trans a b)

pub Evolves-of_eq : (s t : Store) → t.polls ≡ s.polls → Evolves s t
Evolves-of_eq s t e id r h = (r, ap (row_of id) e ∙ h, Later-refl r)

pub insert_option-polls :
    (id : ℕ) (o : PollOption) (s t : Store) → insert_option id o s ≡ ok t → t.polls ≡ s.polls
unfolding insert_option
insert_option-polls id o s t h = ground arith

-- The row with this id, if there is one, is open.
abbrev pub OpenRow : ℕ → Store → Type 0
OpenRow id s = (r : PollRow) → row_of id s.polls ≡ some r → r.status ≡ poll_open

pub upsert-Evolves :
    (p : Poll) (s t : Store) → OpenRow p.id s → upsert_poll p s ≡ ok t → Evolves s t
unfolding updated_row
upsert-Evolves p s t open_row e id r h = elim (Bool-cases (id == p.id)) [
  | inl here ↦
      let same : id ≡ p.id = ground arith in
      let old : row_of p.id s.polls ≡ some r = rw (← same) h in
      (
        updated_row p r,
        ap (λ j. row_of j t.polls) same ∙ upsert_old p s t r e old,
        record {
          same_id = refl;
          same_chat = refl;
          same_match = refl;
          same_first = refl;
          same_second = refl;
          status_moves = inr (open_row r old);
        },
      )
  | inr other ↦ (r, upsert-other p s t id e other ∙ h, Later-refl r)
]

-- The row with this id, if any, stays as it is.
abbrev pub SameRow : ℕ → Rel
SameRow j s t = row_of j t.polls ≡ row_of j s.polls

module _ (env : Env) where
  pub save_poll-Evolves :
      (p : Poll) (w : World) → OpenRow p.id w.store → Keeps Evolves (save_poll env p) w
  save_poll-Evolves p w open_row =
      save_poll-Keeps Evolves Evolves-refl Evolves-trans env p w
        (λ t e. upsert-Evolves p w.store t open_row e)
        (λ o s t e. Evolves-of_eq s t (insert_option-polls p.id o s t e))

  -- A save leaves the rows of other polls as they are.
  pub save_poll-other :
      (p : Poll) (w : World) (j : ℕ)
      → (j == p.id) ≡ false
      → row_of j (save_poll env p w).1.store.polls ≡ row_of j w.store.polls
  save_poll-other p w j ne =
      save_poll-Keeps (SameRow j) (λ s. refl) (λ s t u a b. b ∙ a) env p w
        (λ t e. upsert-other p w.store t j e ne)
        (λ o s t e. ap (row_of j) (insert_option-polls p.id o s t e))

  -- A Telegram call does not touch the store.
  abbrev pub IsGateway : (Poll → M (Unit {0})) → Type 0
  IsGateway g = (p : Poll) (w : World) → (g p w).1.store ≡ w.store

  pub gateway_close-IsGateway : IsGateway (gateway_close env)
  gateway_close-IsGateway p w = go (env.close w.calls p)
    where
      go : (o : Option Error) → (done_or o w).1.store ≡ w.store
      go none = refl
      go (some e) = refl

  pub gateway_cancel-IsGateway : IsGateway (gateway_cancel env)
  gateway_cancel-IsGateway p w = go (env.cancel w.calls p)
    where
      go : (o : Option Error) → (done_or o w).1.store ≡ w.store
      go none = refl
      go (some e) = refl

  module _ (g : Poll → M (Unit {0})) (quiet : IsGateway g) (status : PollStatus) where
    pub close_with-Evolves :
        (p : Poll) (w : World) → OpenRow p.id w.store → Keeps Evolves (close_with env g status p) w
    unfolding close_with
    close_with-Evolves p w open_row =
        bind-Keeps Evolves Evolves-refl Evolves-trans (g p) (λ _. saved) w
          (Evolves-of_eq w.store (g p w).1.store (ap (λ s. s.polls) (quiet p w)))
          (λ a e.
            discard-Keeps Evolves Evolves-refl Evolves-trans
              (save_poll env (record p { status = status })) (g p w).1
              (save_poll-Evolves (record p { status = status }) (g p w).1
                (subst (OpenRow p.id) (sym (quiet p w)) open_row)))
      where
        saved : M (Unit {0})
        saved = save_poll env (record p { status = status }) >>= λ _. pure tt

    pub close_with-other :
        (p : Poll) (w : World) (j : ℕ)
        → (j == p.id) ≡ false
        → row_of j (close_with env g status p w).1.store.polls ≡ row_of j w.store.polls
    unfolding close_with
    close_with-other p w j ne =
        bind-Keeps (SameRow j) (λ s. refl) (λ s t u a b. b ∙ a) (g p) (λ _. saved) w
          (ap (λ s. row_of j s.polls) (quiet p w))
          (λ a e.
            discard-Keeps (SameRow j) (λ s. refl) (λ s t u a b. b ∙ a)
              (save_poll env (record p { status = status })) (g p w).1
              (save_poll-other (record p { status = status }) (g p w).1 j ne))
      where
        saved : M (Unit {0})
        saved = save_poll env (record p { status = status }) >>= λ _. pure tt
