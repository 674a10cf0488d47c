-- ===== src/Prediction/Keeps.antt =====
-- Relations between the store before and after a computation, and how they compose.
use cs2_predictor.Prediction.Effects.{
  ◌>>=◌, World, Store, Env, query, exec, M, answer, and_then, commit, pure,
}
use cs2_predictor.Base.{
  Error, none, ok, Result, Option, ◌≡◌, some, refl, err, ◌==◌, [], Bool-cases, ◌∷◌, List, inl, ℕ,
  inr, length, err-ne-ok,
}
use cs2_predictor.Prediction.Poll.{PollOption, Poll}
use cs2_predictor.Prediction.Store.{upsert_poll, insert_option, options_of}
use cs2_predictor.Prediction.Repository.{insert_options, save_poll, write_options, save_options}

abbrev pub Rel : Type 1
Rel = Store → Store → Type 0

-- The computation relates the store that it starts in to the one that it ends in.
abbrev pub Keeps : Rel → {A : Type 0} → M A → World → Type 0
Keeps R m w = R w.store (m w).1.store

-- Inversion of a bind that returns a value.
pub bind_ok :
    {A B : Type 0} (m : M A) (f : A → M B) (w : World) (b : B)
    → ((m >>= f) w).0 ≡ ok b
    → (a : A) × ((m w).0 ≡ ok a) × ((f a (m w).1).0 ≡ ok b)
bind_ok {A} m f w b h = go (m w).0 refl h
  where
    go :
        (r : Result A)
        → (m w).0 ≡ r
        → (and_then r f (m w).1).0 ≡ ok b
        → (a : A) × ((m w).0 ≡ ok a) × ((f a (m w).1).0 ≡ ok b)
    go (ok a) e k = (a, e, k)
    go (err x) e k = absurd (err-ne-ok x b k)

module _ (R : Rel) (stay : (s : Store) → R s s)
    (chain : (s t u : Store) → R s t → R t u → R s u) where
  pub bind-Keeps :
      {A B : Type 0} (m : M A) (f : A → M B) (w : World)
      → Keeps R m w
      → ((a : A) → (m w).0 ≡ ok a → Keeps R (f a) (m w).1)
      → Keeps R (m >>= f) w
  bind-Keeps m f w h k = go (m w).0 refl
    where
      go : (r : Result _) → (m w).0 ≡ r → R w.store (and_then r f (m w).1).1.store
      go (ok a) e = chain _ _ _ h (k a e)
      go (err x) e = h

  pub discard-Keeps :
      {A : Type 0} (m : M A) (w : World) → Keeps R m w → Keeps R (m >>= λ _. pure tt) w
  discard-Keeps m w h = bind-Keeps m (λ _. pure tt) w h (λ a e. stay _)

  module _ (env : Env) where
    pub query-Keeps : {A : Type 0} (f : Store → A) (w : World) → Keeps R (query env f) w
    query-Keeps f w = go (env.fault w.calls)
      where
        go : (o : Option Error) → R w.store (answer o (f w.store) w).1.store
        go none = stay w.store
        go (some e) = stay w.store

    pub exec-Keeps :
        (f : Store → Result Store) (w : World)
        → ((t : Store) → f w.store ≡ ok t → R w.store t)
        → Keeps R (exec env f) w
    exec-Keeps f w h = go (env.fault w.calls) (f w.store) refl
      where
        go :
            (o : Option Error) (r : Result Store) → f w.store ≡ r → R w.store (commit o r w).1.store
        go none (ok t) e = h t e
        go none (err x) e = stay w.store
        go (some x) r e = stay w.store

    -- Writing the options leaves the other tables, so it keeps what is said of those.
    pub insert_options-Keeps :
        (id : ℕ) (os : List PollOption) (w : World)
        → ((o : PollOption) (s t : Store) → insert_option id o s ≡ ok t → R s t)
        → Keeps R (insert_options env id os) w
    unfolding insert_options
    insert_options-Keeps id [] w h = stay w.store
    insert_options-Keeps id (o ∷ os) w h =
        bind-Keeps (exec env (insert_option id o)) (λ _. insert_options env id os) w
          (exec-Keeps (insert_option id o) w (h o w.store)) (λ a e. insert_options-Keeps id os _ h)

    save_options-Keeps :
        (p : Poll) (w : World)
        → ((o : PollOption) (s t : Store) → insert_option p.id o s ≡ ok t → R s t)
        → Keeps R (save_options env p) w
    unfolding save_options write_options
    save_options-Keeps p w k =
        bind-Keeps (query env count) (write_options env p) w (query-Keeps count w) λ n e.
          elim (Bool-cases (n == 0)) [
            | inl e ↦ rw e (
                bind-Keeps (insert_options env p.id p.options) (λ _. pure p) _
                  (insert_options-Keeps p.id p.options _ k) (λ a e. stay _))
            | inr e ↦ rw e (stay _)
          ]
      where
        count : Store → ℕ
        count s = length (options_of p.id s.options)

    pub save_poll-Keeps :
        (p : Poll) (w : World)
        → ((t : Store) → upsert_poll p w.store ≡ ok t → R w.store t)
        → ((o : PollOption) (s t : Store) → insert_option p.id o s ≡ ok t → R s t)
        → Keeps R (save_poll env p) w
    unfolding save_poll
    save_poll-Keeps p w h k =
        bind-Keeps (exec env (upsert_poll p)) (λ _. save_options env p) w
          (exec-Keeps (upsert_poll p) w h) (λ a e. save_options-Keeps p _ k)
