-- ===== src/Chat/Managers.antt =====
-- The other managers of a chat: the list that `OtherManagers` makes and the test of
-- `HasOtherManager`.
use cs2_predictor.Chat.Authorization.{
  can_manage, Answers, add_all, add, add_moderators, other_managers, listed,
}
use cs2_predictor.Base.{
  ◌==◌, [], ◌&&◌, ◌∙◌, ◌≡◌, List, err, ◌||◌, arith, inl, Bool-cases, ℕ, inr, not, refl, Result,
  Bool, Distinct, ◌∷◌, contains, ◌++◌, ok, false, ℕ_discrete, sym, ap, if◌then◌else◌, subst,
  >>=-eq-ok, true, ◌>>=◌,
}

contains-append :
    (xs ys : List ℕ) (u : ℕ) → contains (xs ++ ys) u ≡ (contains xs u || contains ys u)
contains-append [] ys u = refl
contains-append (x ∷ xs) ys u = ground (arith, contains-append xs ys u)

Distinct-append_one :
    (xs : List ℕ) (a : ℕ) → contains xs a ≡ false → Distinct xs → Distinct (xs ++ a ∷ [])
Distinct-append_one [] a h d = (refl, tt)
Distinct-append_one (x ∷ xs) a h d = (
  rw (contains-append xs (a ∷ []) x) (ground (arith, h, d.0)),
  Distinct-append_one xs a (ground (arith, h)) d.1,
)

-- Whether a check passes.
abbrev pub is_yes : Result Bool → Bool
is_yes (ok b) = b
is_yes (err e) = false

module _ (o : Answers) (actor : ℕ) where
  pub add-contains :
      (id : ℕ) (out : List ℕ) (u : ℕ)
      → contains (add o actor id out) u ≡ (contains out u || ((id == u) && not (u == actor)))
  unfolding add
  add-contains id out u = elim (ℕ_discrete id u) [
    | yes same ↦ rw same (ground (arith, contains-append out (u ∷ []) u))
    | no other ↦ ground (arith, contains-append out (id ∷ []) u)
  ]

  add-Distinct : (id : ℕ) (out : List ℕ) → Distinct out → Distinct (add o actor id out)
  unfolding add
  add-Distinct id out d = elim (Bool-cases (contains (actor ∷ out) id)) [
    | inl seen ↦ rw seen d
    | inr fresh ↦ rw fresh (Distinct-append_one out id (ground (arith, fresh)) d)
  ]

  pub add_all-contains :
      (out ids : List ℕ) (u : ℕ)
      → contains (add_all o actor out ids) u
        ≡ (contains out u || (contains ids u && not (u == actor)))
  unfolding add_all
  add_all-contains out [] u = ground arith
  add_all-contains out (id ∷ ids) u =
      add_all-contains (add o actor id out) ids u ∙ ground (arith, add-contains id out u)

  add_all-Distinct : (out ids : List ℕ) → Distinct out → Distinct (add_all o actor out ids)
  unfolding add_all
  add_all-Distinct out [] d = d
  add_all-Distinct out (id ∷ ids) d =
      add_all-Distinct (add o actor id out) ids (add-Distinct id out d)

  -- The test of one moderator.
  abbrev pub may : ℕ → Bool
  may u = is_yes (can_manage o u)

  -- What one moderator adds to the list.
  abbrev Adds : ℕ → List ℕ → List ℕ → Type 0
  Adds m out next =
      ((u : ℕ) → contains next u ≡ (contains out u || ((m == u) && (not (u == actor) && may u))))
      × (Distinct out → Distinct next)

  Adds-seen : (m : ℕ) (out : List ℕ) → contains (actor ∷ out) m ≡ true → Adds m out out
  Adds-seen m out seen = (
    (λ u. elim (ℕ_discrete m u) [
      | yes same ↦
          let here : contains (actor ∷ out) u ≡ true =
            subst (λ x. contains (actor ∷ out) x ≡ true) same seen in
          ground (arith, here)
      | no other ↦ ground arith
    ]),
    λ d. d,
  )

  Adds-checked :
      (m : ℕ) (out : List ℕ) (granted : Bool)
      → may m ≡ granted
      → Adds m out (if granted then add o actor m out else out)
  Adds-checked m out true e = (
    (λ u. elim (ℕ_discrete m u) [
      | yes same ↦
          let here : may u ≡ true = subst (λ x. may x ≡ true) same e in
          add-contains m out u ∙ rw here (ground arith)
      | no other ↦ add-contains m out u ∙ ground arith
    ]),
    add-Distinct m out,
  )
  Adds-checked m out false e = (
    (λ u. elim (ℕ_discrete m u) [
      | yes same ↦
          let here : may u ≡ false = subst (λ x. may x ≡ false) same e in rw here (ground arith)
      | no other ↦ ground arith
    ]),
    λ d. d,
  )

  abbrev pub check_next : List ℕ → List ℕ → ℕ → Bool → Result (List ℕ)
  check_next out ms m granted =
      add_moderators o actor (if granted then add o actor m out else out) ms

  add_moderators-step :
      (out ms ids : List ℕ) (m : ℕ)
      → add_moderators o actor out (m ∷ ms) ≡ ok ids
      → (next : List ℕ) × (add_moderators o actor next ms ≡ ok ids) × Adds m out next
  unfolding add_moderators
  add_moderators-step out ms ids m h = elim (Bool-cases (contains (actor ∷ out) m)) [
    | inl seen ↦ (out, (rw seen at h), Adds-seen m out seen)
    | inr fresh ↦
        let checked : (can_manage o m >>= check_next out ms m) ≡ ok ids =
          ap
            (λ b.
              if b then add_moderators o actor out ms else can_manage o m >>= check_next out ms m)
            (sym fresh)
          ∙ h in
        let run = >>=-eq-ok (can_manage o m) (check_next out ms m) checked in
        (_, run.2, Adds-checked m out run.0 (ap is_yes run.1))
  ]

  pub add_moderators-contains :
      (out ms ids : List ℕ)
      → add_moderators o actor out ms ≡ ok ids
      → ((u : ℕ)
          → contains ids u ≡ (contains out u || (contains ms u && (not (u == actor) && may u))))
        × (Distinct out → Distinct ids)
  unfolding add_moderators
  add_moderators-contains out [] ids h =
      let same : out ≡ ids = cc in rw (sym same) ((λ u. ground arith), λ d. d)
  add_moderators-contains out (m ∷ ms) ids h =
      let step = add_moderators-step out ms ids m h in
      let rest = add_moderators-contains step.0 ms ids step.1 in
      ((λ u. rest.0 u ∙ ground (arith, step.2.0 u)), λ d. rest.1 (step.2.1 d))

  -- Those listed, when the list is made: no one twice, and exactly the people other than the actor
  -- who are listed administrators, or moderators who pass the check of a manager.
  pub other_managers_ok :
      {admins ms ids : List ℕ}
      → listed o o.administrators ≡ ok admins
      → o.list_moderators ≡ ok ms
      → other_managers o actor ≡ ok ids
      → Distinct ids
        × ((u : ℕ)
            → contains ids u ≡ (
                not (u == actor)
                && (contains admins u || (contains ms u && is_yes (can_manage o u)))))
  unfolding other_managers
  other_managers_ok {admins} {ms} {ids} a l h =
      let made : add_moderators o actor (add_all o actor [] admins) ms ≡ ok ids =
        ap (λ r. r >>= λ items. add_moderators o actor (add_all o actor [] admins) items) (sym l)
        ∙ ap
            (λ r. r >>= λ found. o.list_moderators >>= λ items.
              add_moderators o actor (add_all o actor [] found) items)
            (sym a)
        ∙ h in
      let both = add_moderators-contains (add_all o actor [] admins) ms ids made in
      (
        both.1 (add_all-Distinct [] admins tt),
        λ u. both.0 u ∙ ground (arith, add_all-contains [] admins u),
      )
