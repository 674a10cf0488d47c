-- ===== src/Chat/Presence.antt =====
-- `HasOtherManager` beside `OtherManagers`.
use cs2_predictor.Chat.Authorization.{
  can_manage, has_other_manager, Answers, other_managers, add_moderators, add_all, add,
  manages_besides, listed,
}
use cs2_predictor.Base.{
  true, ◌&&◌, ℕ, Bool, ==_refl, ◌==◌, ◌∷◌, inr, false, sym, List, inl, refl, arith, [], not, ◌≡◌,
  contains, Bool-cases, ok, any, ℕ_discrete, ==_iff, if◌then◌else◌, ap, ◌∙◌, ==_ne, subst,
  >>=-eq-ok, ◌>>=◌,
}
use cs2_predictor.Chat.Managers.{
  add-contains, add_moderators-contains, check_next, add_all-contains,
}

abbrev pub has_some : List ℕ → Bool
has_some [] = false
has_some (x ∷ xs) = true

has_some-contains : (xs : List ℕ) (u : ℕ) → contains xs u ≡ true → has_some xs ≡ true
has_some-contains [] u h = cc
has_some-contains (x ∷ xs) u h = refl

module _ (o : Answers) (actor : ℕ) where
  abbrev others : List ℕ → Bool
  others = any (λ id. not (id == actor))

  found-other :
      (ids : List ℕ) → others ids ≡ true → (u : ℕ) × ((contains ids u && not (u == actor)) ≡ true)
  found-other [] h = absurd cc
  found-other (id ∷ ids) h = elim (Bool-cases (id == actor)) [
    | inl same ↦
        let rest = found-other ids (ground (arith, h, same)) in (rest.0, ground (arith, rest.1))
    | inr other ↦ (id, ground (arith, other))
  ]

  add_all-nobody : (ids : List ℕ) → others ids ≡ false → add_all o actor [] ids ≡ []
  unfolding add_all add
  add_all-nobody [] h = refl
  add_all-nobody (id ∷ ids) h =
      let same : id ≡ actor = ground (arith, h) in
      rw (same, ==_refl actor) (add_all-nobody ids (ground (arith, h)))

  granted-agrees :
      (m : ℕ) (ms ids : List ℕ) (granted : Bool)
      → (m == actor) ≡ false
      → add_moderators o actor (if granted then add o actor m [] else []) ms ≡ ok ids
      → (add_moderators o actor [] ms ≡ ok ids → manages_besides o actor ms ≡ ok (has_some ids))
      → (if granted then ok true else manages_besides o actor ms) ≡ ok (has_some ids)
  granted-agrees m ms ids true other h k =
      let first : contains (add o actor m []) m ≡ true =
        add-contains o actor m [] m ∙ ground (arith, other) in
      let inside : contains ids m ≡ true =
        (add_moderators-contains o actor (add o actor m []) ms ids h).0 m ∙ ground (arith, first) in
      ap ok (sym (has_some-contains ids m inside))
  granted-agrees m ms ids false other h k = k h

  manages_besides-agrees :
      (ms ids : List ℕ)
      → add_moderators o actor [] ms ≡ ok ids
      → manages_besides o actor ms ≡ ok (has_some ids)
  unfolding add_moderators manages_besides
  manages_besides-agrees [] ids h = let same : [] ≡ ids = cc in rw (sym same)
  manages_besides-agrees (m ∷ ms) ids h = elim (ℕ_discrete m actor) [
    | yes same ↦
        let guard : contains (actor ∷ []) m ≡ true = ground arith in
        let next : add_moderators o actor [] ms ≡ ok ids =
          ap
            (λ b.
              if b
              then add_moderators o actor [] ms
              else can_manage o m >>= check_next o actor [] ms m)
            (sym guard)
          ∙ h in
        rw ((==_iff m actor).1 same) (manages_besides-agrees ms ids next)
    | no other ↦
        let guard : contains (actor ∷ []) m ≡ false = ground arith in
        let next : (can_manage o m >>= check_next o actor [] ms m) ≡ ok ids =
          ap
            (λ b.
              if b
              then add_moderators o actor [] ms
              else can_manage o m >>= check_next o actor [] ms m)
            (sym guard)
          ∙ h in
        let run = >>=-eq-ok (can_manage o m) (check_next o actor [] ms m) next in
        let besides : (m == actor) ≡ false = ==_ne m actor other in
        rw (besides, run.1)
          (granted-agrees m ms ids run.0 besides run.2 (manages_besides-agrees ms ids))
  ]

  -- After the administrators: somebody among them, or the moderators decide.
  after_admins :
      (admins ms ids : List ℕ)
      → add_moderators o actor (add_all o actor [] admins) ms ≡ ok ids
      → (if others admins then ok true else manages_besides o actor ms) ≡ ok (has_some ids)
  after_admins admins ms ids h = elim (Bool-cases (others admins)) [
    | inl somebody ↦
        let found = found-other admins somebody in
        let inside : contains ids found.0 ≡ true =
          (add_moderators-contains o actor (add_all o actor [] admins) ms ids h).0 found.0
          ∙ ground (arith, add_all-contains o actor [] admins found.0, found.1) in
        rw somebody (ap ok (sym (has_some-contains ids found.0 inside)))
    | inr nobody ↦ rw nobody (
        manages_besides-agrees ms ids
          (subst (λ l. add_moderators o actor l ms ≡ ok ids) (add_all-nobody admins nobody) h))
  ]

  -- When the list is made, the cheaper test says whether it has anybody.
  pub has_other_manager_agrees :
      (ids : List ℕ)
      → other_managers o actor ≡ ok ids
      → has_other_manager o actor ≡ ok (has_some ids)
  unfolding other_managers has_other_manager
  has_other_manager_agrees ids h =
      let admins = >>=-eq-ok (listed o o.administrators) _ h in
      let ms = >>=-eq-ok o.list_moderators _ admins.2 in
      ap
        (λ r. r >>= λ found.
          if others found then ok true else o.list_moderators >>= manages_besides o actor)
        admins.1
      ∙ ap (λ r. if others admins.0 then ok true else r >>= manages_besides o actor) ms.1
      ∙ after_admins admins.0 ms.0 ids ms.2
