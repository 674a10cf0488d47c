-- ===== src/Chat/Access.antt =====
-- Who passes the checks of the authorization service.
use cs2_predictor.Chat.Authorization.{
  can_manage, runs_chat, is_plain_member, Permission, member, MemberRole, holds, administrator,
  owner, Answers, belongs, allow, require_manager, require_permission, has_permission, is_member,
  denied,
}
use cs2_predictor.Base.{
  if◌then◌else◌, false, Result, ◌≡◌, arith, ok, not, ◌↔◌, ◌⊎◌, ℕ, Bool, true, ◌>>=◌, refl, inr, err,
  inl, err-ne-ok,
}

module _ (o : Answers) (u : ℕ) where
  passes :
      (r : Result MemberRole) (m : Result Bool)
      → ((r >>= λ r. if runs_chat r then ok true else if is_plain_member r then m else ok false)
          ≡ ok true)
        ↔ ((r ≡ ok owner) ⊎ ((r ≡ ok administrator) ⊎ ((r ≡ ok member) × (m ≡ ok true))))
  unfolding runs_chat is_plain_member
  passes r m = ground arith

  -- The owner and the administrators manage the chat, and a plain member who is a moderator; nobody
  -- else does.
  pub can_manage_iff : (can_manage o u ≡ ok true) ↔ (
      (o.role u ≡ ok owner)
      ⊎ ((o.role u ≡ ok administrator) ⊎ ((o.role u ≡ ok member) × (o.is_moderator u ≡ ok true))))
  unfolding can_manage
  can_manage_iff = passes (o.role u) (o.is_moderator u)

  passes_unless :
      (r : Result MemberRole) (m : Result Bool)
      → ((r >>= λ r.
            if runs_chat r then ok true else if not (is_plain_member r) then ok false else m)
          ≡ ok true)
        ↔ ((r ≡ ok owner) ⊎ ((r ≡ ok administrator) ⊎ ((r ≡ ok member) × (m ≡ ok true))))
  unfolding runs_chat is_plain_member
  passes_unless r m = ground arith

  -- Whether the table grants the permission to the user.
  abbrev pub grants : Permission → Result Bool
  grants p = o.moderator_permissions u >>= λ granted. ok (holds granted p)

  -- A permission is held by the owner and the administrators, and by a plain member whom the table
  -- grants it; nobody else holds any.
  pub has_permission_iff :
      (p : Permission)
      → (has_permission o u p ≡ ok true) ↔ (
          (o.role u ≡ ok owner)
          ⊎ ((o.role u ≡ ok administrator) ⊎ ((o.role u ≡ ok member) × (grants p ≡ ok true))))
  unfolding has_permission
  has_permission_iff p = passes_unless (o.role u) (grants p)

  role_belongs :
      (r : Result MemberRole)
      → (r ≡ ok owner) ⊎ ((r ≡ ok administrator) ⊎ (r ≡ ok member))
      → (r >>= λ r. ok (belongs r)) ≡ ok true
  unfolding belongs
  role_belongs r h = ground arith

  allow_ok : (r : Result Bool) → (r >>= allow) ≡ ok tt → r ≡ ok true
  unfolding allow
  allow_ok (ok true) h = refl
  allow_ok (ok false) h = absurd (err-ne-ok denied tt h)
  allow_ok (err e) h = absurd (err-ne-ok e tt h)

  privileged :
      {X : Type 0}
      → (o.role u ≡ ok owner) ⊎ ((o.role u ≡ ok administrator) ⊎ ((o.role u ≡ ok member) × X))
      → (o.role u >>= λ r. ok (belongs r)) ≡ ok true
  privileged (inl h) = role_belongs (o.role u) (inl h)
  privileged (inr (inl h)) = role_belongs (o.role u) (inr (inl h))
  privileged (inr (inr h)) = role_belongs (o.role u) (inr (inr h.0))

  -- Nobody manages a chat, or holds a permission in it, without being in it.
  pub require-is_member :
      (p : Permission)
      → (require_manager o u ≡ ok tt) ⊎ (require_permission o u p ≡ ok tt)
      → is_member o u ≡ ok true
  unfolding require_manager require_permission is_member
  require-is_member p (inl h) = privileged (can_manage_iff.0 (allow_ok (can_manage o u) h))
  require-is_member p (inr h) =
      privileged ((has_permission_iff p).0 (allow_ok (has_permission o u p) h))
