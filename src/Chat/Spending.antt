-- ===== src/Chat/Spending.antt =====
-- An invitation is used at most once, in whatever order its link is tapped, revoked and created.
-- About internal/adapter/postgres/invitation.go.

-- What the database executes, one statement after the other.
use cs2_predictor.Base.{
  List, Bool, ◌+◌, same_key, false, refl, String, [], length, Bool-cases, true, any, inl, ℕ, arith,
  keep_if, ◌≡◌, ◌&&◌, ◌∷◌, if◌then◌else◌, inr, subst, some, sym, ◌≤◌, same_key_eq, ◌==◌,
  same_key_refl,
}
use cs2_predictor.Chat.Invitations.{
  has_token, ModeratorInvitation, create_invitation, use_invitation, can_spend, is_unspent,
  spend_where, revoke_invitation,
}

pub data InvitationAction : Type 0 where
  creates : ModeratorInvitation → InvitationAction
  uses : String → ℕ → ℕ → InvitationAction
  revokes : String → ℕ → InvitationAction

-- The rows after an action, and whether it is a successful use of the token.
abbrev pub act :
    String → InvitationAction → List ModeratorInvitation → List ModeratorInvitation × Bool
act token (creates inv) rows = ((create_invitation inv rows).0, false)
act token (uses other by at) rows =
    let (rows', used) = use_invitation other by at rows in (rows', used && same_key other token)
act token (revokes other at) rows = (revoke_invitation other at rows, false)

abbrev count_true : Bool → ℕ
count_true true = 1
count_true false = 0

-- How many of the actions use the token with success.
abbrev pub uses_of : String → List InvitationAction → List ModeratorInvitation → ℕ
uses_of token [] rows = 0
uses_of token (action ∷ later) rows =
    let (rows', used) = act token action rows in count_true used + uses_of token later rows'

-- How many uses of the token can still succeed: it is not created yet, or its rows are unspent.
abbrev chances : String → List ModeratorInvitation → ℕ
chances token rows =
    if any (has_token token) rows then length (keep_if (can_spend token) rows) else 1

-- No UPDATE changes a token.
spend_tokens :
    (token other : String) (change : ModeratorInvitation → ModeratorInvitation)
    → ((inv : ModeratorInvitation) → (change inv).token ≡ inv.token)
    → (rows : List ModeratorInvitation)
    → any (has_token token) (spend_where other change rows) ≡ any (has_token token) rows
spend_tokens token other change keep [] = refl
spend_tokens token other change keep (inv ∷ rows) = elim (Bool-cases (can_spend other inv)) [
  | inl e ↦ rw (e, keep inv, spend_tokens token other change keep rows)
  | inr e ↦ rw (e, spend_tokens token other change keep rows)
]

-- An UPDATE that spends leaves no unspent row of its token.
spend_none :
    (token : String) (change : ModeratorInvitation → ModeratorInvitation)
    → ((inv : ModeratorInvitation) → is_unspent (change inv) ≡ false)
    → (rows : List ModeratorInvitation)
    → keep_if (can_spend token) (spend_where token change rows) ≡ []
spend_none token change spent [] = refl
spend_none token change spent (inv ∷ rows) = elim (Bool-cases (can_spend token inv)) [
  | inl e ↦ rw (e, spent inv) (ground (arith, spend_none token change spent rows))
  | inr e ↦ rw (e, e) (spend_none token change spent rows)
]

and_left : (a b : Bool) → (a && b) ≡ true → a ≡ true
and_left a b h = ground arith

-- A row that is spent under another token is none of this token's.
not_mine :
    (token other : String) (inv : ModeratorInvitation)
    → same_key other token ≡ false
    → can_spend other inv ≡ true
    → same_key inv.token token ≡ false
not_mine token other inv apart h =
    subst (λ k. same_key k token ≡ false) (sym (same_key_eq inv.token other (and_left _ _ h))) apart

-- An UPDATE under another token leaves the unspent rows of this one.
spend_other :
    (token other : String) (change : ModeratorInvitation → ModeratorInvitation)
    → ((inv : ModeratorInvitation) → (change inv).token ≡ inv.token)
    → same_key other token ≡ false
    → (rows : List ModeratorInvitation)
    → length (keep_if (can_spend token) (spend_where other change rows))
      ≡ length (keep_if (can_spend token) rows)
spend_other token other change keep apart [] = refl
spend_other token other change keep apart (inv ∷ rows) = elim (Bool-cases (can_spend other inv)) [
  | inl e ↦
      rw (e, keep inv, not_mine token other inv apart e)
        (spend_other token other change keep apart rows)
  | inr e ↦ rw e (ground (arith, spend_other token other change keep apart rows))
]

absent_none :
    (token : String) (rows : List ModeratorInvitation)
    → any (has_token token) rows ≡ false
    → keep_if (can_spend token) rows ≡ []
absent_none token [] h = refl
absent_none token (inv ∷ rows) h = elim (Bool-cases (same_key inv.token token)) [
  | inl e ↦ absurd (clash (rw e at h))
  | inr e ↦ rw e (absent_none token rows (rw e at h))
]
  where
    clash : true ≡ false → ⊥
    clash e = cc

-- A spending UPDATE under any token takes chances and gives none.
spend_chances :
    (token other : String) (change : ModeratorInvitation → ModeratorInvitation)
    → ((inv : ModeratorInvitation) → (change inv).token ≡ inv.token)
    → ((inv : ModeratorInvitation) → is_unspent (change inv) ≡ false)
    → (rows : List ModeratorInvitation)
    → count_true ((length (keep_if (can_spend other) rows) == 1) && same_key other token)
        + chances token (spend_where other change rows)
      ≤ chances token rows
spend_chances token other change keep spent rows = elim (Bool-cases (same_key other token)) [
  | inl e ↦
      subst
        (λ k.
          count_true ((length (keep_if (can_spend k) rows) == 1) && same_key k token)
            + chances token (spend_where k change rows)
          ≤ chances token rows)
        (sym (same_key_eq other token e)) own
  | inr e ↦
      rw (e, spend_tokens token other change keep rows, spend_other token other change keep e rows)
        (ground arith)
]
  where
    own :
        count_true ((length (keep_if (can_spend token) rows) == 1) && same_key token token)
          + chances token (spend_where token change rows)
        ≤ chances token rows
    own = elim (Bool-cases (any (has_token token) rows)) [
      | inl e ↦
          rw
            (
              spend_tokens token token change keep rows,
              spend_none token change spent rows,
              e,
              same_key_refl token,
            )
            (ground arith)
      | inr e ↦
          rw (spend_tokens token token change keep rows, e, absent_none token rows e) (ground arith)
    ]

create-chances :
    (token : String) (inv : ModeratorInvitation) (rows : List ModeratorInvitation)
    → chances token (create_invitation inv rows).0 ≤ chances token rows
unfolding create_invitation
create-chances token inv rows = elim (Bool-cases (any (has_token inv.token) rows)) [
  | inl e ↦ rw e (omega arith)
  | inr e ↦ rw e (elim (Bool-cases (same_key inv.token token)) [
    | inl same ↦
        let absent : any (has_token token) rows ≡ false =
          subst (λ k. any (has_token k) rows ≡ false) (same_key_eq inv.token token same) e in
        rw (same, absent, absent_none token rows absent) (omega arith)
    | inr other ↦ rw other (omega arith)
  ])
]

act-chances :
    (token : String) (action : InvitationAction) (rows : List ModeratorInvitation)
    → count_true (act token action rows).1 + chances token (act token action rows).0
      ≤ chances token rows
unfolding use_invitation revoke_invitation
act-chances token (creates inv) rows = omega (arith, create-chances token inv rows)
act-chances token (uses other by at) rows =
    spend_chances token other (λ inv. record inv { used_at = some at; used_by = some by })
      (λ inv. refl) (λ inv. refl) rows
act-chances token (revokes other at) rows = omega (
  arith,
  spend_chances token other (λ inv. record inv { revoked_at = some at }) (λ inv. refl)
      (λ inv. revoked inv at) rows,
)
  where
    revoked :
        (inv : ModeratorInvitation) (m : ℕ)
        → is_unspent (record inv { revoked_at = some m }) ≡ false
    revoked inv m = ground arith

uses_of-chances :
    (token : String) (actions : List InvitationAction) (rows : List ModeratorInvitation)
    → uses_of token actions rows ≤ chances token rows
uses_of-chances token [] rows = omega arith
uses_of-chances token (action ∷ later) rows =
    omega
      (arith, act-chances token action rows, uses_of-chances token later (act token action rows).0)

-- From the empty table on, however the statements that create, use and revoke invitations follow
-- one another, at most one use of a token succeeds.
pub uses_of_bound :
    (token : String) (actions : List InvitationAction) → uses_of token actions [] ≤ 1
uses_of_bound token actions = uses_of-chances token actions []
