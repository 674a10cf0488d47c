-- ===== src/Chat/Invitations.antt =====
-- internal/domain/chat/invitation.go and internal/adapter/postgres/invitation.go: invitations with
-- one use. A moment is a number; what is stored of the permissions is a list of bytes.
use cs2_predictor.Base.{
  List, any, Bool, ltb, same_key, ℕ, false, true, not, String, some, none, keep_if, Option, ◌==◌,
  if◌then◌else◌, is_some, map, [], ◌∷◌, find_first, bytes, ◌&&◌, length,
}
use cs2_predictor.Chat.Authorization.{
  manage_group_settings, all_permissions, view_stats, manage_matches, manage_events, Permission,
}
use cs2_predictor.Base.Splits.{split_at, join, same_bytes}

pub record ModeratorInvitation : Type 0 where
  pub token : String
  pub chat_id : ℕ
  pub permissions : List ℕ
  pub created_by : ℕ
  pub created_at : ℕ
  pub expires_at : ℕ
  pub used_at : Option ℕ
  pub used_by : Option ℕ
  pub revoked_at : Option ℕ

pub data InvitationStatus : Type 0 where
  invitation_pending : InvitationStatus
  invitation_used : InvitationStatus
  invitation_revoked : InvitationStatus
  invitation_expired : InvitationStatus

unfoldable pub status : ModeratorInvitation → ℕ → InvitationStatus
status inv at =
    if is_some inv.revoked_at
    then invitation_revoked
    else if is_some inv.used_at
    then invitation_used
    else if ltb inv.expires_at at
    then invitation_expired
    else invitation_pending

-- The texts of the permissions.
abbrev pub slug : Permission → List ℕ
slug manage_events = bytes "manage_events"
slug manage_matches = bytes "manage_matches"
slug view_stats = bytes "view_stats"
slug manage_group_settings = bytes "manage_group_settings"

abbrev pub join_slugs : List Permission → List ℕ
join_slugs [] = []
join_slugs (p ∷ ps) = join b',' (slug p) (map slug ps)

unfoldable pub encode_permissions : List Permission → List ℕ
encode_permissions ps = join_slugs ps

-- `ValidPermission`: the known permission with this text.
unfoldable pub to_permission : List ℕ → Option Permission
to_permission raw = find_first (λ p. same_bytes (slug p) raw) all_permissions

abbrev pub keep_known : Option Permission → List Permission → List Permission
keep_known none ps = ps
keep_known (some p) ps = p ∷ ps

unfoldable pub to_permissions : List (List ℕ) → List Permission
unfolding to_permission
to_permissions [] = []
to_permissions (raw ∷ more) = keep_known (to_permission raw) (to_permissions more)

unfoldable pub decode_permissions : List ℕ → List Permission
decode_permissions [] = []
decode_permissions (c ∷ raw) =
    let (part, more) = split_at b',' (c ∷ raw) in to_permissions (part ∷ more)

-- The statements on moderator_invitation; the token is the primary key.
abbrev pub has_token : String → ModeratorInvitation → Bool
has_token token inv = same_key inv.token token

abbrev pub is_unspent : ModeratorInvitation → Bool
is_unspent inv = not (is_some inv.used_at) && not (is_some inv.revoked_at)

-- `WHERE token = $1 AND used_at IS NULL AND revoked_at IS NULL`
abbrev pub can_spend : String → ModeratorInvitation → Bool
can_spend token inv = has_token token inv && is_unspent inv

-- The INSERT, refused where the token is there.
unfoldable pub create_invitation :
    ModeratorInvitation → List ModeratorInvitation → List ModeratorInvitation × Bool
create_invitation inv rows =
    if any (has_token inv.token) rows
    then (rows, false)
    else (record inv { used_at = none; used_by = none; revoked_at = none } ∷ rows, true)

unfoldable pub invitation : String → List ModeratorInvitation → Option ModeratorInvitation
invitation token rows = find_first (has_token token) rows

abbrev pub spend_where :
    String
    → (ModeratorInvitation → ModeratorInvitation)
    → List ModeratorInvitation
    → List ModeratorInvitation
spend_where token change = map (λ inv. if can_spend token inv then change inv else inv)

-- UseInvitation: the rows, and whether exactly one was affected.
unfoldable pub use_invitation :
    String → ℕ → ℕ → List ModeratorInvitation → List ModeratorInvitation × Bool
use_invitation token by at rows = (
  spend_where token (λ inv. record inv { used_at = some at; used_by = some by }) rows,
  length (keep_if (can_spend token) rows) == 1,
)

unfoldable pub revoke_invitation : String → ℕ → List ModeratorInvitation → List ModeratorInvitation
revoke_invitation token at rows =
    spend_where token (λ inv. record inv { revoked_at = some at }) rows
