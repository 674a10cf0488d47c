-- ===== src/Chat/Authorization.antt =====
-- internal/domain/chat/authorization.go and the permissions of moderator.go, for one chat. What
-- Telegram and the tables answer is outside: an answer for each question, the same while one call of
-- the service runs.
use cs2_predictor.Base.{
  ℕ, Result, ◌>>=◌, ok, err, none, false, some, ◌==◌, Bool, not, if◌then◌else◌, [], Option, List,
  error, ◌||◌, true, ◌∷◌, ◌++◌, any, Error, contains,
}

-- The roles of Telegram; a role that is the empty text is none of them.
pub data MemberRole : Type 0 where
  owner : MemberRole
  administrator : MemberRole
  member : MemberRole
  restricted : MemberRole
  left : MemberRole
  kicked : MemberRole
  no_role : MemberRole

pub data Permission : Type 0 where
  manage_events : Permission
  manage_matches : Permission
  view_stats : Permission
  manage_group_settings : Permission

abbrev pub all_permissions : List Permission
all_permissions = manage_events ∷ manage_matches ∷ view_stats ∷ manage_group_settings ∷ []

-- The gateway lists administrators only if it is an `AdministratorLister`.
pub record Answers : Type 0 where
  pub role : ℕ → Result MemberRole
  pub administrators : Option (Result (List ℕ))
  pub is_moderator : ℕ → Result Bool
  pub list_moderators : Result (List ℕ)
  pub moderator_permissions : ℕ → Result (List Permission)

abbrev pub same_permission : Permission → Permission → Bool
same_permission manage_events manage_events = true
same_permission manage_matches manage_matches = true
same_permission view_stats view_stats = true
same_permission manage_group_settings manage_group_settings = true
same_permission p q = false

unfoldable pub holds : List Permission → Permission → Bool
holds [] p = false
holds (q ∷ qs) p = same_permission q p || holds qs p

-- Any text may stand for a permission; one that is not known is `none`.
unfoldable pub valid_permission : Option Permission → Bool
unfolding holds
valid_permission none = false
valid_permission (some p) = holds all_permissions p

abbrev pub preset_full_access : List Permission
preset_full_access = all_permissions

abbrev pub preset_content : List Permission
preset_content = manage_events ∷ manage_matches ∷ []

abbrev pub preset_stats_only : List Permission
preset_stats_only = view_stats ∷ []

-- `role == RoleOwner || role == RoleAdministrator`.
unfoldable pub runs_chat : MemberRole → Bool
runs_chat owner = true
runs_chat administrator = true
runs_chat r = false

unfoldable pub is_plain_member : MemberRole → Bool
is_plain_member member = true
is_plain_member r = false

unfoldable pub belongs : MemberRole → Bool
belongs left = false
belongs kicked = false
belongs no_role = false
belongs r = true

abbrev pub denied : Error
denied = error "user is not allowed to manage this chat"

unfoldable pub allow : Bool → Result (Unit {0})
allow true = ok tt
allow false = err denied

module _ (o : Answers) where
  unfoldable pub is_telegram_admin : ℕ → Result Bool
  is_telegram_admin user_id = o.role user_id >>= λ r. ok (runs_chat r)

  unfoldable pub can_manage : ℕ → Result Bool
  can_manage user_id = o.role user_id >>= λ r.
      if runs_chat r
      then ok true
      else if is_plain_member r
      then o.is_moderator user_id
      else ok false

  unfoldable pub has_permission : ℕ → Permission → Result Bool
  has_permission user_id p = o.role user_id >>= λ r.
      if runs_chat r
      then ok true
      else if not (is_plain_member r)
      then ok false
      else o.moderator_permissions user_id >>= λ granted. ok (holds granted p)

  unfoldable pub is_member : ℕ → Result Bool
  is_member user_id = o.role user_id >>= λ r. ok (belongs r)

  unfoldable pub require_manager : ℕ → Result (Unit {0})
  require_manager user_id = can_manage user_id >>= allow

  unfoldable pub require_telegram_admin : ℕ → Result (Unit {0})
  require_telegram_admin user_id = is_telegram_admin user_id >>= allow

  unfoldable pub require_permission : ℕ → Permission → Result (Unit {0})
  require_permission user_id p = has_permission user_id p >>= allow

  -- The administrators that the gateway lists, if it can.
  unfoldable pub listed : Option (Result (List ℕ)) → Result (List ℕ)
  listed none = ok []
  listed (some r) = r

  module _ (actor : ℕ) where
    unfoldable pub manages_besides : List ℕ → Result Bool
    manages_besides [] = ok false
    manages_besides (m ∷ ms) =
        let rest = manages_besides ms in
        if m == actor then rest else can_manage m >>= λ yes. if yes then ok true else rest

    unfoldable pub has_other_manager : Result Bool
    unfolding listed
    has_other_manager = listed o.administrators >>= λ ids.
        if any (λ id. not (id == actor)) ids then ok true else o.list_moderators >>= manages_besides

    -- `add`: the ids seen are the actor and those in `out`.
    unfoldable pub add : ℕ → List ℕ → List ℕ
    add id out = if contains (actor ∷ out) id then out else out ++ id ∷ []

    unfoldable pub add_all : List ℕ → List ℕ → List ℕ
    add_all out [] = out
    add_all out (id ∷ ids) = add_all (add id out) ids

    unfoldable pub add_moderators : List ℕ → List ℕ → Result (List ℕ)
    unfolding add
    add_moderators out [] = ok out
    add_moderators out (m ∷ ms) =
        if contains (actor ∷ out) m
        then add_moderators out ms
        else can_manage m >>= λ yes. add_moderators (if yes then add m out else out) ms

    unfoldable pub other_managers : Result (List ℕ)
    unfolding listed add_all
    other_managers = listed o.administrators >>= λ ids.
        o.list_moderators >>= λ items. add_moderators (add_all [] ids) items
