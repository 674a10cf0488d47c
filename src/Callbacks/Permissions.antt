-- ===== src/Callbacks/Permissions.antt =====
-- The permission wizard's payloads in internal/adapter/telegram/callbackdata.go: sets of permissions
-- as masks, and the fields of a payload. A text is a list of bytes.
use Prim.Native.Nat.{bit_and, bit_or}
use cs2_predictor.Base.{
  ◌∷◌, ◌+◌, negsuc, pos, ℕ, bytes, ◌==◌, Bool, ltb, ◌^◌, ℤ, [], Option, ◌++◌, List, if◌then◌else◌,
  none, some,
}
use cs2_predictor.Chat.Authorization.{Permission, holds, all_permissions}
use cs2_predictor.Base.Digits.{parse_int, format_int}
use cs2_predictor.Callbacks.Scope.{Payload}
use cs2_predictor.Base.Splits.{split_at}

-- The bits of the permissions from the index on.
abbrev pub mask_from : ℕ → (Permission → Bool) → List Permission → ℕ
mask_from i has [] = 0
mask_from i has (p ∷ ps) =
    let rest = mask_from (i + 1) has ps in if has p then bit_or (2 ^ i) rest else rest

unfoldable pub perm_mask : List Permission → ℕ
perm_mask perms = mask_from 0 (holds perms) all_permissions

abbrev pub listed_from : ℕ → ℕ → List Permission → List Permission
listed_from i mask [] = []
listed_from i mask (p ∷ ps) =
    let rest = listed_from (i + 1) mask ps in if bit_and mask (2 ^ i) == 0 then rest else p ∷ rest

unfoldable pub perms_from_mask : ℕ → List Permission
perms_from_mask mask = listed_from 0 mask all_permissions

pub data Purpose : Type 0 where
  edit_moderator : Purpose
  assign_new : Purpose
  for_invitation : Purpose

abbrev pub purpose_code : Purpose → Payload
purpose_code edit_moderator = bytes "e"
purpose_code assign_new = bytes "a"
purpose_code for_invitation = bytes "i"

-- The purposes that the parser knows are texts of one byte.
abbrev pub purpose_of_byte : ℕ → Option Purpose
purpose_of_byte c =
    if c == b'e'
    then some edit_moderator
    else if c == b'a'
    then some assign_new
    else if c == b'i'
    then some for_invitation
    else none

abbrev pub purpose_of : Payload → Option Purpose
purpose_of [] = none
purpose_of (c ∷ []) = purpose_of_byte c
purpose_of (c ∷ d ∷ more) = none

unfoldable pub perm_wizard_subject : Purpose → ℤ → Payload
perm_wizard_subject for_invitation id = []
perm_wizard_subject edit_moderator id = format_int 36 id
perm_wizard_subject assign_new id = format_int 36 id

-- `string(purpose) + ":" + subject`
abbrev pub wizard_fields : Purpose → Payload → Payload
wizard_fields purpose subject = purpose_code purpose ++ b':' ∷ subject

unfoldable pub cb_perm_start : Purpose → Payload → Payload
cb_perm_start purpose subject = bytes "moderators:permstart:" ++ wizard_fields purpose subject

unfoldable pub cb_perm_preset : Purpose → Payload → Payload → Payload
cb_perm_preset purpose subject preset =
    bytes "moderators:permpreset:" ++ (wizard_fields purpose subject ++ b':' ∷ preset)

-- A payload of the wizard with a mask.
abbrev pub with_mask : Payload → Purpose → Payload → ℕ → Payload
with_mask name purpose subject mask =
    name ++ (purpose_code purpose ++ (b':' ∷ (subject ++ b':' ∷ format_int 16 (pos mask))))

unfoldable pub cb_perm_toggle : Purpose → Payload → ℕ → Payload
cb_perm_toggle = with_mask (bytes "moderators:permtoggle:")

unfoldable pub cb_perm_confirm : Purpose → Payload → ℕ → Payload
cb_perm_confirm = with_mask (bytes "moderators:permconfirm:")

unfoldable pub cb_perm_apply : Purpose → Payload → ℕ → Payload
cb_perm_apply = with_mask (bytes "moderators:permapply:")

-- The purpose, the subject and the fields behind it.
abbrev pub wizard_parts : Option Purpose → List Payload → Option (Purpose × Payload × List Payload)
wizard_parts purpose [] = none
wizard_parts none (subject ∷ rest) = none
wizard_parts (some purpose) (subject ∷ rest) = some (purpose, subject, rest)

unfoldable pub parse_perm_wizard_data : Payload → Option (Purpose × Payload × List Payload)
unfolding split_at
parse_perm_wizard_data l =
    let (first, more) = split_at b':' l in wizard_parts (purpose_of first) more

abbrev pub in_mask : Option ℤ → Option ℕ
in_mask none = none
in_mask (some (negsuc n)) = none
in_mask (some (pos n)) = if ltb 15 n then none else some n

unfoldable pub parse_perm_mask : Payload → Option ℕ
parse_perm_mask raw = in_mask (parse_int 16 raw)
