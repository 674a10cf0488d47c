-- ===== src/Callbacks/Wizard.antt =====
-- What the permission wizard writes into a button is read back, and it fits a scoped button.
-- About internal/adapter/telegram/callbackdata.go.
use cs2_predictor.Base.Digits.{format_int}
use cs2_predictor.Base.Numerals.{
  is_digit_char, IsInt64, parse_int-format_int, format_int-chars, length-format_int,
}
use cs2_predictor.Callbacks.Permissions.{
  edit_moderator, purpose_of, perm_wizard_subject, purpose_code, for_invitation, with_mask,
  parse_perm_mask, assign_new, parse_perm_wizard_data, in_mask, cb_perm_confirm, Purpose,
}
use cs2_predictor.Base.{
  pos, length, true, ℕ, ◌++◌, refl, length-append, ap, bytes, ◌≡◌, ◌≤◌, ℤ, false, ◌∙◌, inr, some,
  inl, arith, ◌∷◌, ◌<◌, All-map, [], ◌==◌, ◌||◌, any, ltb,
}
use cs2_predictor.Callbacks.Scope.{Payload, CallbackScope, callback_data_limit, separator, prefix}
use cs2_predictor.Callbacks.Keyboards.{IsScope}
use cs2_predictor.Callbacks.Masks.{numbers_below, numbers_below_sound}
use cs2_predictor.Base.Splits.{split_at-whole, HasNo, split_at-append}

-- A text with no colon.
abbrev pub IsField : Payload → Type 0
IsField = HasNo b':'

plain_char : (c : ℕ) → (is_digit_char c || (c == b'-')) ≡ true → (c == b':') ≡ false
plain_char c h = ground arith

number-IsField : (base : ℕ) → 2 ≤ base → base ≤ 36 → (z : ℤ) → IsField (format_int base z)
number-IsField base low high z =
    All-map _ _ (λ c h. plain_char c h) (format_int base z) (format_int-chars base low high z)

subject-IsField : (purpose : Purpose) (id : ℤ) → IsField (perm_wizard_subject purpose id)
unfolding perm_wizard_subject
subject-IsField for_invitation id = tt
subject-IsField edit_moderator id = number-IsField 36 (omega arith) (omega arith) id
subject-IsField assign_new id = number-IsField 36 (omega arith) (omega arith) id

code-IsField : (purpose : Purpose) → IsField (purpose_code purpose)
code-IsField edit_moderator = (refl, tt)
code-IsField assign_new = (refl, tt)
code-IsField for_invitation = (refl, tt)

code_read : (purpose : Purpose) → purpose_of (purpose_code purpose) ≡ some purpose
code_read edit_moderator = refl
code_read assign_new = refl
code_read for_invitation = refl

-- The body of a payload with a mask is read as its parts.
body_read :
    (purpose : Purpose) (subject last : Payload)
    → IsField subject
    → IsField last
    → parse_perm_wizard_data (purpose_code purpose ++ (b':' ∷ (subject ++ b':' ∷ last)))
      ≡ some (purpose, subject, last ∷ [])
unfolding parse_perm_wizard_data
body_read purpose subject last h k = rw (
  split_at-append b':' (purpose_code purpose) (subject ++ b':' ∷ last) (code-IsField purpose),
  split_at-append b':' subject last h,
  split_at-whole b':' last k,
  code_read purpose,
)

-- A payload of the wizard behind its name is read as the purpose, the subject and one field, and
-- that field as the mask, for every purpose, every 64-bit user and every mask up to 15.
pub parse_perm_wizard_data-with_mask :
    (name : Payload) (purpose : Purpose) (id : ℤ) (mask : ℕ)
    → mask < 16
    → (body : Payload) × (field : Payload) × (with_mask name purpose
          (perm_wizard_subject purpose id)
          mask
        ≡ name ++ body)
      × (parse_perm_wizard_data body ≡ some (purpose, perm_wizard_subject purpose id, field ∷ []))
      × (parse_perm_mask field ≡ some mask)
unfolding parse_perm_mask
parse_perm_wizard_data-with_mask name purpose id mask h = (
  purpose_code purpose
      ++ (b':' ∷ (perm_wizard_subject purpose id ++ b':' ∷ format_int 16 (pos mask))),
  format_int 16 (pos mask),
  refl,
  body_read purpose (perm_wizard_subject purpose id) (format_int 16 (pos mask))
      (subject-IsField purpose id) (number-IsField 16 (omega arith) (omega arith) (pos mask)),
  ap in_mask (parse_int-format_int 16 (omega arith) (omega arith) (pos mask) (omega arith))
      ∙ in_range,
)
  where
    in_range : in_mask (some (pos mask)) ≡ some mask
    in_range = ground arith

one_digit_table : any (λ x. ltb 1 (length (format_int 16 (pos x)))) (numbers_below 16) ≡ false
unfolding numbers_below format_int
one_digit_table = refl

one_digit : (mask : ℕ) → mask < 16 → length (format_int 16 (pos mask)) ≤ 1
one_digit mask h =
    at_most_one (length (format_int 16 (pos mask)))
      (numbers_below_sound (λ x. ltb 1 (length (format_int 16 (pos x)))) 16 mask one_digit_table h)
  where
    at_most_one : (n : ℕ) → ltb 1 n ≡ false → n ≤ 1
    at_most_one n e = ground arith

subject_length :
    (purpose : Purpose) (id : ℤ) → IsInt64 id → length (perm_wizard_subject purpose id) ≤ 14
unfolding perm_wizard_subject
subject_length for_invitation id h = omega arith
subject_length edit_moderator id h = length-format_int id h
subject_length assign_new id h = length-format_int id h

code_length : (purpose : Purpose) → length (purpose_code purpose) ≡ 1
code_length edit_moderator = refl
code_length assign_new = refl
code_length for_invitation = refl

length-prefix : (s : CallbackScope) → IsScope s → length (prefix s) ≤ 16
unfolding prefix
length-prefix s (inl (id, h, e)) =
    rw e (omega (arith, length-append (format_int 36 id) (separator ∷ []), length-format_int id h))
length-prefix s (inr (id, h, e)) =
    rw e (omega (arith, length-append (format_int 36 id) (separator ∷ []), length-format_int id h))

-- With a 64-bit user, a 64-bit scope and a mask up to 15, the longest payload of the wizard under
-- its scope fits the 64 bytes that Telegram allows, so its button is never left unscoped.
pub length-cb_perm_confirm :
    (s : CallbackScope) (purpose : Purpose) (id : ℤ) (mask : ℕ)
    → IsScope s
    → IsInt64 id
    → mask < 16
    → length (prefix s ++ cb_perm_confirm purpose (perm_wizard_subject purpose id) mask)
      ≤ callback_data_limit
unfolding cb_perm_confirm
length-cb_perm_confirm s purpose id mask scope h m = omega (
  arith,
  one_digit mask m,
  length-prefix s scope,
  subject_length purpose id h,
  code_length purpose,
  length-append (prefix s) (cb_perm_confirm purpose (perm_wizard_subject purpose id) mask),
  length-append (bytes "moderators:permconfirm:") (
      purpose_code purpose
      ++ (b':' ∷ (perm_wizard_subject purpose id ++ b':' ∷ format_int 16 (pos mask)))),
  length-append (purpose_code purpose)
      (b':' ∷ (perm_wizard_subject purpose id ++ b':' ∷ format_int 16 (pos mask))),
  length-append (perm_wizard_subject purpose id) (b':' ∷ format_int 16 (pos mask)),
)
