-- ===== src/Examples/Buttons.antt =====
-- Payloads of buttons: a scope in front, and the permission wizard.
use cs2_predictor.Base.{◌∷◌, bytes, inl, [], List, negsuc, pos, some, none, ◌≡◌, arith, ◌++◌, refl}
use cs2_predictor.Callbacks.Wizard.{parse_perm_wizard_data-with_mask}
use cs2_predictor.Callbacks.Scope.{
  CallbackScope, chat_scope, Payload, split_callback_scope, InlineButton, prefix,
}
use cs2_predictor.Callbacks.Keyboards.{split_callback_scope-prefix, IsScope}
use cs2_predictor.Callbacks.Permissions.{
  edit_moderator, perm_wizard_subject, parse_perm_mask, with_mask, parse_perm_wizard_data,
}

abbrev group : CallbackScope
group = chat_scope (negsuc 1001234567890)

group-IsScope : IsScope group
group-IsScope = inl (negsuc 1001234567890, omega arith, refl)

abbrev panel : List (List InlineButton)
panel =
    (record { text = "Matches"; url = none; callback_data = some (bytes "events:list") } ∷ []) ∷ []

split_callback_scope-prefix_example :
    split_callback_scope (prefix group ++ bytes "events:list") ≡ (group, bytes "events:list")
split_callback_scope-prefix_example =
    split_callback_scope-prefix group (bytes "events:list") group-IsScope

parse_perm_wizard_data-with_mask_example :
    (body : Payload) × (field : Payload) × (with_mask
        (bytes "moderators:permtoggle:")
        edit_moderator
        (perm_wizard_subject edit_moderator (pos 42))
        11
      ≡ bytes "moderators:permtoggle:" ++ body)
    × (parse_perm_wizard_data body
        ≡ some (edit_moderator, perm_wizard_subject edit_moderator (pos 42), field ∷ []))
    × (parse_perm_mask field ≡ some 11)
parse_perm_wizard_data-with_mask_example =
    parse_perm_wizard_data-with_mask (bytes "moderators:permtoggle:") edit_moderator (pos 42) 11
      (omega arith)
