-- ===== src/Callbacks/Scope.antt =====
-- The scope of a payload in internal/adapter/telegram/callbackdata.go: prefix, split, and the
-- keyboards that carry it. A payload is a list of bytes.
use cs2_predictor.Base.{
  true, Option, ◌&&◌, ◌++◌, is_some, ◌∷◌, ltb, some, ◌+◌, ℕ, none, [], false, List, if◌then◌else◌,
  ℤ, Bool, ◌==◌, String, length, not,
}
use cs2_predictor.Base.Digits.{format_int, parse_int}

abbrev pub Payload : Type 0
Payload = List ℕ

abbrev pub separator : ℕ
separator = b'|'

abbrev pub callback_data_limit : ℕ
callback_data_limit = 64

pub record CallbackScope : Type 0 where
  pub chat_id : Option ℤ
  pub user_id : Option ℤ

abbrev pub no_scope : CallbackScope
no_scope = record { chat_id = none; user_id = none }

abbrev pub chat_scope : ℤ → CallbackScope
chat_scope id = record { chat_id = some id; user_id = none }

abbrev pub user_scope : ℤ → CallbackScope
user_scope id = record { chat_id = none; user_id = some id }

abbrev pub is_empty : CallbackScope → Bool
is_empty s = not (is_some s.chat_id) && not (is_some s.user_id)

abbrev pub prefix_of : Option ℤ → Option ℤ → Payload
prefix_of (some id) user = b'c' ∷ (format_int 36 id ++ separator ∷ [])
prefix_of none (some id) = b'u' ∷ (format_int 36 id ++ separator ∷ [])
prefix_of none none = []

unfoldable pub prefix : CallbackScope → Payload
prefix s = prefix_of s.chat_id s.user_id

-- `strings.Cut` at one byte: before, after, and whether it was found.
unfoldable pub cut : ℕ → Payload → Payload × Payload × Bool
cut c [] = ([], [], false)
cut c (x ∷ xs) =
    let (before, after, found) = cut c xs in
    if x == c then ([], xs, true) else (x ∷ before, after, found)

-- What the kind and the number of a head say.
abbrev pub scope_of : ℕ → Option ℤ → Payload → Payload → CallbackScope × Payload
scope_of kind none payload whole = (no_scope, whole)
scope_of kind (some id) payload whole =
    if kind == b'c'
    then (chat_scope id, payload)
    else if kind == b'u'
    then (user_scope id, payload)
    else (no_scope, whole)

abbrev pub split_head : Payload → Payload → Bool → Payload → CallbackScope × Payload
split_head head payload false whole = (no_scope, whole)
split_head [] payload true whole = (no_scope, whole)
split_head (kind ∷ raw) payload true whole = scope_of kind (parse_int 36 raw) payload whole

unfoldable pub split_callback_scope : Payload → CallbackScope × Payload
unfolding cut
split_callback_scope whole =
    let (head, payload, found) = cut separator whole in split_head head payload found whole

pub record InlineButton : Type 0 where
  pub text : String
  pub url : Option String
  pub callback_data : Option Payload

-- One button and the number of payloads dropped.
unfoldable pub apply_to_data : Payload → Payload → Payload × ℕ
unfolding cut
apply_to_data before payload =
    if (cut separator payload).2
    then (payload, 0)
    else if ltb callback_data_limit (length (before ++ payload))
    then (payload, 1)
    else (before ++ payload, 0)

unfoldable pub apply_to_option : Payload → Option Payload → Option Payload × ℕ
unfolding apply_to_data
apply_to_option before none = (none, 0)
apply_to_option before (some payload) =
    let (scoped, dropped) = apply_to_data before payload in (some scoped, dropped)

unfoldable pub apply_to_button : Payload → InlineButton → InlineButton × ℕ
unfolding apply_to_option
apply_to_button before button =
    let (scoped, dropped) = apply_to_option before button.callback_data in
    (record button { callback_data = scoped }, dropped)

unfoldable pub apply_to_row : Payload → List InlineButton → List InlineButton × ℕ
apply_to_row before [] = ([], 0)
apply_to_row before (button ∷ row) =
    let (button', dropped) = apply_to_button before button in
    let (row', more) = apply_to_row before row in (button' ∷ row', dropped + more)

unfoldable pub apply_to_rows : Payload → List (List InlineButton) → List (List InlineButton) × ℕ
apply_to_rows before [] = ([], 0)
apply_to_rows before (row ∷ rows) =
    let (row', dropped) = apply_to_row before row in
    let (rows', more) = apply_to_rows before rows in (row' ∷ rows', dropped + more)

-- applyToKeyboard; a keyboard that is nil stays nil.
unfoldable pub apply_to_keyboard :
    CallbackScope → Option (List (List InlineButton)) → Option (List (List InlineButton)) × ℕ
unfolding prefix
apply_to_keyboard s none = (none, 0)
apply_to_keyboard s (some rows) =
    if is_empty s
    then (some rows, 0)
    else let (rows', dropped) = apply_to_rows (prefix s) rows in (some rows', dropped)
