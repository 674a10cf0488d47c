-- ===== src/Callbacks/Keyboards.antt =====
-- The scope that a keyboard carries comes back, and its payloads stay within the limit.
-- About internal/adapter/telegram/callbackdata.go.
use cs2_predictor.Base.Digits.{format_int}
use cs2_predictor.Base.Numerals.{is_digit_char, IsInt64, parse_int-format_int, format_int-chars}
use cs2_predictor.Base.{
  some, false, All, inr, All-map, ◌||◌, ◌≡◌, ◌∷◌, refl, ◌++◌, ℕ, arith, ap, ℤ, ◌==◌, inl, [], true,
  ◌⊎◌, none, Bool-cases, ◌∙◌, List, Option, ltb, ◌≤◌, length,
}
use cs2_predictor.Callbacks.Scope.{
  separator, no_scope, cut, split_callback_scope, chat_scope, prefix, CallbackScope, scope_of,
  Payload, user_scope, apply_to_option, apply_to_button, callback_data_limit, apply_to_data,
  apply_to_keyboard, apply_to_rows, InlineButton, apply_to_row, is_empty, split_head,
}

-- The payload has no separator.
abbrev pub IsUnscoped : Payload → Type 0
IsUnscoped = All (λ c. (c == separator) ≡ false)

-- A scope that the code builds: one id, in 64 bits.
abbrev pub IsScope : CallbackScope → Type 0
IsScope s =
    ((id : ℤ) × IsInt64 id × (s ≡ chat_scope id)) ⊎ ((id : ℤ) × IsInt64 id × (s ≡ user_scope id))

cut-append :
    (head rest : Payload)
    → IsUnscoped head
    → cut separator (head ++ separator ∷ rest) ≡ (head, rest, true)
unfolding cut
cut-append [] rest h = refl
cut-append (c ∷ head) rest h = rw (h.0, cut-append head rest h.1)

cut-IsUnscoped : (l : Payload) → IsUnscoped l → cut separator l ≡ (l, [], false)
unfolding cut
cut-IsUnscoped [] h = refl
cut-IsUnscoped (c ∷ l) h = rw (h.0, cut-IsUnscoped l h.1)

number-IsUnscoped : (id : ℤ) → IsUnscoped (format_int 36 id)
number-IsUnscoped id =
    All-map _ _ (λ c h. plain c h) (format_int 36 id)
      (format_int-chars 36 (omega arith) (omega arith) id)
  where
    plain : (c : ℕ) → (is_digit_char c || (c == b'-')) ≡ true → (c == separator) ≡ false
    plain c h = ground arith

append_assoc_one : (a : Payload) (c : ℕ) (b : Payload) → (a ++ c ∷ []) ++ b ≡ a ++ c ∷ b
append_assoc_one [] c b = refl
append_assoc_one (x ∷ a) c b = ap (λ l. x ∷ l) (append_assoc_one a c b)

scoped_head :
    (kind : ℕ) (id : ℤ) (payload : Payload)
    → (kind == separator) ≡ false
    → IsInt64 id
    → split_callback_scope (kind ∷ (format_int 36 id ++ separator ∷ []) ++ payload)
      ≡ scope_of kind (some id) payload (kind ∷ (format_int 36 id ++ separator ∷ []) ++ payload)
unfolding split_callback_scope
scoped_head kind id payload k h =
    ap (λ t. split_head t.0 t.1 t.2 whole) whole_cut
    ∙ ap (λ o. scope_of kind o payload whole)
        (parse_int-format_int 36 (omega arith) (omega arith) id h)
  where
    whole : Payload
    whole = kind ∷ (format_int 36 id ++ separator ∷ []) ++ payload

    whole_cut : cut separator whole ≡ (kind ∷ format_int 36 id, payload, true)
    whole_cut =
        ap (λ l. cut separator (kind ∷ l)) (append_assoc_one (format_int 36 id) separator payload)
        ∙ cut-append (kind ∷ format_int 36 id) payload (k, number-IsUnscoped id)

-- The scope in front of any payload is split off again, and the payload is what it was.
pub split_callback_scope-prefix :
    (s : CallbackScope) (payload : Payload)
    → IsScope s
    → split_callback_scope (prefix s ++ payload) ≡ (s, payload)
unfolding prefix
split_callback_scope-prefix s payload (inl (id, h, e)) = rw e (scoped_head b'c' id payload refl h)
split_callback_scope-prefix s payload (inr (id, h, e)) = rw e (scoped_head b'u' id payload refl h)

-- A payload with no separator has no scope and is left whole.
pub split_callback_scope-IsUnscoped :
    (payload : Payload) → IsUnscoped payload → split_callback_scope payload ≡ (no_scope, payload)
unfolding split_callback_scope
split_callback_scope-IsUnscoped payload h = rw (cut-IsUnscoped payload h)

-- A prefix that the code builds ends in the separator.
abbrev IsPrefix : Payload → Type 0
IsPrefix before = (payload : Payload) → (cut separator (before ++ payload)).2 ≡ true

found :
    (kind : ℕ) (id : ℤ) (payload : Payload)
    → (kind == separator) ≡ false
    → (cut separator (kind ∷ (format_int 36 id ++ separator ∷ []) ++ payload)).2 ≡ true
found kind id payload k =
    ap (λ t. t.2)
      (ap (λ l. cut separator (kind ∷ l)) (append_assoc_one (format_int 36 id) separator payload)
        ∙ cut-append (kind ∷ format_int 36 id) payload (k, number-IsUnscoped id))

prefix-IsPrefix : (s : CallbackScope) → IsScope s → IsPrefix (prefix s)
unfolding prefix
prefix-IsPrefix s (inl (id, h, e)) payload = rw e (found b'c' id payload refl)
prefix-IsPrefix s (inr (id, h, e)) payload = rw e (found b'u' id payload refl)

-- Applied twice, one payload is scoped once, and counted as dropped both times or neither.
apply_to_data_again :
    (before payload : Payload)
    → IsPrefix before
    → apply_to_data before (apply_to_data before payload).0 ≡ apply_to_data before payload
unfolding apply_to_data
apply_to_data_again before payload h = elim (Bool-cases (cut separator payload).2) [
  | inl e ↦ rw (e, e)
  | inr e ↦ elim (Bool-cases (ltb callback_data_limit (length (before ++ payload)))) [
    | inl long ↦ rw (e, long, e, long)
    | inr short ↦ rw (e, short, h payload)
  ]
]

apply_to_option_again :
    (before : Payload) (o : Option Payload)
    → IsPrefix before
    → apply_to_option before (apply_to_option before o).0 ≡ apply_to_option before o
unfolding apply_to_option
apply_to_option_again before none h = refl
apply_to_option_again before (some payload) h = rw (apply_to_data_again before payload h)

apply_to_button_again :
    (before : Payload) (button : InlineButton)
    → IsPrefix before
    → apply_to_button before (apply_to_button before button).0 ≡ apply_to_button before button
unfolding apply_to_button
apply_to_button_again before button h =
    ap (λ t. (record button { callback_data = t.0 }, t.1))
      (apply_to_option_again before button.callback_data h)

apply_to_row_again :
    (before : Payload) (row : List InlineButton)
    → IsPrefix before
    → apply_to_row before (apply_to_row before row).0 ≡ apply_to_row before row
unfolding apply_to_row
apply_to_row_again before [] h = refl
apply_to_row_again before (button ∷ row) h =
    rw (apply_to_button_again before button h, apply_to_row_again before row h)

apply_to_rows_again :
    (before : Payload) (rows : List (List InlineButton))
    → IsPrefix before
    → apply_to_rows before (apply_to_rows before rows).0 ≡ apply_to_rows before rows
unfolding apply_to_rows
apply_to_rows_again before [] h = refl
apply_to_rows_again before (row ∷ rows) h =
    rw (apply_to_row_again before row h, apply_to_rows_again before rows h)

-- A keyboard that carries a scope is not scoped again: the second application answers with the
-- keyboard and the count of the first.
pub apply_to_keyboard_again :
    (s : CallbackScope) (kb : Option (List (List InlineButton)))
    → IsScope s
    → apply_to_keyboard s (apply_to_keyboard s kb).0 ≡ apply_to_keyboard s kb
unfolding apply_to_keyboard
apply_to_keyboard_again s none h = refl
apply_to_keyboard_again s (some rows) h = elim (Bool-cases (is_empty s)) [
  | inl e ↦ rw (e, e)
  | inr e ↦ rw (e, e, apply_to_rows_again (prefix s) rows (prefix-IsPrefix s h))
]

abbrev pub to_list : Option Payload → List Payload
to_list none = []
to_list (some payload) = payload ∷ []

-- The payload of a button fits Telegram's limit.
abbrev pub Fits : InlineButton → Type 0
Fits button = All (λ payload. length payload ≤ callback_data_limit) (to_list button.callback_data)

bound :
    (before payload : Payload)
    → length payload ≤ callback_data_limit
    → length (apply_to_data before payload).0 ≤ callback_data_limit
unfolding apply_to_data
bound before payload h = elim (Bool-cases (cut separator payload).2) [
  | inl e ↦ rw e h
  | inr e ↦ elim (Bool-cases (ltb callback_data_limit (length (before ++ payload)))) [
    | inl long ↦ rw (e, long) h
    | inr short ↦ rw (e, short) (ground arith)
  ]
]

apply_to_button-Fits :
    (before : Payload) (button : InlineButton)
    → Fits button
    → Fits (apply_to_button before button).0
unfolding apply_to_button apply_to_option
apply_to_button-Fits before button h = go button.callback_data h
  where
    go :
        (o : Option Payload)
        → All (λ payload. length payload ≤ callback_data_limit) (to_list o)
        → All
            (λ payload. length payload ≤ callback_data_limit)
            (to_list (apply_to_option before o).0)
    go none k = tt
    go (some payload) k = (bound before payload k.0, tt)

apply_to_row-Fits :
    (before : Payload) (row : List InlineButton)
    → All Fits row
    → All Fits (apply_to_row before row).0
unfolding apply_to_row
apply_to_row-Fits before [] h = tt
apply_to_row-Fits before (button ∷ row) h =
    (apply_to_button-Fits before button h.0, apply_to_row-Fits before row h.1)

apply_to_rows-Fits :
    (before : Payload) (rows : List (List InlineButton))
    → All (All Fits) rows
    → All (All Fits) (apply_to_rows before rows).0
unfolding apply_to_rows
apply_to_rows-Fits before [] h = tt
apply_to_rows-Fits before (row ∷ rows) h =
    (apply_to_row-Fits before row h.0, apply_to_rows-Fits before rows h.1)

-- A keyboard whose payloads fit the limit of 64 bytes has payloads that fit it under any scope.
pub apply_to_keyboard-Fits :
    (s : CallbackScope) (rows : List (List InlineButton))
    → All (All Fits) rows
    → (rows' : List (List InlineButton)) × ((apply_to_keyboard s (some rows)).0 ≡ some rows')
      × All (All Fits) rows'
unfolding apply_to_keyboard
apply_to_keyboard-Fits s rows h = elim (Bool-cases (is_empty s)) [
  | inl e ↦ (rows, rw e, h)
  | inr e ↦ ((apply_to_rows (prefix s) rows).0, rw e, apply_to_rows-Fits (prefix s) rows h)
]
