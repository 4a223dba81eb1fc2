-- ===== src/Key/Names.antt =====
-- src/key.rs: the names of keys, their normal form, and which names a query may use.
use whykey.Prelude.{
  ℕ, zero, suc, String, Bool, true, false, not, ◌&&◌, ◌||◌, Text, List, [], ◌∷◌, ◌++◌, Option, none,
  some, Result, ok, err, text, text_eq, to_lower, to_upper, is_whitespace, is_ascii_digit,
  is_ascii_alphanumeric, is_empty, strip_prefix, parse_unsigned, all, any, leb, ◌==◌, if◌then◌else◌,
}
use whykey.Key.Modifiers.{match_text}

-- The arms of the `match` in `normalize_key_str`, before the catch-all.
abbrev pub key_aliases : List (String × String)
key_aliases =
    ("arrowleft", "LEFT")
    ∷ ("arrow_left", "LEFT")
    ∷ ("leftarrow", "LEFT")
    ∷ ("left_arrow", "LEFT")
    ∷ ("arrowright", "RIGHT")
    ∷ ("arrow_right", "RIGHT")
    ∷ ("rightarrow", "RIGHT")
    ∷ ("right_arrow", "RIGHT")
    ∷ ("arrowup", "UP")
    ∷ ("arrow_up", "UP")
    ∷ ("uparrow", "UP")
    ∷ ("up_arrow", "UP")
    ∷ ("arrowdown", "DOWN")
    ∷ ("arrow_down", "DOWN")
    ∷ ("downarrow", "DOWN")
    ∷ ("down_arrow", "DOWN")
    ∷ ("enter", "RETURN")
    ∷ ("return", "RETURN")
    ∷ ("kp_enter", "KP_ENTER")
    ∷ ("kp_return", "KP_ENTER")
    ∷ ("kp_prior", "KP_PAGE_UP")
    ∷ ("kp_page_up", "KP_PAGE_UP")
    ∷ ("kp_next", "KP_PAGE_DOWN")
    ∷ ("kp_page_down", "KP_PAGE_DOWN")
    ∷ ("esc", "ESCAPE")
    ∷ ("escape", "ESCAPE")
    ∷ ("spacebar", "SPACE")
    ∷ ("space", "SPACE")
    ∷ ("pgup", "PAGE_UP")
    ∷ ("pageup", "PAGE_UP")
    ∷ ("page_up", "PAGE_UP")
    ∷ ("prior", "PAGE_UP")
    ∷ ("pgdown", "PAGE_DOWN")
    ∷ ("pagedown", "PAGE_DOWN")
    ∷ ("page_down", "PAGE_DOWN")
    ∷ ("next", "PAGE_DOWN")
    ∷ ("backspace", "BACKSPACE")
    ∷ ("delete", "DELETE")
    ∷ ("del", "DELETE")
    ∷ ("insert", "INSERT")
    ∷ ("ins", "INSERT")
    ∷ ("home", "HOME")
    ∷ ("end", "END")
    ∷ ("tab", "TAB")
    ∷ ("iso_left_tab", "TAB")
    ∷ ("exclam", "!")
    ∷ ("at", "@")
    ∷ ("numbersign", "#")
    ∷ ("dollar", "$")
    ∷ ("percent", "%")
    ∷ ("asciicircum", "^")
    ∷ ("ampersand", "&")
    ∷ ("asterisk", "*")
    ∷ ("parenleft", "(")
    ∷ ("parenright", ")")
    ∷ ("minus", "-")
    ∷ ("underscore", "_")
    ∷ ("equal", "=")
    ∷ ("plus", "+")
    ∷ ("bracketleft", "[")
    ∷ ("bracketright", "]")
    ∷ ("braceleft", "{")
    ∷ ("braceright", "}")
    ∷ ("semicolon", ";")
    ∷ ("colon", ":")
    ∷ ("apostrophe", "'")
    ∷ ("quotedbl", "\"")
    ∷ ("grave", "`")
    ∷ ("asciitilde", "~")
    ∷ ("backslash", "\\")
    ∷ ("bar", "|")
    ∷ ("comma", ",")
    ∷ ("less", "<")
    ∷ ("period", ".")
    ∷ ("greater", ">")
    ∷ ("slash", "/")
    ∷ ("question", "?")
    ∷ []

unfoldable pub normalize_key_str : Text → Text
unfolding match_text to_lower to_upper text
normalize_key_str value = elim (match_text key_aliases (to_lower value)) [
  | some name ↦ text name
  | none ↦ to_upper (to_lower value)
]

-- `value.chars().any(char::is_whitespace)`
unfoldable pub has_whitespace : Text → Bool
unfolding any is_whitespace
has_whitespace = any is_whitespace

-- Why a combination is rejected: a constructor for each error that `parse_combo` and its helpers
-- build, with the abbreviated parts of the input that its message echoes. The message of
-- `no_main_key` shows its text part by part, each with a capital letter, which is not modelled.
pub data ParseKeyComboError : Type 0 where
  empty_combination : ParseKeyComboError
  repeated_modifier : Text → ParseKeyComboError
  no_main_key : Text → Option Text → ParseKeyComboError
  several_keys : List Text → Option (ℕ × ℕ) → ParseKeyComboError
  whitespace_in_key : Text → ParseKeyComboError
  invalid_keycode : Text → ParseKeyComboError
  unknown_key : Text → ParseKeyComboError
  not_one_modifier : Text → ParseKeyComboError

abbrev pub echo_limit : ℕ
echo_limit = 64

-- The first `n` characters, then an ellipsis if there are more.
unfoldable pub shorten : ℕ → Text → Text
shorten n [] = []
shorten zero (c ∷ s) = 0x2026 ∷ []
shorten (suc n) (c ∷ s) = c ∷ shorten n s

unfoldable pub abbreviate : Text → Text
unfolding shorten
abbreviate = shorten echo_limit

-- `value.split_at(5).1`, of a text that has five characters.
unfoldable pub after_five : Text → Text
after_five (a ∷ b ∷ c ∷ d ∷ e ∷ rest) = rest
after_five s = []

unfoldable pub keycode : Text → Result ParseKeyComboError Text
unfolding after_five is_empty all is_ascii_digit abbreviate text
keycode value =
    let code = after_five value in
    if is_empty code || not (all is_ascii_digit code)
    then err (invalid_keycode (abbreviate value))
    else ok (text "CODE:" ++ code)

unfoldable pub normalize_key : Text → Result ParseKeyComboError Text
unfolding has_whitespace keycode strip_prefix to_lower normalize_key_str text
normalize_key value =
    if has_whitespace value
    then err (whitespace_in_key (abbreviate value))
    else elim (strip_prefix (text "code:") (to_lower value)) [
      | some _ ↦ keycode value
      | none ↦ ok (normalize_key_str value)
    ]

-- Named keys accepted in user queries.
abbrev pub named_keys : List String
named_keys =
    "LEFT" ∷ "RIGHT" ∷ "UP" ∷ "DOWN" ∷ "RETURN" ∷ "ESCAPE" ∷ "SPACE" ∷ "TAB" ∷ "BACKSPACE"
    ∷ "DELETE" ∷ "INSERT" ∷ "HOME" ∷ "END" ∷ "PAGE_UP" ∷ "PAGE_DOWN" ∷ "PRINT" ∷ "PAUSE" ∷ "BREAK"
    ∷ "SYS_REQ" ∷ "SCROLL_LOCK" ∷ "MENU" ∷ "CAPS_LOCK" ∷ "NUM_LOCK" ∷ "MULTI_KEY" ∷ "MODE_SWITCH"
    ∷ "HELP" ∷ "UNDO" ∷ "REDO" ∷ "FIND" ∷ "CANCEL" ∷ "SELECT" ∷ "EXECUTE" ∷ "CLEAR" ∷ "BEGIN"
    ∷ "LINEFEED" ∷ "SHIFT_L" ∷ "SHIFT_R" ∷ "CONTROL_L" ∷ "CONTROL_R" ∷ "ALT_L" ∷ "ALT_R" ∷ "SUPER_L"
    ∷ "SUPER_R" ∷ "META_L" ∷ "META_R" ∷ "HYPER_L" ∷ "HYPER_R" ∷ "KP_ENTER" ∷ "KP_HOME" ∷ "KP_END"
    ∷ "KP_0" ∷ "KP_1" ∷ "KP_2" ∷ "KP_3" ∷ "KP_4" ∷ "KP_5" ∷ "KP_6" ∷ "KP_7" ∷ "KP_8" ∷ "KP_9"
    ∷ "KP_ADD" ∷ "KP_SUBTRACT" ∷ "KP_MULTIPLY" ∷ "KP_DIVIDE" ∷ "KP_EQUAL" ∷ "KP_DECIMAL"
    ∷ "KP_SEPARATOR" ∷ "KP_DELETE" ∷ "KP_INSERT" ∷ "KP_UP" ∷ "KP_DOWN" ∷ "KP_LEFT" ∷ "KP_RIGHT"
    ∷ "KP_BEGIN" ∷ "KP_SPACE" ∷ "KP_TAB" ∷ "KP_PAGE_UP" ∷ "KP_PAGE_DOWN" ∷ "KP_F1" ∷ "KP_F2"
    ∷ "KP_F3" ∷ "KP_F4" ∷ "MOUSE_UP" ∷ "MOUSE_DOWN" ∷ "MOUSE_LEFT" ∷ "MOUSE_RIGHT" ∷ []

unfoldable pub is_named : List String → Text → Bool
unfolding text text_eq
is_named [] key = false
is_named (name ∷ names) key = text_eq (text name) key || is_named names key

unfoldable pub parse_u8 : Text → Option ℕ
unfolding parse_unsigned
parse_u8 = parse_unsigned 255

abbrev pub starts_with_zero : Text → Bool
starts_with_zero [] = false
starts_with_zero (c ∷ s) = c == b'0'

-- A function key `F1` to `F35`: what follows the `F`.
unfoldable pub is_function_number : Text → Bool
unfolding parse_u8
is_function_number number = elim (parse_u8 number) [
  | none ↦ false
  | some n ↦ not (starts_with_zero number) && leb 1 n && leb n 35
]

unfoldable pub is_button : Text → Bool
unfolding is_empty all is_ascii_digit
is_button button = not (is_empty button) && all is_ascii_digit button

unfoldable pub is_media_name : Text → Bool
unfolding is_empty all is_ascii_alphanumeric
is_media_name name = not (is_empty name) && all (λ c. is_ascii_alphanumeric c || c == b'_') name

unfoldable pub is_one_character : Text → Bool
is_one_character (c ∷ []) = true
is_one_character s = false

unfoldable pub is_known_key : Text → Bool
unfolding is_one_character is_named strip_prefix is_function_number is_button is_media_name text
is_known_key key =
    if is_one_character key || is_named named_keys key
    then true
    else elim (strip_prefix (text "CODE:") key) [
      | some _ ↦ true
      | none ↦ elim (strip_prefix (text "F") key) [
        | some number ↦ is_function_number number
        | none ↦ elim (strip_prefix (text "MOUSE:") key) [
          | some button ↦ is_button button
          | none ↦ elim (strip_prefix (text "XF86") key) [
            | some name ↦ is_media_name name
            | none ↦ false
          ]
        ]
      ]
    ]
