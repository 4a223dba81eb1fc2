-- ===== src/Tmux/Keys.antt =====
-- src/layers/tmux.rs: tmux's names of keys, and the key that a combination arrives as.
use whykey.Prelude.{
  ℕ, zero, suc, String, Bool, true, false, ◌&&◌, Text, List, [], ◌∷◌, ◌++◌, Option, none, some,
  text, text_eq, to_lower, to_upper, is_empty, split_once, length, is_ascii_digit,
  is_ascii_uppercase, is_ascii_punctuation, ◌==◌, not, if◌then◌else◌, bit_and, bit_or,
}
use whykey.Key.Modifiers.{match_text, shift_mask, ctrl_mask, alt_mask}
use whykey.Key.Names.{parse_u8}
use whykey.Key.Combo.{KeyCombo, from_parts}

-- `modmask & !SHIFT`, of a mask of 32 bits: `SHIFT` is the lowest bit.
abbrev without_shift : ℕ → ℕ
without_shift modifiers = bit_and modifiers 0xfffffffe

-- `if … { KeyCombo::from_parts(key.modmask() & !SHIFT, key.key()) }`, of a key of one character.
abbrev shifted_symbol : KeyCombo → ℕ → KeyCombo
shifted_symbol combo character =
    if not (bit_and combo.modifiers shift_mask == 0) && is_ascii_punctuation character
    then from_parts (without_shift combo.modifiers) combo.key
    else combo

abbrev query_key_of : KeyCombo → Text → KeyCombo
query_key_of combo (character ∷ []) = shifted_symbol combo character
query_key_of combo _ = combo

unfoldable pub tmux_query_key : KeyCombo → KeyCombo
unfolding from_parts is_ascii_punctuation
tmux_query_key combo = query_key_of combo combo.key

-- `if key.len() > 1`, `strip_prefix('^')`
unfoldable pub strip_caret : Text → Option Text
strip_caret (c ∷ d ∷ s) = if c == b'^' then some (d ∷ s) else none
strip_caret _ = none

abbrev pub prefix_names : List (String × ℕ)
prefix_names =
    ("C", ctrl_mask)
    ∷ ("c", ctrl_mask)
    ∷ ("M", alt_mask)
    ∷ ("m", alt_mask)
    ∷ ("S", shift_mask)
    ∷ ("s", shift_mask)
    ∷ []

-- The modifier of a prefix and a dash that do not stand at the end, and what is behind it.
unfoldable pub split_modifier : Text → Option (ℕ × Text)
unfolding split_once is_empty match_text
split_modifier key = elim (split_once b'-' key) [
  | none ↦ none
  | some (prefix, rest) ↦ elim (is_empty rest) [
    | true ↦ none
    | false ↦ elim (match_text prefix_names prefix) [ none ↦ none | some bit ↦ some (bit, rest) ]
  ]
]

-- A round of the `loop`: the modifier that it takes, and the key that it leaves.
unfoldable pub next_modifier : Text → Option (ℕ × Text)
unfolding strip_caret split_modifier
next_modifier key = elim (strip_caret key) [
  | some rest ↦ some (ctrl_mask, rest)
  | none ↦ split_modifier key
]

-- The `loop`. The fuel is the length of the key, which falls with each round.
unfoldable pub take_modifiers : ℕ → ℕ → Text → ℕ × Text
unfolding next_modifier
take_modifiers zero modifiers key = (modifiers, key)
take_modifiers (suc fuel) modifiers key = elim (next_modifier key) [
  | none ↦ (modifiers, key)
  | some (bit, rest) ↦ take_modifiers fuel (bit_or modifiers bit) rest
]

-- The arms of the `match` on the lowercase name whose key is a literal.
abbrev key_names : List (String × String)
key_names =
    ("left", "LEFT")
    ∷ ("right", "RIGHT")
    ∷ ("up", "UP")
    ∷ ("down", "DOWN")
    ∷ ("home", "HOME")
    ∷ ("end", "END")
    ∷ ("npage", "PAGE_DOWN")
    ∷ ("pagedown", "PAGE_DOWN")
    ∷ ("pgdn", "PAGE_DOWN")
    ∷ ("ppage", "PAGE_UP")
    ∷ ("pageup", "PAGE_UP")
    ∷ ("pgup", "PAGE_UP")
    ∷ ("ic", "INSERT")
    ∷ ("insert", "INSERT")
    ∷ ("dc", "DELETE")
    ∷ ("delete", "DELETE")
    ∷ ("escape", "ESCAPE")
    ∷ ("bspace", "BACKSPACE")
    ∷ ("tab", "TAB")
    ∷ ("btab", "TAB")
    ∷ ("space", "SPACE")
    ∷ ("enter", "RETURN")
    ∷ ("kpenter", "KP_ENTER")
    ∷ ("kp/", "KP_DIVIDE")
    ∷ ("kp*", "KP_MULTIPLY")
    ∷ ("kp-", "KP_SUBTRACT")
    ∷ ("kp+", "KP_ADD")
    ∷ ("kp.", "KP_DECIMAL")
    ∷ []

-- The digit of `kp0` to `kp9`: a name of three bytes.
unfoldable pub keypad_digit : Text → Option ℕ
unfolding is_ascii_digit
keypad_digit (k ∷ p ∷ digit ∷ []) =
    if k == b'k' && (p == b'p' && is_ascii_digit digit) then some digit else none
keypad_digit _ = none

-- `value.starts_with('f') && value[1..].parse::<u8>().is_ok()`
unfoldable pub is_function_key : Text → Bool
unfolding parse_u8
is_function_key [] = false
is_function_key (c ∷ number) = c == b'f' && elim (parse_u8 number) [ none ↦ false | some _ ↦ true ]

abbrev with_back_tab : ℕ → Text → ℕ
with_back_tab modifiers value =
    if text_eq value (text "btab") then bit_or modifiers shift_mask else modifiers

-- The `match` on the lowercase name.
unfoldable pub named_key : ℕ → Text → Option KeyCombo
unfolding match_text from_parts keypad_digit is_function_key to_upper text text_eq
named_key modifiers value = elim (match_text key_names value) [
  | some name ↦ some (from_parts (with_back_tab modifiers value) (text name))
  | none ↦ elim (keypad_digit value) [
    | some digit ↦ some (from_parts modifiers (text "KP_" ++ digit ∷ []))
    | none ↦ if is_function_key value then some (from_parts modifiers (to_upper value)) else none
  ]
]

unfoldable pub finished_key : ℕ → Text → Option KeyCombo
unfolding named_key from_parts is_ascii_uppercase to_lower
finished_key modifiers (character ∷ []) = some (
    from_parts (if is_ascii_uppercase character then bit_or modifiers shift_mask else modifiers)
      (character ∷ []))
finished_key modifiers key = named_key modifiers (to_lower key)

unfoldable pub parse_tmux_key : Text → Option KeyCombo
unfolding take_modifiers finished_key
parse_tmux_key raw =
    let (modifiers, key) = take_modifiers (length raw) 0 raw in finished_key modifiers key
