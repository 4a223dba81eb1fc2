-- ===== src/Listen/Names.antt =====
-- src/listen/protocol.rs: the names of keys in the sequences of terminals.
use whykey.Prelude.{
  ℕ, ◌-◌, String, Text, text, List, [], ◌∷◌, ◌++◌, Option, none, some, find, to_decimal, is_scalar,
  is_control, char_to_upper, ltb, leb, ◌==◌, if◌then◌else◌, ◌&&◌,
}
use whykey.Key.Modifiers.{match_text}

-- The arms of `kitty_key_name` that are one code point.
abbrev pub kitty_names : List (ℕ × String)
kitty_names =
    (9, "TAB")
    ∷ (13, "RETURN")
    ∷ (27, "ESCAPE")
    ∷ (32, "SPACE")
    ∷ (57358, "CAPSLOCK")
    ∷ (57359, "SCROLLLOCK")
    ∷ (57360, "NUMLOCK")
    ∷ (57361, "PRINTSCREEN")
    ∷ (57362, "PAUSE")
    ∷ (57363, "MENU")
    ∷ (57409, "KP_DECIMAL")
    ∷ (57410, "KP_DIVIDE")
    ∷ (57411, "KP_MULTIPLY")
    ∷ (57412, "KP_SUBTRACT")
    ∷ (57413, "KP_ADD")
    ∷ (57414, "KP_ENTER")
    ∷ (57415, "KP_EQUAL")
    ∷ (57416, "KP_SEPARATOR")
    ∷ (57417, "KP_LEFT")
    ∷ (57418, "KP_RIGHT")
    ∷ (57419, "KP_UP")
    ∷ (57420, "KP_DOWN")
    ∷ (57421, "KP_PAGE_UP")
    ∷ (57422, "KP_PAGE_DOWN")
    ∷ (57423, "KP_HOME")
    ∷ (57424, "KP_END")
    ∷ (57425, "KP_INSERT")
    ∷ (57426, "KP_DELETE")
    ∷ (57427, "KP_BEGIN")
    ∷ (57428, "MEDIA_PLAY")
    ∷ (57429, "MEDIA_PAUSE")
    ∷ (57430, "MEDIA_PLAY_PAUSE")
    ∷ (57431, "MEDIA_REVERSE")
    ∷ (57432, "MEDIA_STOP")
    ∷ (57433, "MEDIA_FAST_FORWARD")
    ∷ (57434, "MEDIA_REWIND")
    ∷ (57435, "MEDIA_TRACK_NEXT")
    ∷ (57436, "MEDIA_TRACK_PREVIOUS")
    ∷ (57437, "MEDIA_RECORD")
    ∷ (57438, "LOWER_VOLUME")
    ∷ (57439, "RAISE_VOLUME")
    ∷ (57440, "MUTE_VOLUME")
    ∷ (57441, "LEFT_SHIFT")
    ∷ (57442, "LEFT_CONTROL")
    ∷ (57443, "LEFT_ALT")
    ∷ (57444, "LEFT_SUPER")
    ∷ (57445, "LEFT_HYPER")
    ∷ (57446, "LEFT_META")
    ∷ (57447, "RIGHT_SHIFT")
    ∷ (57448, "RIGHT_CONTROL")
    ∷ (57449, "RIGHT_ALT")
    ∷ (57450, "RIGHT_SUPER")
    ∷ (57451, "RIGHT_HYPER")
    ∷ (57452, "RIGHT_META")
    ∷ (57453, "ISO_LEVEL3_SHIFT")
    ∷ (57454, "ISO_LEVEL5_SHIFT")
    ∷ (0, "TEXT")
    ∷ []

-- The arms of `csi_tilde_key`.
abbrev tilde_names : List (String × String)
tilde_names =
    ("1", "HOME")
    ∷ ("7", "HOME")
    ∷ ("2", "INSERT")
    ∷ ("3", "DELETE")
    ∷ ("4", "END")
    ∷ ("8", "END")
    ∷ ("5", "PAGE_UP")
    ∷ ("6", "PAGE_DOWN")
    ∷ ("11", "F1")
    ∷ ("12", "F2")
    ∷ ("13", "F3")
    ∷ ("14", "F4")
    ∷ ("15", "F5")
    ∷ ("17", "F6")
    ∷ ("18", "F7")
    ∷ ("19", "F8")
    ∷ ("20", "F9")
    ∷ ("21", "F10")
    ∷ ("23", "F11")
    ∷ ("24", "F12")
    ∷ ("25", "F13")
    ∷ ("26", "F14")
    ∷ ("28", "F15")
    ∷ ("29", "F16")
    ∷ ("31", "F17")
    ∷ ("32", "F18")
    ∷ ("33", "F19")
    ∷ ("34", "F20")
    ∷ []

abbrev some_text : Option String → Option Text
some_text none = none
some_text (some name) = some (text name)

unfoldable pub csi_tilde_key : Text → Option Text
unfolding match_text text
csi_tilde_key number = some_text (match_text tilde_names number)

unfoldable pub find_kitty_name : ℕ → Option (ℕ × String)
unfolding find
find_kitty_name codepoint = find (λ (e : ℕ × String). e.0 == codepoint) kitty_names

-- `char::to_uppercase`, a text, is `upper` beyond ASCII.
module _ (upper : ℕ → Text) where
  unfoldable pub char_upper : ℕ → Text
  unfolding char_to_upper
  char_upper c = if ltb c 128 then char_to_upper c ∷ [] else upper c

  -- The last arm.
  unfoldable pub kitty_character : ℕ → Option Text
  unfolding is_scalar is_control char_upper
  kitty_character value =
      if is_scalar value then (if is_control value then none else some (char_upper value)) else none

  abbrev kitty_row : ℕ → Option (ℕ × String) → Option Text
  kitty_row codepoint (some e) = some (text e.1)
  kitty_row codepoint none =
      if leb 57376 codepoint && leb codepoint 57398
      then some (text "F" ++ to_decimal 2 (codepoint - 57363))
      else if leb 57399 codepoint && leb codepoint 57408
      then some (text "KP_" ++ to_decimal 2 (codepoint - 57399))
      else kitty_character codepoint

  unfoldable pub kitty_key_name : ℕ → Option Text
  unfolding find_kitty_name text to_decimal kitty_character
  kitty_key_name codepoint = kitty_row codepoint (find_kitty_name codepoint)
