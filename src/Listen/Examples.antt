-- ===== src/Listen/Examples.antt =====
-- The decoder of src/listen/protocol.rs, on sequences of its tests.
use whykey.Prelude.{
  ℕ, Text, text, false, IsAscii, all, contains_char, List, [], ◌∷◌, some, ◌≡◌, refl, split, text_eq,
  push_first, from_utf8, utf8_from, utf8_step,
}
use whykey.Listen.Fields.{
  KeyEventType, kitty_event_type, csi_u_body, last, without_last, event_name,
}
use whykey.Listen.Protocol.{decode_simple_byte}
use whykey.Listen.Observed.{decode_bytes}
use whykey.Listen.Marked.{marked_body, marked_sequence, decode_bytes-marked_sequence}

-- Beyond ASCII every character stands for itself.
abbrev upper : ℕ → Text
upper c = c ∷ []

-- A release of a key that has no name: the code point of DELETE is a control character.
abbrev unknown_release : List ℕ
unknown_release = 0x1b ∷ b'[' ∷ (text "127;1:3u")

unknown_release_marked : kitty_event_type unknown_release ≡ some KeyEventType.release
unfolding kitty_event_type csi_u_body last without_last from_utf8 split event_name text_eq text
    push_first utf8_from utf8_step
unknown_release_marked = refl

-- The modifiers cannot be read either, and a field with text stands behind them.
marked_body-IsAscii :
    IsAscii (marked_body (text "127") (text "x") KeyEventType.release (some (text "97")))
unfolding text all
marked_body-IsAscii = refl

no_semicolon_in_key : contains_char b';' (text "127") ≡ false
unfolding contains_char text
no_semicolon_in_key = refl

no_separator_in_modifiers :
    (contains_char b';' (text "x") ≡ false) × (contains_char b':' (text "x") ≡ false)
unfolding contains_char text
no_separator_in_modifiers = (refl, refl)

decode_bytes-marked_sequence_example :
    (decode_bytes upper
      (marked_sequence (text "127") (text "x") KeyEventType.release (some (text "97")))).event_type
    ≡ KeyEventType.release
decode_bytes-marked_sequence_example =
    decode_bytes-marked_sequence upper (text "127") (text "x") KeyEventType.release
      (some (text "97")) marked_body-IsAscii no_semicolon_in_key no_separator_in_modifiers.0
      no_separator_in_modifiers.1

-- The release of Ctrl and Left ends in `D`, and is reported as a press.
left_release : (decode_bytes upper (0x1b ∷ b'[' ∷ (text "1;5:3D"))).event_type ≡ KeyEventType.press
unfolding decode_bytes
left_release = refl

-- The arm for the carriage return is behind one that holds it: Alt and Return are read as M.
alt_return : decode_simple_byte b'\r' ≡ some (4, text "M")
unfolding decode_simple_byte text
alt_return = refl
