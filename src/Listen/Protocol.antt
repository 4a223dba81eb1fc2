-- ===== src/Listen/Protocol.antt =====
-- src/listen/protocol.rs: the decoder of the bytes that a terminal sends for a key.
use whykey.Prelude.{
  ℕ, ◌+◌, ◌-◌, String, Bool, ◌&&◌, ◌||◌, Text, text, is_empty, List, [], ◌∷◌, ◌++◌, Option, none,
  some, split, from_utf8, parse_u32, is_control, is_ascii_alphabetic, char_to_upper, leb, bit_or,
  ◌==◌, if◌then◌else◌,
}
use whykey.Key.Combo.{KeyCombo, from_parts}
use whykey.Listen.Names.{csi_tilde_key, char_upper, kitty_key_name}
use whykey.Listen.Fields.{
  KeyEventType, last, without_last, first_field, second_field, and_then, event_name,
  xterm_modifiers, kitty_alternate_names,
}

pub record Decoded : Type 0 where
  pub combo : KeyCombo
  pub encoding : Text
  pub event_type : KeyEventType

abbrev decoded : ℕ → Text → String → KeyEventType → Option Decoded
decoded modifiers key encoding event =
    some (record { combo = from_parts modifiers key; encoding = text encoding; event_type = event })

abbrev is_graphic : ℕ → Bool
is_graphic b = leb 33 b && leb b 126

-- The key of a single byte, with its modifiers; the tests are the arms, in their order.
unfoldable pub byte_key : ℕ → Option (ℕ × Text)
unfolding text
byte_key b =
    if b == 0
    then some (4, text "SPACE")
    else if b == b'\r'
    then some (0, text "RETURN")
    else if b == b'\n'
    then some (4, text "J")
    else if b == b'\t'
    then some (0, text "TAB")
    else if leb 1 b && leb b 0x1a
    then some (4, (b'A' + b - 1) ∷ [])
    else if b == 0x7f
    then some (0, text "BACKSPACE")
    else if is_graphic b || b == b' '
    then some (0, b ∷ [])
    else none

abbrev byte_encoding : ℕ → String
byte_encoding b =
    if b == b'\t'
    then "legacy byte input; could also be CTRL + I"
    else if b == b'\r'
    then "legacy byte input; could also be CTRL + M"
    else if leb b'A' b && leb b b'Z'
    then "legacy text byte; Shift/CapsLock cannot be distinguished"
    else "legacy byte input"

unfoldable pub decode_simple_byte : ℕ → Option (ℕ × Text)
unfolding is_ascii_alphabetic char_to_upper text
decode_simple_byte b =
    if leb 1 b && leb b 0x1a
    then some (4, (b'A' + b - 1) ∷ [])
    else if is_ascii_alphabetic b
    then some (0, char_to_upper b ∷ [])
    else if b == b'\r'
    then some (0, text "RETURN")
    else if b == b'\t'
    then some (0, text "TAB")
    else if b == b' '
    then some (0, text "SPACE")
    else none

abbrev arrow_key : ℕ → Option String
arrow_key b =
    if b == b'A'
    then some "UP"
    else if b == b'B'
    then some "DOWN"
    else if b == b'C'
    then some "RIGHT"
    else if b == b'D'
    then some "LEFT"
    else if b == b'H'
    then some "HOME"
    else if b == b'F'
    then some "END"
    else if b == b'P'
    then some "F1"
    else if b == b'Q'
    then some "F2"
    else if b == b'S'
    then some "F4"
    else none

abbrev named : Option String → Option Text
named none = none
named (some name) = some (text name)

-- The key of a CSI sequence with this final byte.
unfoldable pub csi_key : ℕ → Text → Option Text
unfolding text is_empty split csi_tilde_key
csi_key final params =
    if final == b'Z' && is_empty params
    then some (text "TAB")
    else if final == b'~'
    then csi_tilde_key (first_field (split b';' params))
    else named (arrow_key final)

abbrev or_zero : Option ℕ → ℕ
or_zero none = 0
or_zero (some modifiers) = modifiers

unfoldable pub csi_modifiers : ℕ → Text → ℕ
unfolding split parse_u32 xterm_modifiers
csi_modifiers final params =
    if final == b'Z'
    then 1
    else or_zero (
        and_then (and_then (second_field (split b';' params)) parse_u32)
          (λ value. some (xterm_modifiers value)))

abbrev csi_decoded : ℕ → Text → Text → Option Decoded
csi_decoded final params key = some (record {
  combo = from_parts (csi_modifiers final params) key;
  encoding = text "CSI sequence, final byte " ++ final ∷ [];
  event_type = KeyEventType.press;
})

unfoldable pub ss3_key : ℕ → Option Text
unfolding text
ss3_key final = if final == b'R' then some (text "F3") else named (arrow_key final)

unfoldable pub decode_ss3 : List ℕ → Option Decoded
unfolding from_parts text last ss3_key
decode_ss3 body =
    and_then (and_then (last body) ss3_key) (λ key. decoded 0 key "SS3 sequence" KeyEventType.press)

-- The modifiers' field and the event's, a missing or empty one being `1`; a third is refused.
abbrev one_if_empty : Text → Text
one_if_empty value = if is_empty value then text "1" else value

abbrev pub modifier_parts : List Text → Option (Text × Text)
modifier_parts [] = none
modifier_parts (modifiers ∷ []) = some (one_if_empty modifiers, text "1")
modifier_parts (modifiers ∷ event ∷ []) = some (one_if_empty modifiers, event)
modifier_parts (modifiers ∷ event ∷ more ∷ rest) = none

-- The key's field and the modifiers'; there may be one more for the associated text.
abbrev pub key_fields : List Text → Option (Text × Text)
key_fields [] = none
key_fields (key ∷ []) = some (key, text "1")
key_fields (key ∷ modifiers ∷ []) = some (key, modifiers)
key_fields (key ∷ modifiers ∷ associated ∷ []) = some (key, modifiers)
key_fields (key ∷ modifiers ∷ associated ∷ more ∷ rest) = none

unfoldable pub decode_event : Text → Option (ℕ × KeyEventType)
unfolding split parse_u32 event_name is_empty text
decode_event field = and_then (modifier_parts (split b':' field)) (λ parts.
    and_then (parse_u32 parts.0)
      (λ modifiers. and_then (event_name parts.1) (λ event. some (modifiers, event))))

module _ (upper : ℕ → Text) where
  abbrev one_character : Option Text → Option Text
  one_character (some (c ∷ [])) = if is_control c then none else some (char_upper upper c)
  one_character _ = none

  unfoldable pub decode_utf8_text : List ℕ → Option Decoded
  unfolding from_utf8 is_control char_upper from_parts text
  decode_utf8_text bytes = and_then (one_character (from_utf8 bytes)) (λ key.
      decoded 0 key "UTF-8 text input; Compose/layout origin cannot be distinguished"
        KeyEventType.press)

  -- The key that the key's field names, if its alternates name keys too.
  unfoldable pub decode_key_field : Text → Option Text
  unfolding split parse_u32 kitty_key_name kitty_alternate_names
  decode_key_field field = and_then (parse_u32 (first_field (split b':' field))) (λ codepoint.
      and_then (kitty_alternate_names upper field) (λ names. kitty_key_name upper codepoint))

  abbrev pub kitty_decoded : Text → ℕ × KeyEventType → Option Decoded
  kitty_decoded key event = decoded (xterm_modifiers event.0) key "Kitty keyboard protocol" event.1

  unfoldable pub decode_kitty : Text → Option Decoded
  unfolding split decode_event decode_key_field from_parts text xterm_modifiers
  decode_kitty params = and_then (key_fields (split b';' params)) (λ fields.
      and_then (decode_key_field fields.0)
        (λ key. and_then (decode_event fields.1) (λ event. kitty_decoded key event)))

  abbrev pub csi_params : ℕ → Text → Option Decoded
  csi_params final params =
      if final == b'u'
      then decode_kitty params
      else and_then (csi_key final params) (csi_decoded final params)

  unfoldable pub decode_csi : List ℕ → Option Decoded
  unfolding last without_last from_utf8 decode_kitty csi_key csi_modifiers from_parts text
  decode_csi body =
      and_then (last body) (λ final. and_then (from_utf8 (without_last body)) (csi_params final))

  abbrev with_alt : String → Decoded → Option Decoded
  with_alt encoding d = decoded (bit_or d.combo.modifiers 8) d.combo.key encoding d.event_type

  unfoldable pub decode_escape : List ℕ → Option Decoded
  unfolding decode_csi decode_ss3 decode_utf8_text decode_simple_byte from_parts text
  decode_escape [] = none
  decode_escape (e ∷ []) = decoded 0 (text "ESCAPE") "legacy Escape key" KeyEventType.press
  decode_escape (e ∷ b ∷ body) =
      if b == b'[' then decode_csi body else if b == b'O' then decode_ss3 body else elim body [
        | [] ↦
            and_then (decode_simple_byte b)
              (λ key. decoded (bit_or key.0 8) key.1 "legacy Alt-prefixed input" KeyEventType.press)
        | c ∷ rest ↦
            and_then (decode_utf8_text (b ∷ c ∷ rest))
              (with_alt "Alt-prefixed UTF-8 input; layout/Compose origin is ambiguous")
      ]

  unfoldable pub decode_key : List ℕ → Option Decoded
  unfolding decode_escape decode_utf8_text byte_key from_parts text
  decode_key [] = none
  decode_key (b ∷ []) =
      if b == 0x1b
      then decode_escape (b ∷ [])
      else and_then (byte_key b) (λ key. decoded key.0 key.1 (byte_encoding b) KeyEventType.press)
  decode_key (b ∷ c ∷ rest) =
      if b == 0x1b then decode_escape (b ∷ c ∷ rest) else decode_utf8_text (b ∷ c ∷ rest)
