-- ===== src/Listen/Observed.antt =====
-- src/listen/protocol.rs: `decode_bytes`, the event that the listener is given.
use whykey.Prelude.{ℕ, ◌/◌, ◌%◌, Text, text, List, [], ◌∷◌, ◌++◌, Option, none, some, hex_digit}
use whykey.Key.Combo.{KeyCombo, from_parts}
use whykey.Listen.Fields.{
  KeyEventType, and_then, kitty_event_type, associated_text_from_bytes, alternate_keys,
}
use whykey.Listen.Protocol.{Decoded, decode_key}

-- The fields of `ObservedKey` that are not the same for all bytes.
pub record ObservedKey : Type 0 where
  pub combo : KeyCombo
  pub raw : List ℕ
  pub associated_text : Option Text
  pub encoding : Text
  pub event_type : KeyEventType
  pub alternate_keys : Option (List Text)
  pub alternate_key : Option Text

unfoldable pub raw_hex : List ℕ → Text
raw_hex [] = []
raw_hex (b ∷ bytes) = hex_digit (b / 16) ∷ hex_digit (b % 16) ∷ raw_hex bytes

abbrev or_press : Option KeyEventType → KeyEventType
or_press none = KeyEventType.press
or_press (some event) = event

-- What bytes that do not decode are taken for.
unfoldable pub undecoded : List ℕ → Decoded
unfolding from_parts raw_hex text kitty_event_type
undecoded bytes = record {
  combo = from_parts 0 (text "RAW:" ++ raw_hex bytes);
  encoding = text "unrecognized terminal bytes; physical/layout origin is unknown";
  event_type = or_press (kitty_event_type bytes);
}

abbrev first_name : Option (List Text) → Option Text
first_name (some (name ∷ names)) = some name
first_name _ = none

abbrev decoded_or : Option Decoded → Decoded → Decoded
decoded_or none other = other
decoded_or (some d) other = d

module _ (upper : ℕ → Text) where
  unfoldable pub decode_bytes : List ℕ → ObservedKey
  unfolding decode_key associated_text_from_bytes alternate_keys undecoded
  decode_bytes bytes =
      let key = decode_key upper bytes in
      let names = and_then key (λ d. alternate_keys upper bytes) in
      let d = decoded_or key (undecoded bytes) in
      record {
        combo = d.combo;
        raw = bytes;
        associated_text = and_then key (λ d. associated_text_from_bytes bytes);
        encoding = d.encoding;
        event_type = d.event_type;
        alternate_keys = names;
        alternate_key = first_name names;
      }
