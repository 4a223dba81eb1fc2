-- ===== src/Listen/Fields.antt =====
-- src/listen/protocol.rs: the fields of a sequence of the Kitty keyboard protocol.
use whykey.Prelude.{
  ℕ, ◌-◌, Bool, false, not, ◌&&◌, Text, text, text_eq, is_empty, List, [], ◌∷◌, Option, none, some,
  drop, split, from_utf8, parse_u32, is_scalar, is_control, bit_and, bit_or, ◌==◌, if◌then◌else◌,
}
use whykey.Listen.Names.{kitty_key_name}

pub data KeyEventType : Type 0 where
  press repeat release : KeyEventType

-- `last()`, and the slice without it.
unfoldable pub last : List ℕ → Option ℕ
last [] = none
last (b ∷ []) = some b
last (b ∷ c ∷ bytes) = last (c ∷ bytes)

unfoldable pub without_last : List ℕ → List ℕ
without_last [] = []
without_last (b ∷ []) = []
without_last (b ∷ c ∷ bytes) = b ∷ without_last (c ∷ bytes)

abbrev pub first_field : List Text → Text
first_field [] = []
first_field (field ∷ fields) = field

-- `nth(1)`
abbrev pub second_field : List Text → Option Text
second_field (a ∷ b ∷ fields) = some b
second_field _ = none

abbrev pub third_field : List Text → Option Text
third_field (a ∷ b ∷ c ∷ fields) = some c
third_field _ = none

abbrev pub and_then {ℓ κ} : {A : Type ℓ} {B : Type κ} → Option A → (A → Option B) → Option B
and_then none next = none
and_then (some a) next = next a

unfoldable pub event_name : Text → Option KeyEventType
unfolding text_eq text
event_name value =
    if text_eq value (text "1")
    then some KeyEventType.press
    else if text_eq value (text "2")
    then some KeyEventType.repeat
    else if text_eq value (text "3")
    then some KeyEventType.release
    else none

abbrev pub ends_in_u : Option ℕ → Bool
ends_in_u none = false
ends_in_u (some b) = b == b'u'

abbrev pub starts_csi : List ℕ → Bool
starts_csi (a ∷ b ∷ bytes) = a == 0x1b && b == b'['
starts_csi _ = false

-- The body of a sequence that starts with CSI and ends in `u`.
unfoldable pub csi_u_body : List ℕ → Option Text
unfolding last without_last from_utf8
csi_u_body bytes =
    if ends_in_u (last bytes) && starts_csi bytes
    then from_utf8 (without_last (drop 2 bytes))
    else none

abbrev pub event_of_parts : List Text → Option KeyEventType
event_of_parts parts = and_then (second_field parts) event_name

abbrev pub event_of_body : Text → Option KeyEventType
event_of_body body =
    and_then (second_field (split b';' body)) (λ field. event_of_parts (split b':' field))

unfoldable pub kitty_event_type : List ℕ → Option KeyEventType
unfolding csi_u_body split event_name
kitty_event_type bytes = and_then (csi_u_body bytes) event_of_body

-- `xterm_modifiers`
abbrev moved : (value bit to : ℕ) → ℕ
moved value bit to = if bit_and value bit == 0 then 0 else to

unfoldable pub xterm_modifiers : ℕ → ℕ
xterm_modifiers value =
    let held = value - 1 in
    bit_or
      (bit_or (bit_or (moved held 1 1) (moved held 2 8))
        (bit_or (moved held 4 4) (moved held 8 64)))
      (bit_or (bit_or (moved held 16 32) (moved held 32 128))
        (bit_or (moved held 64 2) (moved held 128 16)))

-- One code point of the associated text.
unfoldable pub text_character : ℕ → Option ℕ
unfolding is_scalar is_control
text_character codepoint =
    if is_scalar codepoint && not (is_control codepoint) then some codepoint else none

unfoldable pub characters : List Text → Option Text
unfolding parse_u32 text_character
characters [] = some []
characters (value ∷ values) =
    let rest = characters values in
    and_then (and_then (parse_u32 value) text_character) (λ c. and_then rest (λ s. some (c ∷ s)))

abbrev text_of_field : Text → Option Text
text_of_field field = if is_empty field then none else characters (split b':' field)

unfoldable pub associated_text_from_bytes : List ℕ → Option Text
unfolding csi_u_body split is_empty characters
associated_text_from_bytes bytes =
    and_then (csi_u_body bytes) (λ body. and_then (third_field (split b';' body)) text_of_field)

module _ (upper : ℕ → Text) where
  abbrev without_first : List Text → List Text
  without_first [] = []
  without_first (field ∷ fields) = fields

  unfoldable pub names_of : List Text → Option (List Text)
  unfolding is_empty parse_u32 kitty_key_name
  names_of [] = some []
  names_of (value ∷ values) =
      let rest = names_of values in
      if is_empty value
      then rest
      else and_then (and_then (parse_u32 value) (kitty_key_name upper))
          (λ name. and_then rest (λ names. some (name ∷ names)))

  unfoldable pub kitty_alternate_names : Text → Option (List Text)
  unfolding names_of split
  kitty_alternate_names field = names_of (without_first (split b':' field))

  unfoldable pub alternate_keys : List ℕ → Option (List Text)
  unfolding csi_u_body split kitty_alternate_names
  alternate_keys bytes =
      and_then (csi_u_body bytes) (λ body. kitty_alternate_names (first_field (split b';' body)))
