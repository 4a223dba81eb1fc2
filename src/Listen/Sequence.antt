-- ===== src/Listen/Sequence.antt =====
-- The Kitty keyboard protocol as its specification says: the sequence of a key event.
use whykey.Prelude.{ℕ, ◌+◌, Text, List, [], ◌∷◌, ◌++◌, bit_and, to_decimal, ◌==◌, if◌then◌else◌}
use whykey.Listen.Fields.{KeyEventType}

-- The protocol's bits: shift 1, alt 2, ctrl 4, super 8, hyper 16, meta 32, caps lock 64, num lock 128.
-- The masks of X11: shift 1, lock 2, control 4, mod1 8, mod2 16, mod3 32, mod4 64, mod5 128.
abbrev weighed : (bits bit weight : ℕ) → ℕ
weighed bits bit weight = if bit_and bits bit == 0 then 0 else weight

-- The mask that stands for the bits in a key combination: alt is mod1, super mod4 and num lock mod2.
-- For hyper and meta, which X11 binds to no modifier of its own, it has mod3 and mod5. The mask has
-- no other place for meta, though mod5 in a query is AltGr, which is no modifier of the protocol.
unfoldable pub protocol_mask : ℕ → ℕ
protocol_mask bits =
    weighed bits 1 1
    + weighed bits 2 8
    + weighed bits 4 4
    + weighed bits 8 64
    + weighed bits 16 32
    + weighed bits 32 128
    + weighed bits 64 2
    + weighed bits 128 16

abbrev pub event_digit : KeyEventType → ℕ
event_digit KeyEventType.press = b'1'
event_digit KeyEventType.repeat = b'2'
event_digit KeyEventType.release = b'3'

abbrev pub modifier_field : (bits : ℕ) → KeyEventType → Text
modifier_field bits event = to_decimal 3 (bits + 1) ++ b':' ∷ event_digit event ∷ []

abbrev pub sequence_body : (codepoint bits : ℕ) → KeyEventType → Text
sequence_body codepoint bits event = to_decimal 10 codepoint ++ b';' ∷ modifier_field bits event

-- `CSI codepoint ; modifiers : event u`, no field left out.
unfoldable pub kitty_sequence : (codepoint bits : ℕ) → KeyEventType → List ℕ
unfolding to_decimal
kitty_sequence codepoint bits event =
    0x1b ∷ b'[' ∷ (sequence_body codepoint bits event ++ b'u' ∷ [])
