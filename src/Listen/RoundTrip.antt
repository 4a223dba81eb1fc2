-- ===== src/Listen/RoundTrip.antt =====
-- src/listen/protocol.rs: the decoder on sequences of the Kitty keyboard protocol.
use whykey.Prelude.{
  ℕ, ◌+◌, Bool, false, Text, text, List, [], ◌∷◌, ◌++◌, some, split, contains_char, push_first,
  text_eq, ◌≡◌, refl, ap, arith, ◌==◌,
}
use whykey.Key.Combo.{from_parts}
use whykey.Listen.Fields.{KeyEventType, last, without_last, event_name, xterm_modifiers}
use whykey.Listen.Protocol.{Decoded}
use whykey.Listen.Sequence.{protocol_mask, event_digit}

-- The field holds one more than the bits, and is read to the mask.
abbrev kept : ℕ → Bool
kept bits = xterm_modifiers (bits + 1) == protocol_mask bits

pub split-field :
    (c : ℕ) (field rest : Text)
    → contains_char c field ≡ false
    → split c (field ++ c ∷ rest) ≡ field ∷ split c rest
unfolding split contains_char
split-field c [] rest h = ground arith
split-field c (d ∷ field) rest h = ground (arith, split-field c field rest, push_first)

pub split-alone :
    (c : ℕ) (field : Text) → contains_char c field ≡ false → split c field ≡ field ∷ []
unfolding split contains_char
split-alone c [] h = refl
split-alone c (d ∷ field) h = ground (arith, split-alone c field, push_first)

pub last-append : (bytes : List ℕ) (b : ℕ) → last (bytes ++ b ∷ []) ≡ some b
unfolding last
last-append [] b = refl
last-append (c ∷ []) b = refl
last-append (c ∷ d ∷ bytes) b = last-append (d ∷ bytes) b

pub without_last-append : (bytes : List ℕ) (b : ℕ) → without_last (bytes ++ b ∷ []) ≡ bytes
unfolding without_last
without_last-append [] b = refl
without_last-append (c ∷ []) b = refl
without_last-append (c ∷ d ∷ bytes) b =
    ap (λ (s : List ℕ). c ∷ s) (without_last-append (d ∷ bytes) b)

pub contains_char-append :
    (c : ℕ) (s t : Text)
    → contains_char c s ≡ false
    → contains_char c t ≡ false
    → contains_char c (s ++ t) ≡ false
unfolding contains_char
contains_char-append c [] t hs ht = ht
contains_char-append c (d ∷ s) t hs ht = ground (arith, contains_char-append c s t)

pub event_name-event_digit :
    (event : KeyEventType) → event_name (event_digit event ∷ []) ≡ some event
unfolding event_name text_eq text
event_name-event_digit KeyEventType.press = refl
event_name-event_digit KeyEventType.repeat = refl
event_name-event_digit KeyEventType.release = refl

pub no_semicolon :
    (event : KeyEventType) → contains_char b';' (b':' ∷ event_digit event ∷ []) ≡ false
unfolding contains_char
no_semicolon event = grind arith

-- The event of a key that the protocol reports.
abbrev pub kitty_key : ℕ → Text → KeyEventType → Decoded
kitty_key mask name event = record {
  combo = from_parts mask name;
  encoding = text "Kitty keyboard protocol";
  event_type = event;
}

-- The fields, for any digits that parse.
pub one_digit_alone : (event : KeyEventType) → contains_char b':' (event_digit event ∷ []) ≡ false
unfolding contains_char
one_digit_alone event = grind arith
