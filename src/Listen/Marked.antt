-- ===== src/Listen/Marked.antt =====
-- src/listen/protocol.rs: sequences that carry a lifecycle marker and end in `u`, whatever else they say.
use whykey.Prelude.{
  ℕ, false, Text, List, [], ◌∷◌, ◌++◌, Option, none, some, split, contains_char, from_utf8-IsAscii,
  IsAscii, ◌≡◌, refl, ◌∙◌,
}
use mathlib.Core.List.{append-nil}
use whykey.Listen.Fields.{KeyEventType, csi_u_body, kitty_event_type, event_of_body, event_of_parts}
use whykey.Listen.Observed.{decode_bytes}
use whykey.Listen.Sequence.{event_digit}
use whykey.Listen.Events.{decode_bytes-kitty_event_type}
use whykey.Listen.RoundTrip.{
  split-field, split-alone, last-append, without_last-append, contains_char-append, no_semicolon,
  one_digit_alone, event_name-event_digit,
}

-- The fields behind the modifiers and the event: none, or any.
abbrev pub more_fields : Option Text → Text
more_fields none = []
more_fields (some fields) = b';' ∷ fields

abbrev pub marker : Text → KeyEventType → Text
marker modifiers event = modifiers ++ b':' ∷ event_digit event ∷ []

abbrev pub marked_body : Text → Text → KeyEventType → Option Text → Text
marked_body key modifiers event more = key ++ b';' ∷ (marker modifiers event ++ more_fields more)

-- `CSI key ; modifiers : event u`, or with more fields before the `u`.
abbrev pub marked_sequence : Text → Text → KeyEventType → Option Text → List ℕ
marked_sequence key modifiers event more =
    0x1b ∷ b'[' ∷ (marked_body key modifiers event more ++ b'u' ∷ [])

csi_u_body-ascii :
    (body : Text) → IsAscii body → csi_u_body (0x1b ∷ b'[' ∷ (body ++ b'u' ∷ [])) ≡ some body
unfolding csi_u_body
csi_u_body-ascii body h =
    rw (csi_u_body, last-append (0x1b ∷ b'[' ∷ body) b'u', without_last-append body b'u')
      (from_utf8-IsAscii body h)

event_of_parts-marker :
    (modifiers : Text) (event : KeyEventType)
    → contains_char b':' modifiers ≡ false
    → event_of_parts (split b':' (marker modifiers event)) ≡ some event
event_of_parts-marker modifiers event h =
    rw
      (
        split-field b':' modifiers (event_digit event ∷ []) h,
        split-alone b':' (event_digit event ∷ []) (one_digit_alone event),
        event_name-event_digit event,
      )
      refl

event_of_body-marked :
    (key modifiers : Text) (event : KeyEventType) (more : Option Text)
    → contains_char b';' key ≡ false
    → contains_char b';' (marker modifiers event) ≡ false
    → event_of_body (marked_body key modifiers event more)
      ≡ event_of_parts (split b':' (marker modifiers event))
event_of_body-marked key modifiers event none k m =
    rw
      (
        append-nil (marker modifiers event),
        split-field b';' key (marker modifiers event) k,
        split-alone b';' (marker modifiers event) m,
      )
      refl
event_of_body-marked key modifiers event (some fields) k m =
    rw
      (
        split-field b';' key (marker modifiers event ++ b';' ∷ fields) k,
        split-field b';' (marker modifiers event) fields m,
      )
      refl

kitty_event_type-body :
    (bytes : List ℕ) (body : Text)
    → csi_u_body bytes ≡ some body
    → kitty_event_type bytes ≡ event_of_body body
unfolding kitty_event_type
kitty_event_type-body bytes body h = rw h refl

module _ (upper : ℕ → Text) where
  -- A sequence `CSI key ; modifiers : event u` of ASCII, with more fields before the `u` or not, whose
  -- event is the digit of a press, a repeat or a release, is reported as that event, whether or not its
  -- key and its modifiers can be read. (Sequences with another last byte are not meant: those of
  -- cursor and function keys.)
  pub decode_bytes-marked_sequence :
      (key modifiers : Text) (event : KeyEventType) (more : Option Text)
      → IsAscii (marked_body key modifiers event more)
      → contains_char b';' key ≡ false
      → contains_char b';' modifiers ≡ false
      → contains_char b':' modifiers ≡ false
      → (decode_bytes upper (marked_sequence key modifiers event more)).event_type ≡ event
  decode_bytes-marked_sequence key modifiers event more a k m c =
      let body = marked_body key modifiers event more in
      decode_bytes-kitty_event_type upper (marked_sequence key modifiers event more) event (
        kitty_event_type-body (marked_sequence key modifiers event more) body
          (csi_u_body-ascii body a)
        ∙ event_of_body-marked key modifiers event more k
            (contains_char-append b';' modifiers _ m (no_semicolon event))
        ∙ event_of_parts-marker modifiers event c)
