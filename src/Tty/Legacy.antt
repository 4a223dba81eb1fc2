-- ===== src/Tty/Legacy.antt =====
-- src/layers/terminal.rs: the control bytes that terminals send for Ctrl and a key, and the
-- listener's decoder of src/listen/protocol.rs on them.
use mathlib.Core.Path.{ap₂}
use whykey.Prelude.{
  ℕ, ◌<◌, Bool, true, false, not, ◌&&◌, ◌||◌, Text, text, text_eq, [], ◌∷◌, Option, none, some,
  bit_and, is_ascii_alphabetic, char_to_upper, all_below, all_below_sound, ◌==◌, ◌≡◌, ◌≢◌, refl,
  sym, text_eq_sound, &&-true, ==_iff, ◌∙◌, ap, arith, if◌then◌else◌,
}
use whykey.Key.Combo.{from_parts}
use whykey.Listen.Fields.{and_then}
use whykey.Listen.Protocol.{Decoded, byte_key, decode_key}

abbrev is_control_mark : ℕ → Bool
is_control_mark c = c == b'@' || c == b'[' || c == b'\\' || c == b']' || c == b'^' || c == b'_'

unfoldable pub legacy_control_byte : Text → Option ℕ
unfolding text text_eq is_ascii_alphabetic char_to_upper
legacy_control_byte [] = none
legacy_control_byte (c ∷ []) =
    if is_ascii_alphabetic c
    then some (bit_and (char_to_upper c) 0x1f)
    else if is_control_mark c
    then some (bit_and c 0x1f)
    else none
legacy_control_byte (c ∷ d ∷ key) = if text_eq (c ∷ d ∷ key) (text "SPACE") then some 0 else none

abbrev letter_byte : ℕ → ℕ
letter_byte c = bit_and (char_to_upper c) 0x1f

abbrev key_is : ℕ → Option (ℕ × Text) → Bool
key_is letter none = false
key_is letter (some (modifiers, key)) = modifiers == 4 && text_eq key (letter ∷ [])

-- By evaluation: every letter's byte is that of Ctrl and the letter, but for tab and return.
abbrev reads_as_letter : ℕ → Bool
reads_as_letter c =
    not (is_ascii_alphabetic c)
    || letter_byte c == 9
    || letter_byte c == 13
    || (key_is (char_to_upper c) (byte_key (letter_byte c)) && not (letter_byte c == 0x1b))

all_letters : all_below 128 reads_as_letter ≡ true
unfolding all_below is_ascii_alphabetic char_to_upper byte_key text text_eq
all_letters = refl

key_is_sound :
    (letter : ℕ) (o : Option (ℕ × Text)) → key_is letter o ≡ true → o ≡ some (4, letter ∷ [])
key_is_sound letter none h = ground arith
key_is_sound letter (some (modifiers, key)) h =
    let (four, same) = &&-true (modifiers == 4) _ h in
    ap some (
      ap₂ (λ (m : ℕ) (k : Text). (m, k)) ((==_iff modifiers 4).0 four)
        (text_eq_sound key (letter ∷ []) same))

letter_small : (c : ℕ) → is_ascii_alphabetic c ≡ true → c < 128
unfolding is_ascii_alphabetic
letter_small c h = ground arith

letter_byte-byte_key :
    (c : ℕ)
    → is_ascii_alphabetic c ≡ true
    → letter_byte c ≢ 9
    → letter_byte c ≢ 13
    → (byte_key (letter_byte c) ≡ some (4, char_to_upper c ∷ []))
      × ((letter_byte c == 0x1b) ≡ false)
letter_byte-byte_key c alphabetic tab enter =
    let reads : reads_as_letter c ≡ true =
      all_below_sound 128 reads_as_letter c all_letters (letter_small c alphabetic) in
    let last : (key_is (char_to_upper c) (byte_key (letter_byte c)) && not (letter_byte c == 0x1b))
        ≡ true =
      ground arith in
    let (key, plain) = &&-true (key_is (char_to_upper c) (byte_key (letter_byte c))) _ last in
    (key_is_sound (char_to_upper c) _ key, ground arith)

decode_key-byte_key :
    (upper : ℕ → Text) (byte : ℕ) (key : ℕ × Text)
    → (byte == 0x1b) ≡ false
    → byte_key byte ≡ some key
    → and_then (decode_key upper (byte ∷ [])) (λ (d : Decoded). some d.combo)
      ≡ some (from_parts key.0 key.1)
unfolding decode_key
decode_key-byte_key upper byte key plain h = rw (plain, h) refl

sent_byte :
    (letter byte : ℕ)
    → is_ascii_alphabetic letter ≡ true
    → legacy_control_byte (letter ∷ []) ≡ some byte
    → letter_byte letter ≡ byte
unfolding legacy_control_byte
sent_byte letter byte alphabetic sent = ground arith

-- The byte that a terminal sends for Ctrl and a letter is decoded to Ctrl and that letter, in upper
-- case, unless it is the byte of the tab or of the return key.
pub decode_key-legacy_control_byte :
    (upper : ℕ → Text) (letter byte : ℕ)
    → is_ascii_alphabetic letter ≡ true
    → legacy_control_byte (letter ∷ []) ≡ some byte
    → byte ≢ 9
    → byte ≢ 13
    → and_then (decode_key upper (byte ∷ [])) (λ (d : Decoded). some d.combo)
      ≡ some (from_parts 4 (char_to_upper letter ∷ []))
decode_key-legacy_control_byte upper letter byte alphabetic sent tab enter =
    let same = sent_byte letter byte alphabetic sent in
    let (key, plain) =
      letter_byte-byte_key letter alphabetic (λ e. tab (sym same ∙ e))
        (λ e. enter (sym same ∙ e)) in
    rw (← same) (decode_key-byte_key upper (letter_byte letter) _ plain key)
