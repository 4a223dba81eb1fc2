-- ===== src/Remapper/Keys.antt =====
-- src/remapper/keys.rs: key names, key codes and modifier bits.
use whykey.Prelude.{
  ℕ, bit_and, String, not, ◌&&◌, Text, List, [], ◌∷◌, ◌++◌, Option, none, some, text, text_eq,
  to_upper, strip_prefix, to_decimal, find, is_ascii_alphabetic, ◌==◌, if◌then◌else◌,
}
use whykey.Remapper.Evdev.{evdev}
use whykey.Remapper.Keysyms.{layout_invariant}
use whykey.Remapper.Printable.{Printable, us_printable}

abbrev pub shift : ℕ
shift = 1

abbrev pub ctrl : ℕ
ctrl = 4

abbrev pub alt : ℕ
alt = 8

abbrev pub super : ℕ
super = 64

abbrev pub altgr : ℕ
altgr = 128

-- `SHIFT | CTRL | ALT | SUPER | ALTGR`
abbrev pub all_modifiers : ℕ
all_modifiers = 205

-- A press as a remapper sees it: the modifiers held (u32), and the code (u16).
pub record Press : Type 0 where
  pub mods : ℕ
  pub code : ℕ

-- `us_shifted_symbol`
unfoldable pub us_shifted_symbol : ℕ → Option ℕ
unfolding find is_ascii_alphabetic
us_shifted_symbol plain =
    elim (find (λ (r : Printable). r.plain == plain && not (is_ascii_alphabetic r.shifted))
      us_printable) [ none ↦ none | some r ↦ some r.shifted ]

-- The name in upper case, without `KEY_`.
unfoldable pub bare_name : Text → Text
unfolding to_upper strip_prefix text
bare_name name = elim (strip_prefix (text "KEY_") (to_upper name)) [
  | none ↦ to_upper name
  | some bare ↦ bare
]

unfoldable pub find_evdev_name : Text → Option (ℕ × String)
find_evdev_name bare = find (λ (e : ℕ × String). text_eq (text e.1) bare) evdev

unfoldable pub evdev_code : Text → Option ℕ
unfolding bare_name find_evdev_name
evdev_code name = elim (find_evdev_name (bare_name name)) [ none ↦ none | some e ↦ some e.0 ]

unfoldable pub find_evdev_code : ℕ → Option (ℕ × String)
find_evdev_code code = find (λ (e : ℕ × String). e.0 == code) evdev

-- A u16 has at most five digits. `KEY_<NAME>` for a row of the table, `code N` without one.
abbrev pub printed_name : ℕ → Option (ℕ × String) → Text
printed_name code none = text "code " ++ to_decimal 5 code
printed_name code (some e) = text "KEY_" ++ text e.1

unfoldable pub evdev_name : ℕ → Text
evdev_name code = printed_name code (find_evdev_code code)

-- The keysyms that have another name.
unfoldable pub keysym_alias : Text → Text
unfolding text text_eq
keysym_alias upper =
    if text_eq upper (text "PRIOR")
    then text "PAGE_UP"
    else if text_eq upper (text "NEXT")
    then text "PAGE_DOWN"
    else upper

unfoldable pub find_keysym : Text → List (String × ℕ) → Option (String × ℕ)
unfolding find text text_eq
find_keysym name table = find (λ (e : String × ℕ). text_eq (text e.0) name) table

unfoldable pub keysym_code : Text → Option ℕ
unfolding keysym_alias find_keysym to_upper
keysym_code name = elim (find_keysym (keysym_alias (to_upper name)) layout_invariant) [
  | none ↦ none
  | some e ↦ some e.1
]

unfoldable pub modifier_bit : ℕ → Option ℕ
modifier_bit code =
    if code == 29
    then some ctrl
    else if code == 97
    then some ctrl
    else if code == 42
    then some shift
    else if code == 54
    then some shift
    else if code == 56
    then some alt
    else if code == 100
    then some altgr
    else if code == 125
    then some super
    else if code == 126
    then some super
    else none

unfoldable pub modifier_codes : ℕ → List ℕ
modifier_codes bit =
    if bit == ctrl
    then 29 ∷ 97 ∷ []
    else if bit == shift
    then 42 ∷ 54 ∷ []
    else if bit == alt
    then 56 ∷ []
    else if bit == altgr
    then 100 ∷ []
    else if bit == super
    then 125 ∷ 126 ∷ []
    else []

-- The bits of the list that the mask holds.
unfoldable pub held_bits : ℕ → List ℕ → List ℕ
held_bits mask [] = []
held_bits mask (bit ∷ bits) =
    let rest = held_bits mask bits in if bit_and mask bit == 0 then rest else bit ∷ rest

unfoldable pub modifier_bits : ℕ → List ℕ
unfolding held_bits
modifier_bits mask = held_bits mask (shift ∷ ctrl ∷ alt ∷ super ∷ altgr ∷ [])

-- The order of `describe`.
abbrev described_modifiers : List (ℕ × String)
described_modifiers =
    (ctrl, "Ctrl") ∷ (alt, "Alt") ∷ (shift, "Shift") ∷ (super, "Super") ∷ (altgr, "AltGr") ∷ []

unfoldable pub describe_modifiers : ℕ → List (ℕ × String) → Text → Text
unfolding text
describe_modifiers mods [] rest = rest
describe_modifiers mods ((bit, name) ∷ names) rest =
    let behind = describe_modifiers mods names rest in
    if bit_and mods bit == 0 then behind else text name ++ (b'+' ∷ behind)

unfoldable pub describe : Press → Text
unfolding describe_modifiers evdev_name
describe press = describe_modifiers press.mods described_modifiers (evdev_name press.code)
