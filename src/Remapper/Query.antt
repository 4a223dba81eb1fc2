-- ===== src/Remapper/Query.antt =====
-- src/remapper/keys.rs: the presses that produce a queried key, and the key that a press produces.
use whykey.Prelude.{
  ℕ, bit_and, bit_or, String, Bool, true, false, not, ◌&&◌, Text, List, [], ◌∷◌, ◌++◌, map, Option,
  none, some, Result, ok, err, text, find, char_to_lower, is_ascii_alphabetic, ◌==◌, if◌then◌else◌,
}
use whykey.Key.Combo.{KeyCombo, from_parts, alone_mask}
use whykey.Remapper.Keysyms.{layout_invariant, keypad}
use whykey.Remapper.Printable.{Printable, us_printable}
use whykey.Remapper.Keys.{Press, shift, alt, altgr, all_modifiers, find_keysym, modifier_codes}

pub record QueryPresses : Type 0 where
  pub presses : List Press
  pub layout_assumed : Bool

-- The codes of a modifier's own keys. Alt answers for both Alt keys.
unfoldable pub alone_codes : ℕ → Option ℕ → List ℕ
unfolding modifier_codes
alone_codes bit (some code) = code ∷ []
alone_codes bit none =
    if bit == alt then modifier_codes bit ++ modifier_codes altgr else modifier_codes bit

abbrev bare_press : ℕ → Press
bare_press code = record { mods = 0; code = code }

abbrev presses_of_codes : List ℕ → Option QueryPresses
presses_of_codes [] = none
presses_of_codes (code ∷ codes) =
    some (record { presses = map bare_press (code ∷ codes); layout_assumed = false })

abbrev pub one_press : ℕ → ℕ → Bool → Option QueryPresses
one_press mods code assumed =
    some (record { presses = record { mods = mods; code = code } ∷ []; layout_assumed = assumed })

-- The code of the US key that types the character, and whether it takes Shift.
unfoldable pub printable_code : ℕ → List Printable → Option (ℕ × Bool)
unfolding char_to_lower is_ascii_alphabetic
printable_code character [] = none
printable_code character (r ∷ rs) =
    let rest = printable_code character rs in
    if r.plain == char_to_lower character
    then some (r.code, false)
    else if r.shifted == character && not (is_ascii_alphabetic r.shifted)
    then some (r.code, true)
    else rest

unfoldable pub printable_presses : Text → ℕ → Bool → Option QueryPresses
unfolding printable_code
printable_presses [] mods layout_us = none
printable_presses (character ∷ next ∷ name) mods layout_us = none
printable_presses (character ∷ []) mods layout_us = elim (printable_code character us_printable) [
  | none ↦ none
  | some (code, shifted) ↦
      one_press (if shifted then bit_or mods shift else mods) code (not layout_us)
]

abbrev pub row_presses : Option (String × ℕ) → Text → ℕ → Bool → Option QueryPresses
row_presses (some e) name mods layout_us = one_press mods e.1 false
row_presses none name mods layout_us = printable_presses name mods layout_us

unfoldable pub named_presses : Text → ℕ → Bool → Option QueryPresses
named_presses name mods layout_us =
    row_presses (find_keysym name (layout_invariant ++ keypad)) name mods layout_us

-- `query_presses`
unfoldable pub query_presses : KeyCombo → Option ℕ → Bool → Option QueryPresses
unfolding alone_mask alone_codes
query_presses key keycode layout_us =
    if key.alone then presses_of_codes (alone_codes (alone_mask key) keycode) else elim keycode [
      | some code ↦ one_press (bit_and key.modifiers all_modifiers) code false
      | none ↦ named_presses key.key (bit_and key.modifiers all_modifiers) layout_us
    ]

-- Why the keysym of a press is not known.
pub data UnknownKeysym : Type 0 where
  depends_on_num_lock : Text → Text → UnknownKeysym
  depends_on_layout : UnknownKeysym

-- The rows of the table with the code.
unfoldable pub keysyms_of : ℕ → List (String × ℕ) → List String
keysyms_of code [] = []
keysyms_of code ((name, candidate) ∷ rest) =
    let others = keysyms_of code rest in if candidate == code then name ∷ others else others

abbrev keypad_combo : ℕ → List String → Option (Result UnknownKeysym KeyCombo)
keypad_combo mods [] = none
keypad_combo mods (digit ∷ []) = some (ok (from_parts mods (text digit)))
keypad_combo mods (digit ∷ navigation ∷ _) =
    some (err (depends_on_num_lock (text digit) (text navigation)))

unfoldable pub layout_combo : Press → Bool → Result UnknownKeysym KeyCombo
unfolding find from_parts text
layout_combo press layout_us =
    if not layout_us
    then err depends_on_layout
    else if press.code == 100
    then ok (from_parts press.mods (text "ALT_R"))
    else elim (find (λ (r : Printable). r.code == press.code) us_printable) [
      | none ↦ err depends_on_layout
      | some r ↦ ok (from_parts press.mods (r.plain ∷ []))
    ]

-- The first row of the keysyms that every layout has, with the code.
unfoldable pub find_invariant : ℕ → Option (String × ℕ)
find_invariant code = find (λ (e : String × ℕ). e.1 == code) layout_invariant

unfoldable pub level_combo : Press → Bool → Result UnknownKeysym KeyCombo
unfolding keysyms_of from_parts layout_combo text
level_combo press layout_us = elim (keypad_combo press.mods (keysyms_of press.code keypad)) [
  | some result ↦ result
  | none ↦ layout_combo press layout_us
]

abbrev pub row_combo : Option (String × ℕ) → Press → Bool → Result UnknownKeysym KeyCombo
row_combo (some e) press layout_us = ok (from_parts press.mods (text e.0))
row_combo none press layout_us = level_combo press layout_us

unfoldable pub downstream_combo : Press → Bool → Result UnknownKeysym KeyCombo
downstream_combo press layout_us = row_combo (find_invariant press.code) press layout_us
