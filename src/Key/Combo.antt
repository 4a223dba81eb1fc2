-- ===== src/Key/Combo.antt =====
-- src/key.rs: `KeyCombo`, its parsers and its two displays.
use whykey.Prelude.{
  ℕ, zero, suc, String, Bool, true, false, not, ◌&&◌, ◌||◌, Text, List, [], ◌∷◌, ◌++◌, map, none,
  some, Result, ok, err, text, text_eq, to_lower, trim, is_empty, contains_char, split, split_once,
  length, take, drop, is_some_and, leb, ◌==◌, if◌then◌else◌, ◌>>=◌, bit_and, bit_or,
}
use whykey.Key.Modifiers.{
  modifier_mask, display_order, ctrl_mask, alt_mask, shift_mask, super_mask, mod3_mask, mod5_mask,
}
use whykey.Key.Names.{
  ParseKeyComboError, empty_combination, repeated_modifier, no_main_key, several_keys, unknown_key,
  not_one_modifier, abbreviate, normalize_key, normalize_key_str, is_known_key,
}

pub record KeyCombo : Type 0 where
  pub modifiers : ℕ  -- u32
  pub key : Text
  pub alone : Bool

unfoldable pub from_parts : ℕ → Text → KeyCombo
unfolding normalize_key_str
from_parts modifiers key = record {
  modifiers = modifiers;
  key = normalize_key_str key;
  alone = false;
}

-- `ALONE_MASKS.contains(mask)`
unfoldable pub is_alone_mask : ℕ → Bool
is_alone_mask mask =
    mask == ctrl_mask
    || mask == alt_mask
    || mask == shift_mask
    || mask == super_mask
    || mask == mod3_mask
    || mask == mod5_mask

abbrev pub alone_name : ℕ → String
alone_name mask =
    if mask == ctrl_mask
    then "CTRL"
    else if mask == alt_mask
    then "ALT"
    else if mask == shift_mask
    then "SHIFT"
    else if mask == super_mask
    then "SUPER"
    else if mask == mod3_mask
    then "HYPER"
    else "ALTGR"

unfoldable pub parse_alone : Text → Result ParseKeyComboError KeyCombo
parse_alone input = elim (modifier_mask (trim input)) [
  | none ↦ err (not_one_modifier (abbreviate (trim input)))
  | some mask ↦
      if is_alone_mask mask
      then ok (record { modifiers = 0; key = text (alone_name mask); alone = true })
      else err (not_one_modifier (abbreviate (trim input)))
]

unfoldable pub alone_mask : KeyCombo → ℕ
unfolding modifier_mask
alone_mask combo =
    if combo.alone then elim (modifier_mask combo.key) [ none ↦ 0 | some mask ↦ mask ] else 0

abbrev keysyms_of_mask : ℕ → List String
keysyms_of_mask mask =
    if mask == ctrl_mask
    then "CONTROL_L" ∷ "CONTROL_R" ∷ []
    else if mask == alt_mask
    then "ALT_L" ∷ "ALT_R" ∷ "META_L" ∷ "META_R" ∷ []
    else if mask == shift_mask
    then "SHIFT_L" ∷ "SHIFT_R" ∷ []
    else if mask == super_mask
    then "SUPER_L" ∷ "SUPER_R" ∷ []
    else if mask == mod5_mask
    then "ISO_LEVEL3_SHIFT" ∷ "ALT_R" ∷ []
    else if mask == mod3_mask
    then "HYPER_L" ∷ "HYPER_R" ∷ []
    else []

unfoldable pub alone_keysyms : KeyCombo → List String
unfolding alone_mask
alone_keysyms combo = keysyms_of_mask (alone_mask combo)

-- The modifiers of a mask, each name followed by the separator.
unfoldable pub modifiers_text : ℕ → List (ℕ × String) → Text
unfolding text
modifiers_text modifiers [] = []
modifiers_text modifiers ((mask, name) ∷ rest) =
    if bit_and modifiers mask == 0
    then modifiers_text modifiers rest
    else text name ++ (text "+" ++ modifiers_text modifiers rest)

unfoldable pub compact_display : KeyCombo → Text
unfolding modifiers_text text
compact_display combo =
    modifiers_text combo.modifiers display_order
    ++ (combo.key ++ (if combo.alone then text "(alone)" else []))

-- The loop of `Display`: what it has written, and whether that holds a modifier.
unfoldable pub write_modifiers : ℕ → List (ℕ × String) → Text → Bool → Text × Bool
unfolding text
write_modifiers modifiers [] out wrote = (out, wrote)
write_modifiers modifiers ((mask, name) ∷ rest) out wrote =
    if bit_and modifiers mask == 0
    then write_modifiers modifiers rest out wrote
    else write_modifiers modifiers rest ((if wrote then out ++ text " + " else out) ++ text name)
        true

-- The separator before the key.
unfoldable pub close_modifiers : Text × Bool → Text
unfolding text
close_modifiers (out, wrote) = if wrote then out ++ text " + " else out

unfoldable pub display : KeyCombo → Text
unfolding write_modifiers close_modifiers text
display combo =
    close_modifiers (write_modifiers combo.modifiers display_order [] false)
    ++ (combo.key ++ (if combo.alone then text " (alone)" else []))

-- How a round of the loop ends: the loop is over (at the end of the text, at a `break` or with an
-- error), or goes on with the modifiers and the remainder.
pub data Round : Type 0 where
  over : Result ParseKeyComboError (ℕ × Text) → Round
  onward : ℕ → Text → Round

-- A round of the `while let` of `parse_combo`.
unfoldable pub modifier_round : ℕ → Text → Round
modifier_round modifiers remainder = elim (split_once b'+' remainder) [
  | none ↦ over (ok (modifiers, remainder))
  | some (raw, rest) ↦ elim (is_empty (trim raw)) [
    | true ↦ over (ok (modifiers, remainder))
    | false ↦ elim (modifier_mask (trim raw)) [
      | none ↦ over (ok (modifiers, remainder))
      | some mask ↦ elim (bit_and modifiers mask == 0) [
        | true ↦ onward (bit_or modifiers mask) rest
        | false ↦ over (err (repeated_modifier (abbreviate (trim raw))))
      ]
    ]
  ]
]

-- The loop. The fuel is the length of the remainder, which falls with each round that goes on;
-- without fuel the remainder is empty, and an empty text has no `+`.
unfoldable pub strip_modifiers : ℕ → ℕ → Text → Result ParseKeyComboError (ℕ × Text)
unfolding modifier_round
strip_modifiers zero modifiers remainder = ok (modifiers, remainder)
strip_modifiers (suc fuel) modifiers remainder = elim (modifier_round modifiers remainder) [
  | over result ↦ result
  | onward taken rest ↦ strip_modifiers fuel taken rest
]

-- `modifier_only_error`: the abbreviated input, before its parts get capital letters, and the
-- modifier that `--alone` could ask about.
unfoldable pub modifier_only_error : Text → ℕ → Text → ParseKeyComboError
modifier_only_error input modifiers remainder =
    let bare = is_some_and is_alone_mask (modifier_mask remainder) in
    no_main_key (abbreviate input) (
      if modifiers == 0 && not (is_empty remainder) && bare
      then some (to_lower (abbreviate remainder))
      else none)

abbrev pub max_described_segments : ℕ
max_described_segments = 4

unfoldable pub count_empty : List Text → ℕ
unfolding is_empty
count_empty [] = 0
count_empty (w ∷ ws) = if is_empty w then suc (count_empty ws) else count_empty ws

-- The segments that the message names, and of the others their number and the empty ones.
unfoldable pub several_keys_error : List Text → ParseKeyComboError
several_keys_error segments =
    if leb (length segments) max_described_segments
    then several_keys (map abbreviate segments) none
    else several_keys (map abbreviate (take 3 segments))
        (some (length (drop 3 segments), count_empty (drop 3 segments)))

-- What is left when the modifiers are off.
unfoldable pub main_key : Bool → Text → ℕ → Text → Result ParseKeyComboError KeyCombo
main_key validate_key input modifiers remainder =
    if is_empty remainder || is_some_and (λ _. true) (modifier_mask remainder)
    then err (modifier_only_error input modifiers remainder)
    else if contains_char b'+' remainder && not (text_eq remainder (b'+' ∷ []))
    then err (several_keys_error (map trim (split b'+' remainder)))
    else do
      key ← normalize_key remainder
      if validate_key && not (is_known_key key)
          then err (unknown_key (abbreviate remainder))
          else ok (record { modifiers = modifiers; key = key; alone = false })

unfoldable pub parse_combo : Text → Bool → Result ParseKeyComboError KeyCombo
parse_combo input validate_key = if is_empty (trim input) then err empty_combination else do
  stripped ← strip_modifiers (length (trim input)) 0 (trim input)
  main_key validate_key (trim input) stripped.0 (trim stripped.1)

-- `KeyCombo::parse_query`, of a combination that a user types.
unfoldable pub parse_query : Text → Result ParseKeyComboError KeyCombo
parse_query input = parse_combo input true

-- `KeyCombo::from_str`, of one that a configuration holds.
unfoldable pub from_str : Text → Result ParseKeyComboError KeyCombo
from_str input = parse_combo input false
