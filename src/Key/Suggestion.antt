-- ===== src/Key/Suggestion.antt =====
-- src/key.rs: which key is suggested for a name that is not known. The keysym inventory, a data file,
-- and `str::to_lowercase`, which folds letters beyond ASCII too, are arguments.
use whykey.Prelude.{
  ℕ, zero, suc, ◌+◌, ◌-◌, ◌*◌, ◌/◌, String, Bool, true, false, not, ◌&&◌, Text, List, [], ◌∷◌, ◌++◌,
  Option, none, some, Result, ok, err, map, text, to_lower, lines, starts_with, split_once, length,
  is_scalar, is_control, is_whitespace, is_ascii_digit, to_decimal, ltb, leb, ◌==◌, if◌then◌else◌,
}
use whykey.Key.Names.{ParseKeyComboError, named_keys, normalize_key, is_known_key, echo_limit}
use whykey.Key.Distance.{edit_distance}

abbrev suggested_aliases : List String
suggested_aliases =
    "enter" ∷ "esc" ∷ "pgup" ∷ "pgdown" ∷ "comma" ∷ "period" ∷ "slash" ∷ "backslash" ∷ "semicolon"
    ∷ "apostrophe" ∷ "grave" ∷ "minus" ∷ "equal" ∷ "plus" ∷ "bracketleft" ∷ "bracketright" ∷ []

-- The value of a hexadecimal digit.
abbrev hex_value : ℕ → Option ℕ
hex_value c =
    if is_ascii_digit c
    then some (c - b'0')
    else if leb b'a' c && leb c b'f'
    then some (c - b'a' + 10)
    else if leb b'A' c && leb c b'F'
    then some (c - b'A' + 10)
    else none

unfoldable pub hex_digits : ℕ → Text → Option ℕ
unfolding is_ascii_digit
hex_digits n [] = some n
hex_digits n (c ∷ s) = elim (hex_value c) [
  | none ↦ none
  | some digit ↦ hex_digits (n * 16 + digit) s
]

abbrev within_u32 : Option ℕ → Option ℕ
within_u32 none = none
within_u32 (some n) = if ltb n 4294967296 then some n else none

-- `u32::from_str_radix(value, 16)`: at least one digit behind a sign that may stand first.
unfoldable pub parse_hex : Text → Option ℕ
unfolding hex_digits
parse_hex [] = none
parse_hex (c ∷ []) = if c == b'+' then none else within_u32 (hex_digits 0 (c ∷ []))
parse_hex (c ∷ d ∷ s) =
    if c == b'+' then within_u32 (hex_digits 0 (d ∷ s)) else within_u32 (hex_digits 0 (c ∷ d ∷ s))

-- The character that the keysym types, if it can be shown.
unfoldable pub typed_character : Text → Option ℕ
unfolding parse_hex is_scalar is_control is_whitespace
typed_character value = elim (parse_hex value) [
  | none ↦ none
  | some c ↦ if is_scalar c && (not (is_control c) && not (is_whitespace c)) then some c else none
]

abbrev names_known_key : Result ParseKeyComboError Text → Bool
names_known_key (err _) = false
names_known_key (ok key) = is_known_key key

-- What is matched, and what is suggested for it.
abbrev pub Candidate : Type 0
Candidate = Text × Text

unfoldable pub inventory_candidate : Text → Text → Option Candidate
unfolding to_lower normalize_key is_known_key typed_character
inventory_candidate name value = elim (names_known_key (normalize_key (to_lower name))) [
  | true ↦ some (to_lower name, to_lower name)
  | false ↦ elim (typed_character value) [ none ↦ none | some c ↦ some (to_lower name, c ∷ []) ]
]

unfoldable pub candidates_of_lines : List Text → List Candidate
unfolding starts_with split_once inventory_candidate text
candidates_of_lines [] = []
candidates_of_lines (line ∷ rest) = elim (starts_with (text "#") line) [
  | true ↦ candidates_of_lines rest
  | false ↦ elim (split_once b' ' line) [
    | none ↦ candidates_of_lines rest
    | some (name, value) ↦ elim (inventory_candidate name value) [
      | none ↦ candidates_of_lines rest
      | some candidate ↦ candidate ∷ candidates_of_lines rest
    ]
  ]
]

unfoldable pub inventory_candidates : Text → List Candidate
unfolding lines candidates_of_lines
inventory_candidates inventory = candidates_of_lines (lines inventory)

-- `(1..=35).map(|number| format!("f{number}"))`
unfoldable pub function_keys : ℕ → List Text
unfolding to_decimal
function_keys zero = []
function_keys (suc n) = function_keys n ++ (b'f' ∷ to_decimal 2 (suc n)) ∷ []

abbrev shown_as_is : Text → Candidate
shown_as_is name = (name, name)

unfoldable pub key_candidates : Text → List Candidate
unfolding to_lower function_keys inventory_candidates text
key_candidates inventory =
    map shown_as_is (
      map (λ (name : String). to_lower (text name)) named_keys
      ++ (function_keys 35 ++ map (λ (name : String). text name) suggested_aliases))
    ++ inventory_candidates inventory

abbrev pub Measured : Type 0
Measured = ℕ × Text

unfoldable pub nearer : Measured → Measured → Measured
nearer (distance, shown) (least, best) =
    if leb distance least then (distance, shown) else (least, best)

abbrev pub with_nearer : Measured → Option Measured → Measured
with_nearer measured none = measured
with_nearer measured (some best) = nearer measured best

-- `map(…).min_by_key(…)`: the first of the nearest, with its distance.
unfoldable pub nearest : Text → List Candidate → Option Measured
unfolding edit_distance nearer
nearest lowered [] = none
nearest lowered ((matched, shown) ∷ rest) =
    some (with_nearer (edit_distance lowered matched, shown) (nearest lowered rest))

-- `(lowered.chars().count() / 2).max(1)`
abbrev pub greatest_distance : Text → ℕ
greatest_distance lowered = if ltb (length lowered / 2) 1 then 1 else length lowered / 2

abbrev pub near_enough : Text → Option Measured → Option Text
near_enough lowered none = none
near_enough lowered (some (distance, shown)) =
    if leb distance (greatest_distance lowered) then some shown else none

-- The suggestion of `unknown_key_error`.
unfoldable pub suggestion : (Text → Text) → Text → Text → Option Text
unfolding key_candidates nearest
suggestion to_lowercase inventory raw =
    if ltb echo_limit (length raw)
    then none
    else near_enough (to_lowercase raw) (nearest (to_lowercase raw) (key_candidates inventory))
