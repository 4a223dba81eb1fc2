-- ===== src/Hyprland/Device.antt =====
-- src/layers/hyprland/matching.rs: whether a binding's device scope holds the captured keyboard.
use whykey.Prelude.{
  Bool, true, false, ◌||◌, Text, List, [], ◌∷◌, Option, none, some, text, text_eq, trim, is_empty,
  contains_char, char_to_lower, is_ascii_alphanumeric, if◌then◌else◌,
}
use whykey.Route.Request.{PhysicalInput}
use whykey.Hyprland.Json.{Json, get, boolish_value, eq_ignore_ascii_case, strings}

pub data DeviceMatch : Type 0 where
  matches no_match unknown : DeviceMatch

unfoldable pub normalize_device_name : Text → Text
unfolding is_ascii_alphanumeric char_to_lower
normalize_device_name [] = []
normalize_device_name (c ∷ s) =
    let rest = normalize_device_name s in
    if is_ascii_alphanumeric c then char_to_lower c ∷ rest else rest

unfoldable pub device_name_match : Text → Text → DeviceMatch
unfolding trim is_empty contains_char eq_ignore_ascii_case normalize_device_name text_eq
device_name_match configured actual =
    let name = trim configured in
    if is_empty name || contains_char b'*' name || contains_char b'?' name
    then DeviceMatch.unknown
    else if eq_ignore_ascii_case name (trim actual)
        || text_eq (normalize_device_name name) (normalize_device_name actual)
    then DeviceMatch.matches
    else DeviceMatch.unknown

-- One round of the fold over the listed names.
abbrev listed_so_far : DeviceMatch → DeviceMatch → DeviceMatch
listed_so_far state DeviceMatch.matches = DeviceMatch.matches
listed_so_far state DeviceMatch.no_match = state
listed_so_far DeviceMatch.matches DeviceMatch.unknown = DeviceMatch.matches
listed_so_far _ DeviceMatch.unknown = DeviceMatch.unknown

unfoldable pub listed : DeviceMatch → List Text → Text → DeviceMatch
unfolding device_name_match
listed state [] actual = state
listed state (name ∷ names) actual =
    listed (listed_so_far state (device_name_match name actual)) names actual

abbrev scope_match : (inclusive : Bool) → DeviceMatch → DeviceMatch
scope_match true DeviceMatch.matches = DeviceMatch.matches
scope_match true _ = DeviceMatch.unknown
scope_match false DeviceMatch.matches = DeviceMatch.no_match
scope_match false _ = DeviceMatch.unknown

-- `get("inclusive").and_then(boolish_value).unwrap_or(true)`
abbrev inclusive_value : Option Json → Bool
inclusive_value none = true
inclusive_value (some value) = elim (boolish_value value) [ none ↦ true | some b ↦ b ]

abbrev names_value : Option Json → List Text
names_value (some (Json.array list)) = strings list
names_value _ = []

abbrev listed_match : Bool → List Text → Text → DeviceMatch
listed_match inclusive [] actual = DeviceMatch.unknown
listed_match inclusive (name ∷ names) actual =
    scope_match inclusive (listed DeviceMatch.unknown (name ∷ names) actual)

unfoldable pub named_device_match : Json → Text → DeviceMatch
unfolding device_name_match get text boolish_value strings listed
named_device_match (Json.string name) actual = device_name_match name actual
named_device_match (Json.object fields) actual =
    listed_match (inclusive_value (get (text "inclusive") fields))
      (names_value (get (text "list") fields)) actual
named_device_match _ actual = DeviceMatch.unknown

unfoldable pub physical_device_match : Json → Option PhysicalInput → DeviceMatch
unfolding named_device_match
physical_device_match scope none = DeviceMatch.unknown
physical_device_match scope (some input) = elim input.device [
  | none ↦ DeviceMatch.unknown
  | some actual ↦ named_device_match scope actual
]
