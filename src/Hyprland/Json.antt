-- ===== src/Hyprland/Json.antt =====
-- `serde_json::Value`, as src/layers/hyprland/matching.rs reads it.
use whykey.Prelude.{
  Bool, true, false, not, Text, List, [], ◌∷◌, Option, none, some, text, text_eq, to_lower, trim,
  is_empty, if◌then◌else◌,
}

mutual
  -- A number is not looked into.
  pub data Json : Type 0 where
    null number : Json
    bool : Bool → Json
    string : Text → Json
    array : Jsons → Json
    object : Fields → Json

  pub data Jsons : Type 0 where
    nil : Jsons
    cons : Json → Jsons → Jsons

  pub data Fields : Type 0 where
    no_fields : Fields
    field : Text → Json → Fields → Fields

-- `Map::get`
unfoldable pub get : Text → Fields → Option Json
unfolding text_eq
get key Fields.no_fields = none
get key (Fields.field name value rest) = if text_eq name key then some value else get key rest

-- `eq_ignore_ascii_case`; no letter beyond ASCII is folded.
unfoldable pub eq_ignore_ascii_case : Text → Text → Bool
unfolding text_eq to_lower
eq_ignore_ascii_case a b = text_eq (to_lower a) (to_lower b)

unfoldable pub boolish_text : Text → Option Bool
unfolding eq_ignore_ascii_case text
boolish_text value =
    if eq_ignore_ascii_case value (text "true")
    then some true
    else if eq_ignore_ascii_case value (text "false")
    then some false
    else none

unfoldable pub boolish_value : Json → Option Bool
unfolding boolish_text
boolish_value (Json.bool value) = some value
boolish_value (Json.string value) = boolish_text value
boolish_value _ = none

unfoldable pub has_device_scope : Json → Bool
unfolding trim is_empty
has_device_scope Json.null = false
has_device_scope (Json.string value) = not (is_empty (trim value))
has_device_scope _ = true

-- `filter_map(Value::as_str)`
unfoldable pub strings : Jsons → List Text
strings Jsons.nil = []
strings (Jsons.cons (Json.string value) rest) = value ∷ strings rest
strings (Jsons.cons _ rest) = strings rest
