-- ===== src/Hyprland/Keys.antt =====
-- src/layers/hyprland/matching.rs: the key that a binding listens for, and the keyboard.
use whykey.Prelude.{
  ℕ, ◌+◌, Bool, true, false, not, ◌&&◌, ◌||◌, Text, List, [], ◌∷◌, Option, none, some, text,
  text_eq, trim, is_empty, strip_prefix, parse_u32, all, any, is_some_and, if◌then◌else◌, ◌==◌,
}
use whykey.Key.Names.{normalize_key_str}
use whykey.Key.Combo.{KeyCombo}
use whykey.Route.Request.{PhysicalInput}
use whykey.Hyprland.Json.{boolish_value}
use whykey.Hyprland.Binding.{Binding}

-- A binding that a configuration declares: in Lua, and in the declarative language.
pub record LuaBindHint : Type 0 where
  pub combo : KeyCombo
  pub description : Option Text
  pub action : Option Text
  pub ignore_mods : Option Bool
  pub source : Text
  pub line_number : ℕ

pub record ConfigBindHint : Type 0 where
  pub combo : KeyCombo
  pub ignore_mods : Bool

pub data BindingKey : Type 0 where
  code : ℕ → BindingKey
  name : Text → BindingKey
  catch_all unresolved : BindingKey

abbrev code_number : Option Text → Option ℕ
code_number none = none
code_number (some number) = parse_u32 number

-- The number behind `CODE:`.
unfoldable pub numeric_code : Text → Option ℕ
unfolding strip_prefix text parse_u32
numeric_code key = code_number (strip_prefix (text "CODE:") key)

abbrev code_or_name : Option ℕ → Text → BindingKey
code_or_name (some number) normalized = BindingKey.code number
code_or_name none normalized = BindingKey.name normalized

-- `BindingKey::from_name`
unfoldable pub from_name : Text → BindingKey
unfolding normalize_key_str numeric_code
from_name key = code_or_name (numeric_code (normalize_key_str key)) (normalize_key_str key)

abbrev pub described_as : Text → Option Text → Bool
described_as description = is_some_and (λ (d : Text). text_eq d description)

-- The keys of the hints with these modifiers and this description.
unfoldable pub hint_keys : ℕ → Text → List LuaBindHint → List Text
unfolding text_eq
hint_keys modmask description [] = []
hint_keys modmask description (hint ∷ hints) =
    if hint.combo.modifiers == modmask && described_as description hint.description
    then hint.combo.key ∷ hint_keys modmask description hints
    else hint_keys modmask description hints

abbrev agreed : List Text → Option Text
agreed [] = none
agreed (first ∷ rest) = if all (λ (key : Text). text_eq key first) rest then some first else none

unfoldable pub lua_hint_key : ℕ → Text → List LuaBindHint → Option Text
unfolding trim is_empty hint_keys text_eq all
lua_hint_key modmask description hints =
    if is_empty (trim description) then none else agreed (hint_keys modmask description hints)

abbrev hinted : Option Text → BindingKey
hinted none = BindingKey.unresolved
hinted (some key) = from_name key

-- `BindingKey::of`
unfoldable pub key_of : Binding → List LuaBindHint → BindingKey
unfolding from_name lua_hint_key is_empty
key_of binding lua_hints =
    if not (binding.keycode == 0)
    then BindingKey.code binding.keycode
    else if binding.catch_all
    then BindingKey.catch_all
    else if not (is_empty binding.key)
    then from_name binding.key
    else hinted (lua_hint_key binding.modmask binding.description lua_hints)

-- `EvdevKeycode::to_xkb`: eight more than a u16 always fits a u32.
unfoldable pub to_xkb : ℕ → ℕ
to_xkb keycode = keycode + 8

unfoldable pub physical_keycode_matches : ℕ → ℕ → Bool
unfolding to_xkb
physical_keycode_matches binding_keycode evdev_keycode = binding_keycode == to_xkb evdev_keycode

-- `BindingKey::matches`
unfoldable pub matches_key : BindingKey → KeyCombo → List ℕ → Option PhysicalInput → Option Bool
unfolding numeric_code physical_keycode_matches any text_eq
matches_key BindingKey.unresolved combo keycodes input = none
matches_key BindingKey.catch_all combo keycodes input = some true
matches_key (BindingKey.code number) combo keycodes input = elim (numeric_code combo.key) [
  | some query ↦ some (number == query)
  | none ↦ some (
      any (λ (k : ℕ). k == number) keycodes
      || is_some_and (λ (i : PhysicalInput). physical_keycode_matches number i.keycode) input)
]
matches_key (BindingKey.name key) combo keycodes input = elim (numeric_code combo.key) [
  | some query ↦ some false
  | none ↦ some (text_eq key combo.key)
]

-- `*key == ..` on `BindingKey`
abbrev key_eq : BindingKey → BindingKey → Bool
key_eq (BindingKey.code a) (BindingKey.code b) = a == b
key_eq (BindingKey.name a) (BindingKey.name b) = text_eq a b
key_eq BindingKey.catch_all BindingKey.catch_all = true
key_eq BindingKey.unresolved BindingKey.unresolved = true
key_eq _ _ = false

-- Whether a declaration is of exactly the binding.
unfoldable pub declares : Binding → BindingKey → KeyCombo → Bool
unfolding from_name text_eq
declares binding key combo = combo.modifiers == binding.modmask && key_eq (from_name combo.key) key

abbrev otherwise : Option Bool → Option Bool → Option Bool
otherwise (some b) last = some b
otherwise none last = last

-- `iter().rev().find(..)`: the last declaration of the binding.
unfoldable pub last_lua_hint : Binding → BindingKey → List LuaBindHint → Option LuaBindHint
unfolding declares
last_lua_hint binding key [] = none
last_lua_hint binding key (hint ∷ hints) = elim (last_lua_hint binding key hints) [
  | some last ↦ some last
  | none ↦ if declares binding key hint.combo then some hint else none
]

abbrev hinted_ignore_mods : Option LuaBindHint → Option Bool
hinted_ignore_mods none = none
hinted_ignore_mods (some hint) = hint.ignore_mods

unfoldable pub lua_ignore_mods_for_binding : Binding → BindingKey → List LuaBindHint → Option Bool
unfolding last_lua_hint
lua_ignore_mods_for_binding binding key hints = hinted_ignore_mods (last_lua_hint binding key hints)

unfoldable pub config_ignore_mods_for_binding :
    Binding → BindingKey → List ConfigBindHint → Option Bool
unfolding declares
config_ignore_mods_for_binding binding key [] = none
config_ignore_mods_for_binding binding key (hint ∷ hints) =
    elim (config_ignore_mods_for_binding binding key hints) [
      | some last ↦ some last
      | none ↦ if declares binding key hint.combo then some hint.ignore_mods else none
    ]

unfoldable pub binding_ignore_mods :
    Binding → BindingKey → List LuaBindHint → List ConfigBindHint → Option Bool
unfolding boolish_value lua_ignore_mods_for_binding config_ignore_mods_for_binding
binding_ignore_mods binding key lua_hints config_hints =
    otherwise (boolish_value binding.ignore_mods) (
      otherwise (lua_ignore_mods_for_binding binding key lua_hints)
        (config_ignore_mods_for_binding binding key config_hints))
