-- ===== src/Hyprland/Matching.antt =====
-- src/layers/hyprland/matching.rs: which bindings match a key, and which of them are reached.
use whykey.Prelude.{
  ℕ, suc, bit_and, String, Bool, true, false, not, ◌&&◌, ◌||◌, Text, text, text_eq, List, [], ◌∷◌,
  ◌++◌, Option, none, some, find, any, if◌then◌else◌, ◌==◌,
}
use whykey.Key.Names.{normalize_key_str}
use whykey.Key.Combo.{KeyCombo, alone_mask, alone_keysyms}
use whykey.Route.Request.{PhysicalInput}
use whykey.Hyprland.Json.{has_device_scope}
use whykey.Hyprland.Binding.{
  Binding, BindingMatch, MatchCertainty, is_certain, runs_on_press, switches_submap,
  dispatcher_is_special, binding_is_active,
}
use whykey.Hyprland.Keys.{LuaBindHint, ConfigBindHint, key_of, matches_key, binding_ignore_mods}
use whykey.Hyprland.Device.{DeviceMatch, physical_device_match}

-- What a query is matched against.
pub record Query : Type 0 where
  pub key : KeyCombo
  pub active_submap : Text
  pub keycodes : List ℕ
  pub lua_hints : List LuaBindHint
  pub config_hints : List ConfigBindHint
  pub physical_input : Option PhysicalInput

abbrev ignored : Option Bool → Option MatchCertainty
ignored (some true) = some MatchCertainty.modifier_insensitive
ignored (some false) = none
ignored none = some MatchCertainty.possible_ignore_mods

-- How the binding matches the key, before the device is looked at.
abbrev key_certainty :
    (matched : Option Bool) (same_mods : Bool) (ignore_mods : Option Bool) → Option MatchCertainty
key_certainty (some false) same_mods ignore_mods = none
key_certainty none true ignore_mods = some MatchCertainty.possible_unresolved_key
key_certainty none false ignore_mods = none
key_certainty (some true) true ignore_mods = some MatchCertainty.exact
key_certainty (some true) false ignore_mods = ignored ignore_mods

abbrev is_unknown : DeviceMatch → Bool
is_unknown DeviceMatch.unknown = true
is_unknown _ = false

abbrev lowered : MatchCertainty → MatchCertainty
lowered MatchCertainty.possible_unresolved_key = MatchCertainty.possible_unresolved_key
lowered _ = MatchCertainty.possible_device

abbrev if_unproven : Bool → Option MatchCertainty → Option MatchCertainty
if_unproven unproven none = none
if_unproven unproven (some certainty) = some (if unproven then lowered certainty else certainty)

abbrev device_certainty :
    DeviceMatch → (scoped : Bool) → Option MatchCertainty → Option MatchCertainty
device_certainty DeviceMatch.no_match scoped certainty = none
device_certainty device scoped certainty = if_unproven (scoped && is_unknown device) certainty

-- The closure of `filter_map`. Without an input the device is unknown.
unfoldable pub match_certainty : Query → Binding → Option MatchCertainty
unfolding key_of matches_key binding_ignore_mods physical_device_match has_device_scope
match_certainty query binding =
    let key = key_of binding query.lua_hints in
    device_certainty (physical_device_match binding.device query.physical_input)
      (has_device_scope binding.device)
      (key_certainty (matches_key key query.key query.keycodes query.physical_input)
        (binding.modmask == query.key.modifiers)
        (binding_ignore_mods binding key query.lua_hints query.config_hints))

abbrev push_match : ℕ → Binding → Option MatchCertainty → List BindingMatch → List BindingMatch
push_match place binding none rest = rest
push_match place binding (some certainty) rest =
    record { place = place; binding = binding; certainty = certainty } ∷ rest

-- The candidates among the bindings from a place on.
unfoldable pub candidates : Query → ℕ → List Binding → List BindingMatch
unfolding binding_is_active match_certainty
candidates query place [] = []
candidates query place (binding ∷ bindings) =
    let rest = candidates query (suc place) bindings in
    if binding_is_active binding query.active_submap
    then push_match place binding (match_certainty query binding) rest
    else rest

abbrev is_keysym : List String → Text → Bool
is_keysym names key = any (λ (name : String). text_eq (text name) key) names

-- `modmask & !mask == 0`: no bit of the binding is outside the mask.
abbrev within_mask : ℕ → ℕ → Bool
within_mask modmask mask = bit_and modmask mask == modmask

-- The candidates of `inspect_alone`.
unfoldable pub alone_candidates : KeyCombo → Text → ℕ → List Binding → List BindingMatch
unfolding binding_is_active alone_mask alone_keysyms normalize_key_str any text_eq text
alone_candidates key active_submap place [] = []
alone_candidates key active_submap place (binding ∷ bindings) =
    let rest = alone_candidates key active_submap (suc place) bindings in
    if binding_is_active binding active_submap
      && within_mask binding.modmask (alone_mask key)
      && is_keysym (alone_keysyms key) (normalize_key_str binding.key)
    then record { place = place; binding = binding; certainty = MatchCertainty.exact } ∷ rest
    else rest

pub data Unreached : Type 0 where
  after_submap catch_all_after_found : Unreached

-- A certain match at which Hyprland's walk ends, and one that marks the key as handled.
unfoldable pub ends_walk : BindingMatch → Bool
unfolding is_certain switches_submap runs_on_press
ends_walk matched =
    is_certain matched && switches_submap matched.binding && runs_on_press matched.binding

unfoldable pub marks_found : BindingMatch → Bool
unfolding is_certain dispatcher_is_special
marks_found matched =
    is_certain matched
    && matched.binding.release
    && not matched.binding.non_consuming
    && not matched.binding.auto_consuming
    && not (dispatcher_is_special matched.binding)

-- The variables of the loop of `reachable_matches`.
pub record Walk : Type 0 where
  pub reachable : List BindingMatch
  pub unreached : List (Binding × Unreached)
  pub stopped : Bool
  pub found : Bool

abbrev pub at_start : Walk
at_start = record { reachable = []; unreached = []; stopped = false; found = false }

abbrev pub leave_out : Walk → BindingMatch → Unreached → Walk
leave_out walk matched reason = record walk {
  unreached = walk.unreached ++ (matched.binding, reason) ∷ [];
}

-- The body of the loop.
unfoldable pub walk_step : Walk → BindingMatch → Walk
unfolding ends_walk marks_found
walk_step walk matched =
    if walk.stopped
    then leave_out walk matched Unreached.after_submap
    else if walk.found && matched.binding.catch_all
    then leave_out walk matched Unreached.catch_all_after_found
    else record walk {
      reachable = walk.reachable ++ matched ∷ [];
      stopped = ends_walk matched;
      found = walk.found || marks_found matched;
    }

unfoldable pub walk_from : Walk → List BindingMatch → Walk
unfolding walk_step
walk_from walk [] = walk
walk_from walk (matched ∷ matches) = walk_from (walk_step walk matched) matches

unfoldable pub reachable_matches :
    List BindingMatch → List BindingMatch × List (Binding × Unreached)
unfolding walk_from
reachable_matches matches =
    let walk = walk_from at_start matches in (walk.reachable, walk.unreached)

abbrev pub or_else : Option BindingMatch → Option BindingMatch → Option BindingMatch
or_else none second = second
or_else (some first) second = some first

abbrev pub is_resolved : MatchCertainty → Bool
is_resolved MatchCertainty.possible_unresolved_key = false
is_resolved _ = true

unfoldable pub primary_match : List BindingMatch → Option BindingMatch
unfolding find is_certain runs_on_press
primary_match matches =
    or_else (find (λ (m : BindingMatch). is_certain m && runs_on_press m.binding) matches) (
      or_else (find is_certain matches)
        (find (λ (m : BindingMatch). is_resolved m.certainty) matches))
