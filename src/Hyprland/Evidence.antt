-- ===== src/Hyprland/Evidence.antt =====
-- src/layers/hyprland/matching.rs: what a finding says of a binding.
use whykey.Prelude.{
  ℕ, Bool, ◌&&◌, Text, text, List, [], ◌∷◌, ◌++◌, Option, none, some, leb, text_eq, if◌then◌else◌,
  ◌==◌,
}
use whykey.Route.Model.{
  BindingEvidence, BindingScope, SourceLocation, UncertaintyReason, dispatcher_is_opaque,
}
use whykey.Hyprland.Binding.{Binding, normalize_submap, none_if_empty}
use whykey.Hyprland.Keys.{LuaBindHint, described_as}

abbrev line_of : ℕ → Option ℕ
line_of number = if leb number 4294967295 then some number else none

abbrev location_of : Option LuaBindHint → Option SourceLocation
location_of none = none
location_of (some hint) = some (record { file = hint.source; line = line_of hint.line_number })

-- The last hint with these modifiers and this description.
unfoldable pub described_hint : ℕ → Text → List LuaBindHint → Option LuaBindHint
unfolding text_eq
described_hint modmask description [] = none
described_hint modmask description (hint ∷ hints) =
    elim (described_hint modmask description hints) [
      | some last ↦ some last
      | none ↦
          if hint.combo.modifiers == modmask && described_as description hint.description
          then some hint
          else none
    ]

unfoldable pub hint_source : Binding → List LuaBindHint → Option SourceLocation
unfolding none_if_empty described_hint
hint_source binding lua_hints = elim (none_if_empty binding.description) [
  | none ↦ none
  | some description ↦ location_of (described_hint binding.modmask description lua_hints)
]

unfoldable pub binding_evidence : Binding → List LuaBindHint → Bool → BindingEvidence
unfolding none_if_empty normalize_submap hint_source dispatcher_is_opaque text
binding_evidence binding lua_hints has_universal_match = record {
  dispatcher = none_if_empty binding.dispatcher;
  action = none_if_empty (binding.dispatcher ++ (text " " ++ binding.arg));
  description = none_if_empty binding.description;
  submap = some (normalize_submap binding.submap);
  scope =
      if binding.submap_universal
      then BindingScope.universal
      else BindingScope.submap (normalize_submap binding.submap);
  source = hint_source binding lua_hints;
  has_universal_match = has_universal_match;
  uncertainty =
      if dispatcher_is_opaque binding.dispatcher
      then some UncertaintyReason.opaque_dispatcher
      else none;
}
