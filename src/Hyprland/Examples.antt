-- ===== src/Hyprland/Examples.antt =====
-- The bindings of src/layers/hyprland/matching.rs, on a few that `hyprctl` could report.
use whykey.Prelude.{ℕ, true, false, text, List, [], ◌∷◌, none, some, ◌≡◌, ◌≢◌, ◌↔◌, refl, any, all}
use whykey.Key.Combo.{KeyCombo}
use whykey.Route.Model.{Outcome, Propagation, from_parts}
use whykey.Hyprland.Json.{Json}
use whykey.Hyprland.Binding.{Binding, BindingMatch, MatchCertainty, switches_submap, runs_on_press}
use whykey.Hyprland.Matching.{Query, candidates, reachable_matches, primary_match}
use whykey.Hyprland.Flow.{
  at_press, state_outcome, binding_propagation, FlowState, joint_propagation, flow_states,
  next_states, push_states, push_state, push_outcomes, dispatcher_outcomes, is_pass, push_new,
  state_eq, passed_over, dispatched,
}
use whykey.Hyprland.Inspect.{
  Summary, inspect_bindings, inspect_matches, match_status, match_propagation, reached,
}
use whykey.Hyprland.Runs.{Runs}
use whykey.Hyprland.Propagated.{binding_propagation-Runs}
use whykey.Hyprland.Concluded.{
  EndsIn, in_submap, inspect_bindings-EndsIn, inspect_bindings-reachable,
}
use whykey.Hyprland.Agreement.{no_catch_all, binding_propagation-reachable_matches}
use whykey.Hyprland.Primary.{IsPrimary, primary_match-IsPrimary}

abbrev super_q : KeyCombo
super_q = record { modifiers = 64; key = text "Q"; alone = false }

abbrev exec : Binding
exec = record {
  modmask = 64;
  key = text "q";
  keycode = 0;
  catch_all = false;
  non_consuming = false;
  auto_consuming = false;
  release = false;
  long_press = false;
  submap = [];
  submap_universal = false;
  ignore_mods = Json.null;
  locked = Json.bool false;
  repeat = Json.null;
  transparent = Json.null;
  dont_inhibit = Json.null;
  allow_input_capture = Json.null;
  device = Json.null;
  description = [];
  dispatcher = text "exec";
  arg = text "kitty";
}

abbrev to_submap : Binding
to_submap = record exec { dispatcher = text "submap"; arg = text "resize" }

-- A binding of the same key with other modifiers, which might ignore them.
abbrev other_mods : Binding
other_mods = record exec { modmask = 0 }

abbrev query : Query
query = record {
  key = super_q;
  active_submap = [];
  keycodes = [];
  lua_hints = [];
  config_hints = [];
  physical_input = none;
}

abbrev exactly : ℕ → Binding → BindingMatch
exactly place binding = record {
  place = place;
  binding = binding;
  certainty = MatchCertainty.exact;
}

-- Every binding could be read.
abbrev none_skipped : ℕ
none_skipped = 0

abbrev three : List BindingMatch
three = exactly 0 exec ∷ exactly 1 to_submap ∷ exactly 2 exec ∷ []

binding_propagation-Runs_example :
    (binding_propagation three ≡ Propagation.stops)
    ↔ ((t : FlowState) → Runs three at_press t → state_outcome t ≡ Propagation.stops)
binding_propagation-Runs_example = binding_propagation-Runs three Propagation.stops (λ p. cc)

inspect_bindings-EndsIn_example :
    (((inspect_bindings query (exec ∷ other_mods ∷ []) none_skipped).outcome ≡ Outcome.consumed) ↔ (
      (none_skipped ≡ 0)
      × EndsIn Propagation.stops (reached (in_submap query) (exec ∷ other_mods ∷ []))))
    × (((inspect_bindings query (exec ∷ other_mods ∷ []) none_skipped).outcome ≡ Outcome.redirected)
        ↔ ((none_skipped ≡ 0)
            × EndsIn Propagation.redirected (reached (in_submap query) (exec ∷ other_mods ∷ []))))
inspect_bindings-EndsIn_example =
    inspect_bindings-EndsIn query (exec ∷ other_mods ∷ []) none_skipped

is_consumed :
    (inspect_bindings query (exec ∷ other_mods ∷ []) none_skipped).outcome ≡ Outcome.consumed
unfolding inspect_bindings reached reachable_matches candidates inspect_matches from_parts
    match_status match_propagation joint_propagation flow_states next_states push_states push_state
    push_outcomes dispatcher_outcomes is_pass push_new state_eq passed_over dispatched state_outcome
    any all binding_propagation switches_submap runs_on_press
is_consumed = refl

inspect_bindings-reachable_example :
    (inspect_bindings query (other_mods ∷ []) none_skipped).summary ≢ Summary.unreachable
inspect_bindings-reachable_example = inspect_bindings-reachable query (other_mods ∷ []) none_skipped

only_named_keys : no_catch_all three ≡ true
unfolding all
only_named_keys = refl

binding_propagation-reachable_matches_example :
    binding_propagation (reachable_matches three).0 ≡ binding_propagation three
binding_propagation-reachable_matches_example =
    binding_propagation-reachable_matches three only_named_keys

primary_match-IsPrimary_example : IsPrimary three (some (exactly 0 exec))
unfolding primary_match
primary_match-IsPrimary_example = primary_match-IsPrimary three
