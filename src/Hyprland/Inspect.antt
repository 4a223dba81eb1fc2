-- ===== src/Hyprland/Inspect.antt =====
-- src/layers/hyprland/matching.rs: what is concluded from the bindings that `hyprctl` reports. The
-- wording of the details is left out, and a summary is told by its arm.
use whykey.Prelude.{
  ℕ, Bool, true, false, not, ◌&&◌, Text, text, List, [], ◌∷◌, ◌++◌, map, Option, none, some, all,
  any, length, to_decimal, ltb, if◌then◌else◌, ◌==◌,
}
use whykey.Route.Model.{
  Outcome, LayerStatus, Propagation, BindingEvidence, BindingScope, UncertaintyReason, from_parts,
}
use whykey.Hyprland.Binding.{
  Binding, BindingMatch, MatchCertainty, is_certain, runs_on_press, normalize_submap,
}
use whykey.Hyprland.Keys.{LuaBindHint}
use whykey.Hyprland.Matching.{
  Query, candidates, alone_candidates, reachable_matches, primary_match, is_resolved,
}
use whykey.Hyprland.Evidence.{binding_evidence}
use whykey.Hyprland.Flow.{binding_propagation, propagation_eq}

-- The arms of the summaries.
pub data Summary : Type 0 where
  incomplete_no_match no_active_binding handling_not_proven forwarded consumed redirected : Summary
  forwarding_not_determined unresolved_keys keyboard_unknown may_ignore_modifiers : Summary
  forwarding_not_proven unreachable : Summary
  unreported_keys : (count : ℕ) → Summary
  on_modifier : Propagation → (on_release : Bool) → Summary

pub record Inspection : Type 0 where
  pub outcome : Outcome
  pub summary : Summary
  pub binding : Option BindingEvidence
  pub also_fires : List BindingEvidence

abbrev pub bare : Outcome → Summary → Inspection
bare outcome summary = record {
  outcome = outcome;
  summary = summary;
  binding = none;
  also_fires = [];
}

unfoldable pub only_where : (BindingMatch → Bool) → List BindingMatch → List BindingMatch
only_where p [] = []
only_where p (m ∷ ms) = let rest = only_where p ms in if p m then m ∷ rest else rest

abbrev resolved : BindingMatch → Bool
resolved m = is_resolved m.certainty

abbrev consumes_alone : BindingMatch → Bool
consumes_alone m =
    propagation_eq (binding_propagation (record m { certainty = MatchCertainty.exact } ∷ []))
      Propagation.stops

-- The evidence when no key of the matches is reported.
unfoldable pub unresolved_evidence : List BindingMatch → Text → BindingEvidence
unfolding text to_decimal all binding_propagation
unresolved_evidence unresolved active_submap = record {
  dispatcher = none;
  action = some (
      text "one of "
      ++ (to_decimal 20 (length unresolved)
          ++ (text " binding"
              ++ ((if length unresolved == 1 then [] else text "s")
                  ++ text " whose key Hyprland does not report"))));
  description = none;
  submap = none;
  scope = BindingScope.submap active_submap;
  source = none;
  has_universal_match = false;
  uncertainty = some (
      UncertaintyReason.unresolved_binding_key (length unresolved) (all consumes_alone unresolved));
}

abbrev with_ambiguity : MatchCertainty → BindingEvidence → BindingEvidence
with_ambiguity MatchCertainty.possible_ignore_mods evidence = elim evidence.uncertainty [
  | none ↦ record evidence { uncertainty = some UncertaintyReason.modifier_ambiguity }
  | some reason ↦ evidence
]
with_ambiguity certainty evidence = evidence

abbrev is_other : Option BindingMatch → BindingMatch → Bool
is_other none m = true
is_other (some primary) m = not (primary.place == m.place)

abbrev fires_too : Option BindingMatch → BindingMatch → Bool
fires_too primary m = is_certain m && runs_on_press m.binding && is_other primary m

-- The `match` on the status and the propagation, its arms in their order.
abbrev pub summary_arm :
    LayerStatus → Propagation → (only_unresolved possible_device : Bool) → Summary
summary_arm LayerStatus.handled Propagation.continues only device = Summary.forwarded
summary_arm LayerStatus.handled Propagation.stops only device = Summary.consumed
summary_arm LayerStatus.handled Propagation.redirected only device = Summary.redirected
summary_arm LayerStatus.handled Propagation.indeterminate only device =
    Summary.forwarding_not_determined
summary_arm LayerStatus.indeterminate propagation true device = Summary.unresolved_keys
summary_arm LayerStatus.indeterminate Propagation.continues only true = Summary.keyboard_unknown
summary_arm LayerStatus.indeterminate Propagation.continues only false =
    Summary.may_ignore_modifiers
summary_arm LayerStatus.indeterminate Propagation.indeterminate only device =
    Summary.forwarding_not_proven
summary_arm _ _ only device = Summary.unreachable

abbrev pub is_possible_device : BindingMatch → Bool
is_possible_device m = elim m.certainty [ MatchCertainty.possible_device ↦ true | _ ↦ false ]

unfoldable pub match_status : (skipped : ℕ) → List BindingMatch → LayerStatus
unfolding any is_certain
match_status skipped matches =
    if ltb 0 skipped
    then LayerStatus.indeterminate
    else if any is_certain matches
    then LayerStatus.handled
    else LayerStatus.indeterminate

unfoldable pub match_propagation : (skipped : ℕ) → List BindingMatch → Propagation
match_propagation skipped matches =
    if ltb 0 skipped then Propagation.indeterminate else binding_propagation matches

-- With no key that is known the summary is the number of the matches. A panic comes before that.
abbrev pub final_summary : (only_unresolved : Bool) → (count : ℕ) → Summary → Summary
final_summary only count Summary.unreachable = Summary.unreachable
final_summary true count arm = Summary.unreported_keys count
final_summary false count arm = arm

unfoldable pub match_summary : (skipped : ℕ) → List BindingMatch → Summary
unfolding any only_where
match_summary skipped matches =
    let only_unresolved = not (any resolved matches) in
    if ltb 0 skipped
    then Summary.handling_not_proven
    else final_summary only_unresolved
        (length (only_where (λ (m : BindingMatch). not (resolved m)) matches))
        (summary_arm (match_status skipped matches) (match_propagation skipped matches)
          only_unresolved (any is_possible_device matches))

unfoldable pub match_evidence :
    Option BindingMatch → List BindingMatch → Query → Option BindingEvidence
unfolding binding_evidence unresolved_evidence any only_where
match_evidence (some primary) matches query = some (
    with_ambiguity primary.certainty (
      binding_evidence primary.binding query.lua_hints
        (any (λ (m : BindingMatch). m.binding.submap_universal) matches)))
match_evidence none matches query = some (
    unresolved_evidence (only_where (λ (m : BindingMatch). not (resolved m)) matches)
      query.active_submap)

-- What is concluded from some reachable matches.
unfoldable pub inspect_matches : Query → (skipped : ℕ) → List BindingMatch → Inspection
unfolding match_evidence only_where any
inspect_matches query skipped matches =
    let universal = any (λ (m : BindingMatch). m.binding.submap_universal) matches in
    record {
      outcome = from_parts (match_status skipped matches) (match_propagation skipped matches);
      summary = match_summary skipped matches;
      binding = match_evidence (primary_match matches) matches query;
      also_fires =
          map (λ (m : BindingMatch). binding_evidence m.binding query.lua_hints universal)
            (only_where (fires_too (primary_match matches)) matches);
    }

abbrev pub nothing_matches : (skipped : ℕ) → Inspection
nothing_matches skipped =
    if ltb 0 skipped
    then bare Outcome.unknown Summary.incomplete_no_match
    else bare Outcome.pass Summary.no_active_binding

abbrev evidence_of :
    Option BindingMatch → List BindingMatch → List LuaBindHint → Option BindingEvidence
evidence_of none matches lua_hints = none
evidence_of (some primary) matches lua_hints = some (
    binding_evidence primary.binding lua_hints
      (any (λ (m : BindingMatch). m.binding.submap_universal) matches))

unfoldable pub inspect_alone_matches : Query → (skipped : ℕ) → List BindingMatch → Inspection
unfolding all
inspect_alone_matches query skipped matches = record {
  outcome = from_parts LayerStatus.handled (match_propagation skipped matches);
  summary =
      Summary.on_modifier (match_propagation skipped matches)
        (all (λ (m : BindingMatch). m.binding.release) matches);
  binding = evidence_of (primary_match matches) matches query.lua_hints;
  also_fires = [];
}

abbrev pub if_any : List BindingMatch → Inspection → (List BindingMatch → Inspection) → Inspection
if_any [] nothing conclude = nothing
if_any (m ∷ ms) nothing conclude = conclude (m ∷ ms)

-- The matches that are reached.
unfoldable pub reached : Query → List Binding → List BindingMatch
reached query bindings =
    (reachable_matches (
      if query.key.alone
      then alone_candidates query.key query.active_submap 0 bindings
      else candidates query 0 bindings)).0

abbrev pub conclude : Query → List Binding → (skipped : ℕ) → Inspection
conclude query bindings skipped =
    if_any (reached query bindings) (nothing_matches skipped) (
      if query.key.alone
      then inspect_alone_matches query skipped
      else inspect_matches query skipped)

-- `inspect_json_with_keycode` behind `parse_bindings`, which gives the bindings that could be read
-- and the number of those that could not.
unfoldable pub inspect_bindings : Query → List Binding → (skipped : ℕ) → Inspection
unfolding normalize_submap
inspect_bindings query bindings skipped =
    conclude (record query { active_submap = normalize_submap query.active_submap }) bindings
      skipped
