-- ===== src/Hyprland/Flow.antt =====
-- src/layers/hyprland/matching.rs: what the matching bindings together do to the key.
use whykey.Prelude.{
  Bool, true, false, not, ◌&&◌, ◌||◌, List, [], ◌∷◌, ◌++◌, map, all, any, text, text_eq,
  if◌then◌else◌,
}
use whykey.Route.Model.{Propagation}
use whykey.Hyprland.Binding.{
  Binding, BindingMatch, MatchCertainty, certain, runs_on_press, switches_submap,
}

pub record FlowState : Type 0 where
  pub found : Bool
  pub dispatcher_passes : Bool
  pub dispatcher_redirects : Bool
  pub processing : Bool

pub record DispatcherOutcome : Type 0 where
  pub success : Bool
  pub passes : Bool
  pub redirects : Bool

abbrev pub plain_outcome : Bool → DispatcherOutcome
plain_outcome success = record { success = success; passes = false; redirects = false }

unfoldable pub is_pass : Binding → Bool
unfolding text_eq text
is_pass binding = text_eq binding.dispatcher (text "pass")

unfoldable pub dispatcher_outcomes : Binding → List DispatcherOutcome
dispatcher_outcomes binding =
    if is_pass binding
    then record { success = true; passes = true; redirects = true } ∷ []
    else if binding.auto_consuming
    then plain_outcome true ∷ plain_outcome false ∷ []
    else plain_outcome true ∷ []

abbrev pub may_not_match : MatchCertainty → Bool
may_not_match certainty = not (certain certainty)

abbrev pub same : Bool → Bool → Bool
same true b = b
same false b = not b

unfoldable pub state_eq : FlowState → FlowState → Bool
state_eq s t =
    same s.found t.found
    && same s.dispatcher_passes t.dispatcher_passes
    && same s.dispatcher_redirects t.dispatcher_redirects
    && same s.processing t.processing

-- `if !next.contains(&state) { next.push(state) }`
unfoldable pub push_new : List FlowState → FlowState → List FlowState
push_new next state = if any (state_eq state) next then next else next ++ state ∷ []

-- The state behind a release or long-press binding, which does not run on press.
unfoldable pub passed_over : Binding → FlowState → FlowState
passed_over binding state = record state {
  found =
      state.found || (binding.release && not binding.non_consuming && not binding.auto_consuming);
}

unfoldable pub dispatched : Binding → FlowState → DispatcherOutcome → FlowState
dispatched binding state outcome = record {
  found =
      if binding.non_consuming
      then state.found
      else if binding.auto_consuming
      then state.found || outcome.success
      else true;
  dispatcher_passes = outcome.passes;
  dispatcher_redirects = outcome.redirects;
  processing = not (switches_submap binding);
}

unfoldable pub push_outcomes :
    Binding → FlowState → List FlowState → List DispatcherOutcome → List FlowState
push_outcomes binding state next [] = next
push_outcomes binding state next (outcome ∷ outcomes) =
    push_outcomes binding state (push_new next (dispatched binding state outcome)) outcomes

-- The body of the loop over the previous states.
unfoldable pub push_state : Binding → List FlowState → FlowState → List FlowState
push_state binding next state =
    if not state.processing
    then next ++ state ∷ []
    else if not (runs_on_press binding)
    then push_new next (passed_over binding state)
    else push_outcomes binding state next (dispatcher_outcomes binding)

unfoldable pub push_states : Binding → List FlowState → List FlowState → List FlowState
push_states binding next [] = next
push_states binding next (state ∷ states) =
    push_states binding (push_state binding next state) states

-- One round of the loop over the matches.
unfoldable pub next_states : BindingMatch → List FlowState → List FlowState
next_states matched states =
    push_states matched.binding (if may_not_match matched.certainty then states else []) states

unfoldable pub flow_states : List BindingMatch → List FlowState → List FlowState
flow_states [] states = states
flow_states (matched ∷ matches) states = flow_states matches (next_states matched states)

abbrev pub at_press : FlowState
at_press = record {
  found = false;
  dispatcher_passes = false;
  dispatcher_redirects = false;
  processing = true;
}

unfoldable pub state_outcome : FlowState → Propagation
state_outcome state =
    if state.dispatcher_redirects
    then Propagation.redirected
    else if state.dispatcher_passes || not state.found
    then Propagation.continues
    else Propagation.stops

abbrev pub propagation_eq : Propagation → Propagation → Bool
propagation_eq Propagation.continues Propagation.continues = true
propagation_eq Propagation.stops Propagation.stops = true
propagation_eq Propagation.redirected Propagation.redirected = true
propagation_eq Propagation.indeterminate Propagation.indeterminate = true
propagation_eq _ _ = false

abbrev pub all_are : Propagation → List Propagation → Bool
all_are p = all (λ (outcome : Propagation). propagation_eq outcome p)

unfoldable pub joint_propagation : List Propagation → Propagation
joint_propagation outcomes =
    if all_are Propagation.continues outcomes
    then Propagation.continues
    else if all_are Propagation.stops outcomes
    then Propagation.stops
    else if all_are Propagation.redirected outcomes
    then Propagation.redirected
    else Propagation.indeterminate

unfoldable pub binding_propagation : List BindingMatch → Propagation
binding_propagation matches =
    joint_propagation (map state_outcome (flow_states matches (at_press ∷ [])))
