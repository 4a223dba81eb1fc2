-- ===== src/Route/Spec.antt =====
-- What the chain of src/layers/inspection.rs promises: the layers in groups, each shown whole, up
-- to the first group that holds a finding which stops the route.
use whykey.Prelude.{Bool, true, List, [], ◌∷◌, ◌++◌, Option, none, some, any, ◌≡◌, if◌then◌else◌}
use whykey.Route.Model.{LayerResult, TerminalInput}
use whykey.Route.Accumulator.{ContinuationPolicy, should_stop, deadline_result}
use whykey.Route.Request.{InspectRequest, Adapters}
use whykey.Route.Chain.{
  Checkpoint, Clock, RouteStep, TargetEndpoint, available_input, describe_protocol, preceding_keys,
  inspect_tty, inspect_shell, inspect_application, target_is_shell, select_target_endpoint,
  session_unavailable,
}
use whykey.Prelude.{is_some_and}

pub record Group : Type 0 where
  pub policy : ContinuationPolicy
  pub first : LayerResult
  pub others : List LayerResult

abbrev pub findings : Group → List LayerResult
findings group = group.first ∷ group.others

unfoldable pub group_stops : Bool → Group → Bool
group_stops force group =
    any (λ (r : LayerResult). should_stop group.policy r force) (findings group)

-- The groups up to the first that stops the route, that one included.
unfoldable pub shown : Bool → List Group → List LayerResult
shown force [] = []
shown force (group ∷ groups) =
    findings group ++ (if group_stops force group then [] else shown force groups)

abbrev pub single : LayerResult → Group
single result = record {
  policy = ContinuationPolicy.stop_on_blocking_result;
  first = result;
  others = [];
}

abbrev pub optional : Option LayerResult → List LayerResult
optional none = []
optional (some result) = result ∷ []

-- A multiplexer that cannot be inspected is shown together with the TTY driver of its pane.
unfoldable pub step_groups : Bool → LayerResult → LayerResult → List Group
step_groups in_multiplexer tty session =
    if in_multiplexer
    then (if session_unavailable RouteStep.session session
        then record (single session) { others = tty ∷ [] } ∷ []
        else single session ∷ single tty ∷ [])
    else single tty ∷ single session ∷ []

unfoldable pub shell_groups : TargetEndpoint → LayerResult → List Group
shell_groups TargetEndpoint.shell result = single result ∷ []
shell_groups TargetEndpoint.interactive_application result = []

module _ {Termios : Type 0} (adapters : Adapters Termios) (request : InspectRequest Termios) where
  unfoldable pub compositor_finding : LayerResult
  compositor_finding =
      adapters.refine_x11_grab request.key (adapters.compositor request.key request.physical_input)

  unfoldable pub terminal_finding : LayerResult × Option TerminalInput
  terminal_finding = adapters.terminal request.key request.protocol_flags request.physical_input

  -- The bytes that the terminal sends, or those that were captured.
  unfoldable pub route_input : Option TerminalInput
  route_input = available_input terminal_finding.1 request.observed_bytes

  unfoldable pub session_finding : LayerResult
  session_finding =
      adapters.session (preceding_keys request.sequence_prefix) request.key
        (is_some_and (λ _. true) route_input)

  -- The application, and the shell if it is the endpoint, for the input that reaches them.
  unfoldable pub behind_session : Option TerminalInput → List Group
  behind_session input =
      let application = inspect_application adapters request in
      single application
      ∷ shell_groups (select_target_endpoint (target_is_shell adapters request) application)
          (inspect_shell adapters request.sequence_prefix input request.application_pid)

  -- The whole route: the compositor, the terminal with the input method, the TTY driver and the
  -- session, the application, and the shell if it is the endpoint.
  unfoldable pub route : List Group
  route =
      record (single compositor_finding) {
        policy = ContinuationPolicy.stop_on_terminal_interception;
      }
      ∷ record {
        policy = ContinuationPolicy.stop_on_terminal_interception;
        first = describe_protocol request.protocol_flags route_input terminal_finding.0;
        others = optional adapters.ime;
      }
      ∷ (step_groups adapters.in_multiplexer (inspect_tty adapters route_input request.termios)
            session_finding
          ++ behind_session route_input)

-- A report against the whole route: all of it, or a part from its start and the deadline's notice
-- behind it, if the clock said at some check that the deadline was over.
pub data Reports (clock : Clock) (whole results : List LayerResult) : Type 0 where
  complete : results ≡ whole → Reports clock whole results
  cut :
      (c : Checkpoint) (seen rest : List LayerResult)
      → clock c ≡ true
      → whole ≡ seen ++ rest
      → results ≡ seen ++ deadline_result ∷ []
      → Reports clock whole results
