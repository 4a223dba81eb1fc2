-- ===== src/Route/Chain.antt =====
-- src/layers/inspection.rs: the default chain of layers behind the remapper. Each check of the
-- deadline has a name, and the clock is a function that answers each of them.
mod Inputs
unfoldable pub use Inputs.*
use whykey.Prelude.{
  ℕ, ◌-◌, ◌+◌, ◌/◌, ◌%◌, Bool, true, false, not, ◌&&◌, ◌||◌, Text, List, [], ◌∷◌, ◌++◌, Option,
  none, some, text, strip_prefix, is_some_and, ltb, leb, ◌==◌, if◌then◌else◌,
}
use whykey.Key.Combo.{KeyCombo}
use whykey.Route.Model.{LayerId, Outcome, LayerResult, TerminalInput, InputConfidence}
use whykey.Route.Accumulator.{
  ContinuationPolicy, RouteAccumulator, new_accumulator, append, intercepted, check_deadline,
}
use whykey.Route.Request.{SequencePrefix, InspectRequest, StepDelivery, no_delivery, Adapters}

module _ {Termios : Type 0} (adapters : Adapters Termios) where
  unfoldable pub inspect_shell :
      Option SequencePrefix → Option TerminalInput → Option ℕ → LayerResult
  unfolding earlier_steps
  inspect_shell sequence_prefix input target = elim (earlier_steps sequence_prefix) [
    | some prefix ↦ elim input [
      | none ↦ adapters.shell_unknown
      | some bytes ↦
          if prefix.shell_input_unknown
          then adapters.shell_unknown
          else adapters.shell_sequence (prefix.shell_inputs ++ bytes ∷ []) target
    ]
    | none ↦ elim input [
      | none ↦ adapters.shell_unknown
      | some bytes ↦ elim target [
        | some pid ↦ adapters.shell_input_for_pid bytes pid
        | none ↦ adapters.shell_input bytes
      ]
    ]
  ]

  unfoldable pub inspect_tty : Option TerminalInput → Option Termios → LayerResult
  inspect_tty none termios = adapters.tty_unknown
  inspect_tty (some input) none = adapters.tty_input input
  inspect_tty (some input) (some termios) = adapters.tty_with_termios input termios

  -- The closure that `append_tty_and_session` calls, with what it does to the delivery.
  unfoldable pub inspect_route_step :
      InspectRequest Termios → Option TerminalInput → RouteStep → Run → LayerResult × StepDelivery
  unfolding inspect_tty intercepted
  inspect_route_step request input RouteStep.tty_driver run =
      (inspect_tty input request.termios, run.delivery)
  inspect_route_step request input RouteStep.session run = (
    adapters.session (preceding_keys request.sequence_prefix) request.key
        (is_some_and (λ _. true) input),
    (if intercepted run.acc
        then run.delivery
        else record run.delivery { multiplexer_key = some request.key }),
  )

  -- The loop of `append_tty_and_session`, over the steps that are left.
  unfoldable pub append_steps :
      InspectRequest Termios
      → Option TerminalInput
      → Clock
      → List RouteStep
      → Bool
      → Run
      → Run × Bool
  unfolding inspect_route_step append check_deadline session_unavailable
  append_steps request input clock [] stop_after_steps run = (run, not stop_after_steps)
  append_steps request input clock (step ∷ steps) stop_after_steps run =
      let (result, delivery) = inspect_route_step request input step run in
      let (acc, goes_on) = append run.acc result ContinuationPolicy.stop_on_blocking_result in
      let (checked, exceeded) = check_deadline (clock (after_step step)) acc in
      let rest =
        append_steps request input clock steps (stop_after_steps || not goes_on)
          (record { acc = checked; delivery = delivery }) in
      if not goes_on && not (session_unavailable step result)
      then (record { acc = acc; delivery = delivery }, false)
      else if exceeded
      then (record { acc = checked; delivery = delivery }, false)
      else rest

  -- 6. The shell, if it is the endpoint.
  unfoldable pub shell_stage :
      InspectRequest Termios → Option TerminalInput → Clock → TargetEndpoint → Run → Run
  unfolding inspect_shell append check_deadline intercepted
  shell_stage request input clock TargetEndpoint.interactive_application run = run
  shell_stage request input clock TargetEndpoint.shell run =
      let delivery : StepDelivery =
        if intercepted run.acc
        then run.delivery
        else record run.delivery { shell_input = some input } in
      let result = inspect_shell request.sequence_prefix input request.application_pid in
      let (acc, goes_on) = append run.acc result ContinuationPolicy.stop_on_blocking_result in
      record { acc = (check_deadline (clock after_shell) acc).0; delivery = delivery }

  unfoldable pub inspect_application : InspectRequest Termios → LayerResult
  inspect_application request = elim request.application_pid [
    | none ↦ adapters.application request.key
    | some pid ↦ adapters.application_for_pid request.key pid request.application_source
  ]

  -- Whether the selected process is a shell.
  unfoldable pub target_is_shell : InspectRequest Termios → Option Bool
  target_is_shell request = elim request.application_pid [
    | none ↦ none
    | some pid ↦ some (adapters.is_shell_process pid)
  ]

  -- 5. The application, and what comes after it.
  unfoldable pub application_stage :
      InspectRequest Termios → Option TerminalInput → Clock → Run → Run
  unfolding inspect_application target_is_shell select_target_endpoint append proceed shell_stage
  application_stage request input clock run =
      let result = inspect_application request in
      let endpoint = select_target_endpoint (target_is_shell request) result in
      let (acc, goes_on) = append run.acc result ContinuationPolicy.stop_on_blocking_result in
      proceed goes_on (clock after_application) (record run { acc = acc })
        (shell_stage request input clock endpoint)

  -- 3 and 4. The TTY driver and the session, and what comes after them.
  unfoldable pub session_stage : InspectRequest Termios → Option TerminalInput → Clock → Run → Run
  unfolding append_steps tty_and_session_order application_stage
  session_stage request input clock run =
      let (after, goes_on) =
        append_steps request input clock (tty_and_session_order adapters.in_multiplexer) false
          run in
      if goes_on then application_stage request input clock after else after

  abbrev pub append_ime : RouteAccumulator → Option LayerResult → RouteAccumulator × Bool
  append_ime acc none = (acc, true)
  append_ime acc (some result) = append acc result ContinuationPolicy.stop_on_terminal_interception

  -- 2. The terminal and the input method, and what comes after them.
  unfoldable pub terminal_stage : InspectRequest Termios → Clock → Run → Run
  unfolding available_input describe_protocol append proceed session_stage
  terminal_stage request clock run =
      let (layer, normal_input) =
        adapters.terminal request.key request.protocol_flags request.physical_input in
      let input = available_input normal_input request.observed_bytes in
      let described = describe_protocol request.protocol_flags input layer in
      let (acc, terminal_continues) =
        append run.acc described ContinuationPolicy.stop_on_terminal_interception in
      let (with_ime, ime_continues) = append_ime acc adapters.ime in
      proceed (ime_continues && terminal_continues) (clock after_terminal)
        (record run { acc = with_ime }) (session_stage request input clock)

  -- 1. The compositor, and what comes after it.
  unfoldable pub compositor_stage : InspectRequest Termios → Clock → Run → Run
  unfolding append proceed terminal_stage
  compositor_stage request clock run =
      let result =
        adapters.refine_x11_grab request.key
          (adapters.compositor request.key request.physical_input) in
      let (acc, goes_on) = append run.acc result ContinuationPolicy.stop_on_terminal_interception in
      proceed goes_on (clock after_compositor) (record run { acc = acc })
        (terminal_stage request clock)

  -- `inspect_default_chain_inner_without_remapper`
  unfoldable pub inspect_chain : InspectRequest Termios → Clock → List LayerResult × StepDelivery
  unfolding new_accumulator check_deadline compositor_stage
  inspect_chain request clock =
      let (acc, exceeded) =
        check_deadline (clock at_start) (new_accumulator request.force_continue) in
      let run : Run = record { acc = acc; delivery = no_delivery } in
      if exceeded then (acc.results, no_delivery) else (
        (compositor_stage request clock run).acc.results,
        (compositor_stage request clock run).delivery,
      )

  -- `inspect_alone_without_remapper`, behind `inspect_compositor`.
  unfoldable pub inspect_alone : InspectRequest Termios → Clock → List LayerResult
  unfolding new_accumulator check_deadline append
  inspect_alone request clock =
      let (acc, exceeded) =
        check_deadline (clock at_start) (new_accumulator request.force_continue) in
      if exceeded
      then acc.results
      else (append acc (adapters.compositor request.key request.physical_input)
          ContinuationPolicy.stop_on_terminal_interception).0.results
