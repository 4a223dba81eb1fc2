-- ===== src/Route/Delivery.antt =====
-- src/layers/inspection.rs: when the shell counts as reached.
use mathlib.Core.List.{append_assoc}
use whykey.Prelude.{
  Bool, true, false, not, ◌||◌, ◌&&◌, List, [], ◌∷◌, ◌++◌, any, Option, none, some, ◌≡◌, refl,
  if◌then◌else◌, Bool-cases, inl, inr,
}
use whykey.Route.Model.{LayerResult, TerminalInput, intercepts}
use whykey.Route.Accumulator.{
  ContinuationPolicy, append, check_deadline, intercepted, new_accumulator, deadline_result,
}
use whykey.Route.Request.{InspectRequest, Adapters, no_delivery}
use whykey.Route.Chain.{
  after_application, inspect_application, select_target_endpoint, target_is_shell,
  tty_and_session_order, after_compositor, after_terminal, append_ime, describe_protocol, Clock,
  RouteStep, TargetEndpoint, Run, after_shell, at_start, after_step, proceed, inspect_shell,
  inspect_route_step, append_steps, shell_stage, application_stage, session_stage, terminal_stage,
  compositor_stage, inspect_chain, session_unavailable,
}
use whykey.Route.Spec.{route_input, terminal_finding}

-- The shell was not reached; or it was, by the input, and then it stands in the route behind
-- findings none of which took the key.
pub data ShellDelivery (input : Option TerminalInput) (shell : LayerResult) (run : Run)
    : Type 0 where
  unreached : run.delivery.shell_input ≡ none → ShellDelivery input shell run
  reached :
      (before late : List LayerResult)
      → run.delivery.shell_input ≡ some input
      → run.acc.results ≡ before ++ shell ∷ late
      → any (λ (r : LayerResult). intercepts r.outcome) before ≡ false
      → ShellDelivery input shell run

module _ {input : Option TerminalInput} {shell : LayerResult} where
  proceed-ShellDelivery :
      (goes_on exceeded : Bool) (run : Run) (next : Run → Run)
      → run.delivery.shell_input ≡ none
      → ShellDelivery input shell (next run)
      → ShellDelivery input shell (proceed goes_on exceeded run next)
  unfolding proceed
  proceed-ShellDelivery false exceeded run next u h = unreached u
  proceed-ShellDelivery true true run next u h = unreached u
  proceed-ShellDelivery true false run next u h = h

forced :
    {input : Option TerminalInput} {shell : LayerResult} (force : Bool) {run : Run}
    → ShellDelivery input shell run
    → ShellDelivery input shell (record run { acc = record run.acc { force_continue = force } })
forced force (unreached u) = unreached u
forced force (reached before late d r n) = reached before late d r n

module _ {Termios : Type 0} (adapters : Adapters Termios) (request : InspectRequest Termios)
    (input : Option TerminalInput) (clock : Clock) where
  abbrev shell_result : LayerResult
  shell_result = inspect_shell adapters request.sequence_prefix input request.application_pid

  shell_stage-ShellDelivery :
      (endpoint : TargetEndpoint) (run : Run)
      → run.delivery.shell_input ≡ none
      → ShellDelivery input shell_result (shell_stage adapters request input clock endpoint run)
  shell_stage-ShellDelivery TargetEndpoint.interactive_application run u =
      unfold shell_stage in unreached u
  shell_stage-ShellDelivery TargetEndpoint.shell run u = elim (Bool-cases (intercepted run.acc)) [
    | inl t ↦ unfold shell_stage in rw t (unreached u)
    | inr f ↦ elim (Bool-cases (clock after_shell)) [
      | inl t ↦
          unfold shell_stage append check_deadline in
          rw (f, t)
            (reached run.acc.results (deadline_result ∷ []) refl (append_assoc run.acc.results _ _)
              (unfold intercepted in f))
      | inr t ↦
          unfold shell_stage append check_deadline in
          rw (f, t) (reached run.acc.results [] refl refl (unfold intercepted in f))
    ]
  ]

  abbrev application : LayerResult
  application = inspect_application adapters request

  application_stage-ShellDelivery :
      (run : Run)
      → run.delivery.shell_input ≡ none
      → ShellDelivery input shell_result (application_stage adapters request input clock run)
  unfolding application_stage append
  application_stage-ShellDelivery run u =
      proceed-ShellDelivery
        (append run.acc application ContinuationPolicy.stop_on_blocking_result).1
        (clock after_application)
        (record run {
          acc = (append run.acc application ContinuationPolicy.stop_on_blocking_result).0;
        })
        (shell_stage adapters request input clock
          (select_target_endpoint (target_is_shell adapters request) application))
        u
        (shell_stage-ShellDelivery
          (select_target_endpoint (target_is_shell adapters request) application)
          (record run {
            acc = (append run.acc application ContinuationPolicy.stop_on_blocking_result).0;
          })
          u)

  abbrev Undelivered : Run × Bool → Type 0
  Undelivered after = after.0.delivery.shell_input ≡ none

  either-Undelivered :
      (a b : Bool) (x y z : Run × Bool)
      → Undelivered x
      → Undelivered y
      → Undelivered z
      → Undelivered (if a then x else if b then y else z)
  either-Undelivered true b x y z hx hy hz = hx
  either-Undelivered false true x y z hx hy hz = hy
  either-Undelivered false false x y z hx hy hz = hz

  inspect_route_step_undelivered :
      (step : RouteStep) (run : Run)
      → run.delivery.shell_input ≡ none
      → (inspect_route_step adapters request input step run).1.shell_input ≡ none
  unfolding inspect_route_step
  inspect_route_step_undelivered RouteStep.tty_driver run u = u
  inspect_route_step_undelivered RouteStep.session run u = elim (Bool-cases (intercepted run.acc)) [
    | inl t ↦ rw t u
    | inr f ↦ rw f u
  ]

  append_steps-Undelivered :
      (steps : List RouteStep) (stop : Bool) (run : Run)
      → run.delivery.shell_input ≡ none
      → Undelivered (append_steps adapters request input clock steps stop run)
  unfolding append_steps
  append_steps-Undelivered [] stop run u = u
  append_steps-Undelivered (step ∷ steps) stop run u =
      let d = inspect_route_step_undelivered step run u in
      let (result, delivery) = inspect_route_step adapters request input step run in
      let (acc, goes_on) = append run.acc result ContinuationPolicy.stop_on_blocking_result in
      let (checked, exceeded) = check_deadline (clock (after_step step)) acc in
      let late : Run = record { acc = checked; delivery = delivery } in
      either-Undelivered (not goes_on && not (session_unavailable step result)) exceeded
        (record { acc = acc; delivery = delivery }, false) (late, false)
        (append_steps adapters request input clock steps (stop || not goes_on) late) d d
        (append_steps-Undelivered steps (stop || not goes_on) late d)

  continued :
      (after : Run × Bool)
      → Undelivered after
      → ShellDelivery input shell_result
          (if after.1 then application_stage adapters request input clock after.0 else after.0)
  continued (run, true) u = application_stage-ShellDelivery run u
  continued (run, false) u = unreached u

  session_stage-ShellDelivery :
      (run : Run)
      → run.delivery.shell_input ≡ none
      → ShellDelivery input shell_result (session_stage adapters request input clock run)
  unfolding session_stage
  session_stage-ShellDelivery run u =
      continued
        (append_steps adapters request input clock (tty_and_session_order adapters.in_multiplexer)
          false run)
        (append_steps-Undelivered (tty_and_session_order adapters.in_multiplexer) false run u)

module _ {Termios : Type 0} (adapters : Adapters Termios) (request : InspectRequest Termios)
    (clock : Clock) where
  abbrev pub route_shell : LayerResult
  route_shell =
      inspect_shell adapters request.sequence_prefix (route_input adapters request)
        request.application_pid

  abbrev intercepting : ContinuationPolicy
  intercepting = ContinuationPolicy.stop_on_terminal_interception

  terminal_stage-ShellDelivery :
      (run : Run)
      → run.delivery.shell_input ≡ none
      → ShellDelivery
          (route_input adapters request)
          route_shell
          (terminal_stage adapters request clock run)
  unfolding terminal_stage route_input terminal_finding
  terminal_stage-ShellDelivery run u =
      let input = route_input adapters request in
      let described =
        describe_protocol request.protocol_flags input (terminal_finding adapters request).0 in
      let (acc, goes_on) = append run.acc described intercepting in
      let (with_ime, ime_continues) = append_ime adapters acc adapters.ime in
      proceed-ShellDelivery (ime_continues && goes_on) (clock after_terminal)
        (record run { acc = with_ime }) (session_stage adapters request input clock) u
        (session_stage-ShellDelivery adapters request input clock (record run { acc = with_ime }) u)

  compositor_stage-ShellDelivery :
      (run : Run)
      → run.delivery.shell_input ≡ none
      → ShellDelivery
          (route_input adapters request)
          route_shell
          (compositor_stage adapters request clock run)
  unfolding compositor_stage
  compositor_stage-ShellDelivery run u =
      let result =
        adapters.refine_x11_grab request.key
          (adapters.compositor request.key request.physical_input) in
      let (acc, goes_on) = append run.acc result intercepting in
      proceed-ShellDelivery goes_on (clock after_compositor) (record run { acc = acc })
        (terminal_stage adapters request clock) u
        (terminal_stage-ShellDelivery (record run { acc = acc }) u)

  abbrev pub outcome_run : Run
  outcome_run = record {
    acc = record {
      results = (inspect_chain adapters request clock).0;
      force_continue = request.force_continue;
    };
    delivery = (inspect_chain adapters request clock).1;
  }

  -- In one pass over the chain, either nothing is delivered to the shell; or exactly the input that
  -- the terminal sends, or that was captured, is, and then the shell's finding stands in the route
  -- behind findings none of which consumed or redirected the key.
  pub inspect_chain-ShellDelivery :
      ShellDelivery (route_input adapters request) route_shell outcome_run
  inspect_chain-ShellDelivery = elim (Bool-cases (clock at_start)) [
    | inl t ↦ unfold inspect_chain new_accumulator check_deadline in rw t (unreached refl)
    | inr f ↦
        unfold inspect_chain new_accumulator check_deadline in
        rw f (
          forced request.force_continue (
            compositor_stage-ShellDelivery
              (record {
                acc = record { results = []; force_continue = request.force_continue };
                delivery = no_delivery;
              })
              refl))
  ]
