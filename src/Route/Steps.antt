-- ===== src/Route/Steps.antt =====
-- src/layers/inspection.rs: the steps of the TTY driver and the session, in both orders, against
-- the groups that the specification gives them.
use mathlib.Core.List.{append_assoc}
use whykey.Prelude.{
  Bool, true, false, not, ◌||◌, ◌&&◌, List, [], ◌∷◌, ◌++◌, Option, any, ◌≡◌, refl, sym, ap, ◌∙◌,
  if◌then◌else◌, Bool-cases, inl, inr, is_some_and,
}
use whykey.Route.Model.{LayerResult, TerminalInput}
use whykey.Route.Accumulator.{
  ContinuationPolicy, append, check_deadline, should_stop, deadline_result,
}
use whykey.Route.Request.{InspectRequest, Adapters}
use whykey.Route.Chain.{
  Clock, after_tty, after_session, Run, RouteStep, inspect_tty, session_unavailable, proceed,
  application_stage, session_stage, append_steps, inspect_route_step, tty_and_session_order,
  after_step, preceding_keys,
}
use whykey.Route.Spec.{
  Group, group_stops, shown, single, step_groups, behind_session, Reports, cut, findings,
}
use whykey.Route.Stages.{
  group-Reports, single-stops, added, ended-Reports, halted-Reports, stopped-whole,
  application_stage-Reports,
}

or-true : (b : Bool) → (b || true) ≡ true
or-true true = refl
or-true false = refl

or-false : (b : Bool) → (b || false) ≡ b
or-false true = refl
or-false false = refl

and-false : (b : Bool) → (b && false) ≡ false
and-false true = refl
and-false false = refl

not-or : (a b : Bool) → (not a && not b) ≡ not (a || (b || false))
not-or true b = refl
not-or false true = refl
not-or false false = refl

-- The steps of the TTY driver and the session.
module _ {Termios : Type 0} (adapters : Adapters Termios) (request : InspectRequest Termios)
    (input : Option TerminalInput) (clock : Clock) where
  abbrev found : RouteStep → LayerResult
  found RouteStep.tty_driver = inspect_tty adapters input request.termios
  found RouteStep.session =
      adapters.session (preceding_keys request.sequence_prefix) request.key
        (is_some_and (λ _. true) input)

  abbrev goes : Bool → RouteStep → Bool
  goes force step = not (should_stop ContinuationPolicy.stop_on_blocking_result (found step) force)

  abbrev stepped : RouteStep → Run → Run
  stepped step run = record (added run (found step)) {
    delivery = (inspect_route_step adapters request input step run).1;
  }

  abbrev finish : Run × Bool → Run
  finish after = if after.1 then application_stage adapters request input clock after.0 else after.0

  abbrev late : Run → Run
  late run = record run {
    acc = record run.acc { results = run.acc.results ++ deadline_result ∷ [] };
  }

  abbrev remaining : RouteStep → List RouteStep → Bool → Run → Run → Run × Bool
  remaining step steps stop run =
      append_steps adapters request input clock steps
        (stop || not (goes run.acc.force_continue step))

  finish-if :
      (goes_on unavailable exceeded : Bool) (stopped late : Run) (rest : Run × Bool)
      → finish (
          if not goes_on && not unavailable
          then (stopped, false)
          else if exceeded
          then (late, false)
          else rest)
        ≡ (if not (goes_on || unavailable) then stopped else if exceeded then late else finish rest)
  finish-if true _ true _ _ _ = refl
  finish-if true _ false _ _ _ = refl
  finish-if false true true _ _ _ = refl
  finish-if false true false _ _ _ = refl
  finish-if false false _ _ _ _ = refl

  finish-step :
      (step : RouteStep) (steps : List RouteStep) (stop : Bool) (run : Run)
      → finish (append_steps adapters request input clock (step ∷ steps) stop run)
        ≡ proceed
            (goes run.acc.force_continue step || session_unavailable step (found step))
            (clock (after_step step))
            (stepped step run)
            (λ (r : Run). finish (
              append_steps adapters request input clock steps
                (stop || not (goes run.acc.force_continue step))
                r))
  finish-step RouteStep.tty_driver steps stop run = elim (Bool-cases (clock after_tty)) [
    | inl t ↦
        unfold append_steps inspect_route_step append check_deadline proceed in
        rw t (
          finish-if (goes run.acc.force_continue RouteStep.tty_driver)
            (session_unavailable RouteStep.tty_driver (found RouteStep.tty_driver)) true
            (stepped RouteStep.tty_driver run) (late (stepped RouteStep.tty_driver run))
            (remaining RouteStep.tty_driver steps stop run
              (late (stepped RouteStep.tty_driver run))))
    | inr f ↦
        unfold append_steps inspect_route_step append check_deadline proceed in
        rw f (
          finish-if (goes run.acc.force_continue RouteStep.tty_driver)
            (session_unavailable RouteStep.tty_driver (found RouteStep.tty_driver)) false
            (stepped RouteStep.tty_driver run) (late (stepped RouteStep.tty_driver run))
            (remaining RouteStep.tty_driver steps stop run (stepped RouteStep.tty_driver run)))
  ]
  finish-step RouteStep.session steps stop run = elim (Bool-cases (clock after_session)) [
    | inl t ↦
        unfold append_steps inspect_route_step append check_deadline proceed in
        rw t (
          finish-if (goes run.acc.force_continue RouteStep.session)
            (session_unavailable RouteStep.session (found RouteStep.session)) true
            (stepped RouteStep.session run) (late (stepped RouteStep.session run))
            (remaining RouteStep.session steps stop run (late (stepped RouteStep.session run))))
    | inr f ↦
        unfold append_steps inspect_route_step append check_deadline proceed in
        rw f (
          finish-if (goes run.acc.force_continue RouteStep.session)
            (session_unavailable RouteStep.session (found RouteStep.session)) false
            (stepped RouteStep.session run) (late (stepped RouteStep.session run))
            (remaining RouteStep.session steps stop run (stepped RouteStep.session run)))
  ]

  -- A step that stops the route unless it goes on.
  chain-Reports :
      (step : RouteStep) (steps : List RouteStep) (groups : List Group) (run : Run)
      → session_unavailable step (found step) ≡ false
      → Reports clock
          ((stepped step run).acc.results ++ shown run.acc.force_continue groups)
          (finish
            (append_steps adapters request input clock steps false (stepped step run))).acc.results
      → Reports clock
          (run.acc.results ++ shown run.acc.force_continue (single (found step) ∷ groups))
          (finish (append_steps adapters request input clock (step ∷ steps) false run)).acc.results
  chain-Reports step steps groups run available h =
      elim (Bool-cases (goes run.acc.force_continue step)) [
        | inl g ↦
            rw (finish-step step steps false run, g)
              (group-Reports (single (found step)) run.acc.results run.acc.force_continue true
                (stepped step run) (after_step step) _ groups refl
                (sym g ∙ single-stops _ (found step) run.acc.force_continue) h)
        | inr f ↦
            rw (finish-step step steps false run, f, available)
              (halted-Reports _ (after_step step) (stepped step run) _ (
                stopped-whole (single (found step)) run.acc.results run.acc.force_continue
                  (stepped step run) groups refl
                  (sym f ∙ single-stops _ (found step) run.acc.force_continue)))
      ]

  -- The last step: the application follows unless it stops the route.
  last-Reports :
      (step : RouteStep) (run : Run)
      → Reports clock
          (run.acc.results
            ++ shown run.acc.force_continue
                (single (found step) ∷ behind_session adapters request input))
          (finish (append_steps adapters request input clock (step ∷ []) false run)).acc.results
  unfolding append_steps
  last-Reports step run = elim (Bool-cases (goes run.acc.force_continue step)) [
    | inl g ↦
        rw (finish-step step [] false run, g)
          (group-Reports (single (found step)) run.acc.results run.acc.force_continue true
            (stepped step run) (after_step step)
            (λ (r : Run). application_stage adapters request input clock r)
            (behind_session adapters request input) refl
            (sym g ∙ single-stops _ (found step) run.acc.force_continue)
            (application_stage-Reports adapters request input clock (stepped step run)))
    | inr f ↦
        rw (finish-step step [] false run, f)
          (ended-Reports _ (session_unavailable step (found step)) (after_step step)
            (stepped step run)
            (stopped-whole (single (found step)) run.acc.results run.acc.force_continue
              (stepped step run) (behind_session adapters request input) refl
              (sym f ∙ single-stops _ (found step) run.acc.force_continue)))
  ]

  abbrev both : Group
  both = record (single (found RouteStep.session)) { others = found RouteStep.tty_driver ∷ [] }

  abbrev after_both : Run → Run
  after_both run = stepped RouteStep.tty_driver (stepped RouteStep.session run)

  both-results : (run : Run) → (after_both run).acc.results ≡ run.acc.results ++ findings both
  both-results run = append_assoc run.acc.results (found RouteStep.session ∷ []) _

  both-stops :
      (force : Bool) (a b : Bool)
      → goes force RouteStep.session ≡ a
      → goes force RouteStep.tty_driver ≡ b
      → (a && b) ≡ not (group_stops force both)
  both-stops force a b s t =
      sym (ap (λ (x : Bool). x && b) s)
      ∙ sym (ap (λ (y : Bool). goes force RouteStep.session && y) t)
      ∙ unfold group_stops any in not-or _ _

  -- The TTY driver behind a session that could not be inspected.
  behind_session-Reports :
      (a b : Bool) (run : Run)
      → goes run.acc.force_continue RouteStep.session ≡ a
      → goes run.acc.force_continue RouteStep.tty_driver ≡ b
      → Reports clock
          (run.acc.results
            ++ shown run.acc.force_continue (both ∷ behind_session adapters request input))
          (proceed b (clock after_tty) (after_both run) (λ (r : Run).
            finish (append_steps adapters request input clock [] (not a || not b) r))).acc.results
  unfolding append_steps
  behind_session-Reports a false run s t = halted-Reports _ after_tty (after_both run) _ (
      stopped-whole both run.acc.results run.acc.force_continue (after_both run)
        (behind_session adapters request input) (both-results run)
        (sym (and-false a) ∙ both-stops run.acc.force_continue a false s t))
  behind_session-Reports false true run s t = ended-Reports _ true after_tty (after_both run) (
      stopped-whole both run.acc.results run.acc.force_continue (after_both run)
        (behind_session adapters request input) (both-results run)
        (both-stops run.acc.force_continue false true s t))
  behind_session-Reports true true run s t =
      group-Reports both run.acc.results run.acc.force_continue true (after_both run) after_tty
        (λ (r : Run). application_stage adapters request input clock r)
        (behind_session adapters request input) (both-results run)
        (both-stops run.acc.force_continue true true s t)
        (application_stage-Reports adapters request input clock (after_both run))

  behind_session-goes :
      (run : Run)
      → Reports clock
          (run.acc.results
            ++ shown run.acc.force_continue (both ∷ behind_session adapters request input))
          (finish (
            append_steps adapters request input clock
              (RouteStep.tty_driver ∷ [])
              (not (goes run.acc.force_continue RouteStep.session))
              (stepped RouteStep.session run))).acc.results
  unfolding session_unavailable
  behind_session-goes run =
      rw
        (
          finish-step RouteStep.tty_driver [] (not (goes run.acc.force_continue RouteStep.session))
              (stepped RouteStep.session run),
          or-false (goes run.acc.force_continue RouteStep.tty_driver),
        )
        (behind_session-Reports _ _ run refl refl)

  both-whole :
      (run : Run)
      → run.acc.results
          ++ shown run.acc.force_continue (both ∷ behind_session adapters request input)
        ≡ (run.acc.results ++ found RouteStep.session ∷ [])
          ++ (found RouteStep.tty_driver
              ∷ (if group_stops run.acc.force_continue both
                  then []
                  else shown run.acc.force_continue (behind_session adapters request input)))
  both-whole run =
      unfold shown in sym (append_assoc run.acc.results (found RouteStep.session ∷ []) _)

  both-Reports :
      (run : Run)
      → session_unavailable RouteStep.session (found RouteStep.session) ≡ true
      → Reports clock
          (run.acc.results
            ++ shown run.acc.force_continue (both ∷ behind_session adapters request input))
          (finish (
            append_steps adapters request input clock
              (RouteStep.session ∷ RouteStep.tty_driver ∷ [])
              false
              run)).acc.results
  both-Reports run u = elim (Bool-cases (clock after_session)) [
    | inl t ↦
        rw
          (
            finish-step RouteStep.session (RouteStep.tty_driver ∷ []) false run,
            u,
            or-true (goes run.acc.force_continue RouteStep.session),
          )
          (unfold proceed in
            rw t (
              cut after_session _
                (found RouteStep.tty_driver
                  ∷ (if group_stops run.acc.force_continue both
                      then []
                      else shown run.acc.force_continue (behind_session adapters request input)))
                t (both-whole run) refl))
    | inr f ↦
        rw
          (
            finish-step RouteStep.session (RouteStep.tty_driver ∷ []) false run,
            u,
            or-true (goes run.acc.force_continue RouteStep.session),
          )
          (unfold proceed in rw f (behind_session-goes run))
  ]

  ordered-Reports :
      (in_multiplexer : Bool) (run : Run)
      → Reports clock
          (run.acc.results
            ++ shown run.acc.force_continue (
                step_groups in_multiplexer (found RouteStep.tty_driver) (found RouteStep.session)
                ++ behind_session adapters request input))
          (finish (
            append_steps adapters request input clock
              (tty_and_session_order in_multiplexer)
              false
              run)).acc.results
  unfolding tty_and_session_order step_groups
  ordered-Reports false run =
      chain-Reports RouteStep.tty_driver (RouteStep.session ∷ [])
        (single (found RouteStep.session) ∷ behind_session adapters request input) run
        (unfold session_unavailable in refl)
        (last-Reports RouteStep.session (stepped RouteStep.tty_driver run))
  ordered-Reports true run =
      elim (Bool-cases (session_unavailable RouteStep.session (found RouteStep.session))) [
        | inl u ↦ rw u (both-Reports run u)
        | inr a ↦ rw a (
            chain-Reports RouteStep.session (RouteStep.tty_driver ∷ [])
              (single (found RouteStep.tty_driver) ∷ behind_session adapters request input) run a
              (last-Reports RouteStep.tty_driver (stepped RouteStep.session run)))
      ]

  pub session_stage-Reports :
      (run : Run)
      → Reports clock
          (run.acc.results
            ++ shown run.acc.force_continue (
                step_groups adapters.in_multiplexer
                  (found RouteStep.tty_driver)
                  (found RouteStep.session)
                ++ behind_session adapters request input))
          (session_stage adapters request input clock run).acc.results
  session_stage-Reports run = unfold session_stage in ordered-Reports adapters.in_multiplexer run
