-- ===== src/Route/Refinement.antt =====
-- src/layers/inspection.rs: the whole chain against the route of the specification.
use mathlib.Core.List.{append_assoc}
use whykey.Prelude.{
  Bool, true, false, not, ◌||◌, ◌&&◌, List, [], ◌∷◌, ◌++◌, Option, none, some, any, ◌≡◌, refl, sym,
  ◌∙◌, ap, Bool-cases, inl, inr,
}
use whykey.Route.Model.{LayerResult}
use whykey.Route.Accumulator.{
  ContinuationPolicy, RouteAccumulator, append, check_deadline, new_accumulator, should_stop,
}
use whykey.Route.Request.{InspectRequest, Adapters, no_delivery}
use whykey.Route.Chain.{
  Clock, at_start, after_compositor, after_terminal, Run, describe_protocol, inspect_tty,
  session_stage, terminal_stage, compositor_stage, inspect_chain, append_ime,
}
use whykey.Route.Spec.{
  Group, group_stops, shown, single, step_groups, behind_session, route, Reports, complete, cut,
  compositor_finding, terminal_finding, route_input, session_finding, optional, findings,
}
use whykey.Route.Stages.{group-Reports, single-stops, added}
use whykey.Route.Steps.{session_stage-Reports}

not-or' : (a b : Bool) → (not b && not a) ≡ not (a || (b || false))
not-or' true true = refl
not-or' true false = refl
not-or' false true = refl
not-or' false false = refl

or-false : (b : Bool) → (b || false) ≡ b
or-false true = refl
or-false false = refl

module _ {Termios : Type 0} (adapters : Adapters Termios) (request : InspectRequest Termios)
    (clock : Clock) where
  abbrev terminal_group : Group
  terminal_group = record {
    policy = ContinuationPolicy.stop_on_terminal_interception;
    first =
        describe_protocol request.protocol_flags (route_input adapters request)
          (terminal_finding adapters request).0;
    others = optional adapters.ime;
  }

  abbrev behind_terminal : List Group
  behind_terminal =
      step_groups adapters.in_multiplexer
        (inspect_tty adapters (route_input adapters request) request.termios)
        (session_finding adapters request)
      ++ behind_session adapters request (route_input adapters request)

  abbrev intercepts_route : LayerResult → Bool → Bool
  intercepts_route = should_stop ContinuationPolicy.stop_on_terminal_interception

  ime-results :
      (ime : Option LayerResult) (layer : LayerResult) (acc : RouteAccumulator)
      → (append_ime adapters
          (append acc layer ContinuationPolicy.stop_on_terminal_interception).0
          ime).0
        ≡ record acc { results = acc.results ++ layer ∷ optional ime }
  unfolding append
  ime-results none layer acc = refl
  ime-results (some result) layer acc =
      ap (λ (r : List LayerResult). record acc { results = r })
        (append_assoc acc.results (layer ∷ []) (result ∷ []))

  ime-stops :
      (ime : Option LayerResult) (layer : LayerResult) (acc : RouteAccumulator)
      → ((append_ime adapters
            (append acc layer ContinuationPolicy.stop_on_terminal_interception).0
            ime).1
          && not (intercepts_route layer acc.force_continue))
        ≡ not (
            group_stops acc.force_continue (record {
              policy = ContinuationPolicy.stop_on_terminal_interception;
              first = layer;
              others = optional ime;
            }))
  unfolding append group_stops any
  ime-stops none layer acc = ap not (sym (or-false _))
  ime-stops (some result) layer acc =
      not-or' (intercepts_route layer acc.force_continue)
        (intercepts_route result acc.force_continue)

  with-force :
      {force : Bool} (force' : Bool) (before : List LayerResult) (groups : List Group)
      {results : List LayerResult}
      → force ≡ force'
      → Reports clock (before ++ shown force groups) results
      → Reports clock (before ++ shown force' groups) results
  with-force force' before groups e h = rw (sym e) h

  abbrev with_ime : Run → RouteAccumulator
  with_ime run =
      (append_ime adapters
        (append run.acc terminal_group.first ContinuationPolicy.stop_on_terminal_interception).0
        adapters.ime).0

  terminal_stage-Reports :
      (run : Run)
      → Reports clock
          (run.acc.results ++ shown run.acc.force_continue (terminal_group ∷ behind_terminal))
          (terminal_stage adapters request clock run).acc.results
  unfolding route_input terminal_finding session_finding
  terminal_stage-Reports run =
      unfold terminal_stage in
      group-Reports terminal_group run.acc.results run.acc.force_continue _
        (record run { acc = with_ime run }) after_terminal
        (session_stage adapters request (route_input adapters request) clock) behind_terminal
        (ap (λ (a : RouteAccumulator). a.results)
          (ime-results adapters.ime terminal_group.first run.acc))
        (ime-stops adapters.ime terminal_group.first run.acc)
        (with-force run.acc.force_continue (with_ime run).results behind_terminal
          (ap (λ (a : RouteAccumulator). a.force_continue)
            (ime-results adapters.ime terminal_group.first run.acc))
          (session_stage-Reports adapters request (route_input adapters request) clock
            (record run { acc = with_ime run })))

  abbrev compositor_group : Group
  compositor_group = record (single (compositor_finding adapters request)) {
    policy = ContinuationPolicy.stop_on_terminal_interception;
  }

  compositor_stage-Reports :
      (run : Run)
      → Reports clock
          (run.acc.results ++ shown run.acc.force_continue (route adapters request))
          (compositor_stage adapters request clock run).acc.results
  unfolding route
  compositor_stage-Reports run =
      unfold compositor_stage append compositor_finding in
      group-Reports compositor_group run.acc.results run.acc.force_continue _
        (added run (compositor_finding adapters request)) after_compositor
        (terminal_stage adapters request clock) (terminal_group ∷ behind_terminal) refl
        (single-stops _ (compositor_finding adapters request) run.acc.force_continue)
        (terminal_stage-Reports (added run (compositor_finding adapters request)))

  -- Whatever the adapters answer, the findings of one pass over the chain are the groups of the
  -- route up to the first that stops it; or a part of that from its start with the deadline's
  -- notice behind it, if the clock answered at some check that the deadline was over.
  pub inspect_chain-Reports :
      Reports clock
        (shown request.force_continue (route adapters request))
        (inspect_chain adapters request clock).0
  inspect_chain-Reports = elim (Bool-cases (clock at_start)) [
    | inl t ↦
        unfold inspect_chain new_accumulator check_deadline in rw t (cut at_start [] _ t refl refl)
    | inr f ↦
        unfold inspect_chain new_accumulator check_deadline in
        rw f (
          compositor_stage-Reports (record {
            acc = record { results = []; force_continue = request.force_continue };
            delivery = no_delivery;
          }))
  ]

-- If no check finds the deadline over, the findings of one pass over the chain are exactly the
-- groups of the route up to the first that stops it.
pub inspect_chain-unhurried :
    {Termios : Type 0} (adapters : Adapters Termios) (request : InspectRequest Termios)
    → (inspect_chain adapters request (λ _. false)).0
      ≡ shown request.force_continue (route adapters request)
inspect_chain-unhurried adapters request =
    elim (inspect_chain-Reports adapters request (λ _. false)) [
      | complete e ↦ e
      | cut c seen rest t w r ↦ cc
    ]

-- The findings of all the groups.
abbrev pub all_findings : List Group → List LayerResult
all_findings [] = []
all_findings (group ∷ groups) = findings group ++ all_findings groups

any-forced :
    (policy : ContinuationPolicy) (rs : List LayerResult)
    → any (λ (r : LayerResult). should_stop policy r true) rs ≡ false
unfolding any should_stop
any-forced policy [] = refl
any-forced policy (r ∷ rs) = any-forced policy rs

shown-forced : (groups : List Group) → shown true groups ≡ all_findings groups
unfolding shown group_stops
shown-forced [] = refl
shown-forced (group ∷ groups) =
    rw (any-forced group.policy (findings group))
      (ap (λ (t : List LayerResult). findings group ++ t) (shown-forced groups))

-- If the request forces the route to continue and no check finds the deadline over, then the
-- findings of one pass over the chain are those of all the groups that the route has, in order.
pub inspect_chain-forced :
    {Termios : Type 0} (adapters : Adapters Termios) (request : InspectRequest Termios)
    → request.force_continue ≡ true
    → (inspect_chain adapters request (λ _. false)).0 ≡ all_findings (route adapters request)
inspect_chain-forced adapters request forced =
    inspect_chain-unhurried adapters request
    ∙ ap (λ (force : Bool). shown force (route adapters request)) forced
    ∙ shown-forced (route adapters request)
