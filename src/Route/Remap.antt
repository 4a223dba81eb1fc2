-- ===== src/Route/Remap.antt =====
-- src/layers/inspection.rs: what a remapper's finding does to the rest of the route.
use whykey.Prelude.{
  Text, List, [], ◌∷◌, ◌++◌, map, Option, none, some, text, Result, ok, err, if◌then◌else◌,
}
use whykey.Key.Combo.{KeyCombo, display, parse_query}
use whykey.Route.Model.{Outcome, LayerResult, BindingEvidence, intercepts}
use whykey.Route.Accumulator.{ContinuationPolicy, should_stop}
use whykey.Route.Request.{InspectRequest, StepDelivery, no_delivery}

abbrev pub conditional_outcome : Outcome → Outcome
conditional_outcome Outcome.pass = Outcome.uncertain_continues
conditional_outcome Outcome.handled_and_passed = Outcome.handled_uncertain
conditional_outcome Outcome.consumed = Outcome.handled_uncertain
conditional_outcome Outcome.redirected = Outcome.handled_uncertain
conditional_outcome other = other

-- `conditional_on_remap`
unfoldable pub conditional_on_remap : LayerResult → LayerResult
unfolding text
conditional_on_remap result = record result {
  outcome = conditional_outcome result.outcome;
  details = result.details ++ text "conditional: an upstream remapper redirects this key" ∷ [];
}

abbrev ok_or_none {ℓ κ} : {E : Type ℓ} {A : Type κ} → Result E A → Option A
ok_or_none (ok a) = some a
ok_or_none (err e) = none

-- The key that the binding's action names, if it names one.
abbrev action_of : Option BindingEvidence → Option Text
action_of none = none
action_of (some binding) = binding.action

abbrev parse_action : Option Text → Option KeyCombo
parse_action none = none
parse_action (some action) = ok_or_none (parse_query action)

unfoldable pub remap_target : LayerResult → Option KeyCombo
remap_target remapper = parse_action (action_of remapper.binding)

unfoldable pub with_detail : LayerResult → Text → LayerResult
with_detail result detail = record result { details = result.details ++ detail ∷ [] }

abbrev pub Downstream : Type 0 → Type 0
Downstream Termios = InspectRequest Termios → List LayerResult × StepDelivery

abbrev behind : LayerResult → List LayerResult × StepDelivery → List LayerResult × StepDelivery
behind remapper rest = (remapper ∷ rest.0, rest.1)

module _ {Termios : Type 0} where
  -- The request for the remapped key. The captured keycode belongs to the original key.
  unfoldable pub redirected_request : InspectRequest Termios → KeyCombo → InspectRequest Termios
  redirected_request request target = record request { key = target; physical_input = none }

  -- A redirecting remapper, with the key that its target reads as.
  unfoldable pub redirect :
      LayerResult
      → Option KeyCombo
      → InspectRequest Termios
      → Downstream Termios
      → List LayerResult × StepDelivery
  unfolding with_detail redirected_request conditional_on_remap text
  redirect remapper (some target) request downstream =
      behind
        (with_detail remapper
          (text "downstream layers inspect the remapped key " ++ display target))
        (downstream (redirected_request request target))
  redirect remapper none request downstream = (
    with_detail remapper (
          text
            "remap target is not a key combination; downstream findings for the original key are conditional")
        ∷ map conditional_on_remap (downstream request).0,
    (downstream request).1,
  )

  abbrev after_outcome :
      Outcome
      → LayerResult
      → InspectRequest Termios
      → Downstream Termios
      → List LayerResult × StepDelivery
  after_outcome Outcome.pass remapper request downstream = downstream request
  after_outcome Outcome.redirected remapper request downstream =
      redirect remapper (remap_target remapper) request downstream
  after_outcome _ remapper request downstream =
      if should_stop ContinuationPolicy.stop_on_terminal_interception remapper
        request.force_continue
      then (remapper ∷ [], no_delivery)
      else behind remapper (downstream request)

  -- `route_after_remapper`, for a remapper layer that was asked or, past the deadline, was not.
  unfoldable pub route_after_remapper :
      Option LayerResult
      → InspectRequest Termios
      → Downstream Termios
      → List LayerResult × StepDelivery
  unfolding redirect remap_target should_stop intercepts
  route_after_remapper none request downstream = downstream request
  route_after_remapper (some remapper) request downstream =
      after_outcome remapper.outcome remapper request downstream
