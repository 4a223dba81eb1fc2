-- ===== src/Route/Sequence.antt =====
-- src/layers/inspection.rs: one step, and the steps of a key sequence, each with what the steps before
-- it delivered.
use whykey.Prelude.{
  ℕ, suc, Bool, true, false, Text, List, [], ◌∷◌, Option, none, some, if◌then◌else◌, ◌==◌,
}
use whykey.Key.Combo.{KeyCombo}
use whykey.Route.Model.{LayerResult}
use whykey.Route.Request.{
  PhysicalInput, SequencePrefix, InspectRequest, StepDelivery, no_delivery, record_delivery,
  Adapters,
}
use whykey.Route.Chain.{Clock, before_remapper, inspect_chain, inspect_alone}
use whykey.Route.Remap.{route_after_remapper}
use whykey.Route.Stale.{Generation, mark_stale_generation_evidence}

-- What can change from one step to the next: the clock, and the generations of the configurations
-- before and after the step.
pub record Moment : Type 0 where
  pub clock : Clock
  pub generations_before : List Generation
  pub generations_after : List Generation

-- `InspectRequest::new`
unfoldable pub new_request : (Termios : Type 0) → KeyCombo → InspectRequest Termios
new_request Termios key = record {
  key = key;
  force_continue = false;
  protocol_flags = none;
  observed_bytes = none;
  physical_input = none;
  termios = none;
  application_pid = none;
  application_source = none;
  sequence_prefix = none;
}

abbrev pub no_prefix : SequencePrefix
no_prefix = record { multiplexer_keys = []; shell_inputs = []; shell_input_unknown = false }

module _ {Termios : Type 0} (adapters : Adapters Termios)
    (remapper : KeyCombo → Option PhysicalInput → LayerResult) where
  unfoldable pub downstream_chain : Clock → InspectRequest Termios → List LayerResult × StepDelivery
  downstream_chain clock request =
      if request.key.alone
      then (inspect_alone adapters request clock, no_delivery)
      else inspect_chain adapters request clock

  unfoldable pub inspect_step : InspectRequest Termios → Moment → List LayerResult × StepDelivery
  unfolding downstream_chain
  inspect_step request moment =
      let finding : Option LayerResult =
        if moment.clock before_remapper
        then none
        else some (remapper request.key request.physical_input) in
      let (results, delivery) =
        route_after_remapper finding request (downstream_chain moment.clock) in
      (
        mark_stale_generation_evidence results moment.generations_before moment.generations_after,
        delivery,
      )

  abbrev pub with_target :
      Option (ℕ × Option Text) → InspectRequest Termios → InspectRequest Termios
  with_target none request = request
  with_target (some target) request = record request {
    force_continue = true;
    application_pid = some target.0;
    application_source = target.1;
  }

  -- The request of one step. The first step has no prefix.
  unfoldable pub step_request :
      Option (ℕ × Option Text) → Bool → SequencePrefix → KeyCombo → InspectRequest Termios
  unfolding new_request
  step_request target first prefix key = record (with_target target (new_request Termios key)) {
    sequence_prefix = if first then none else some prefix;
  }

  unfoldable pub inspect_steps :
      Option (ℕ × Option Text)
      → (ℕ → Moment)
      → ℕ
      → SequencePrefix
      → List KeyCombo
      → List (List LayerResult)
  unfolding step_request inspect_step record_delivery
  inspect_steps target moments index prefix [] = []
  inspect_steps target moments index prefix (key ∷ keys) =
      let (results, delivery) =
        inspect_step (step_request target (index == 0) prefix key) (moments index) in
      let rest = inspect_steps target moments (suc index) (record_delivery delivery prefix) keys in
      results ∷ rest

  -- `inspect_sequence`
  unfoldable pub inspect_sequence :
      List KeyCombo → Option (ℕ × Option Text) → (ℕ → Moment) → List (List LayerResult)
  unfolding inspect_steps
  inspect_sequence keys target moments = inspect_steps target moments 0 no_prefix keys
