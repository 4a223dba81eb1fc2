-- ===== src/Route/Examples.antt =====
-- The route of src/layers/inspection.rs, for adapters that answer alike for every key.
use whykey.Prelude.{
  ◌↔◌, is_empty, trim, split_once, contains_char, text, Text, ℕ, String, List, Option, ◌≡◌, refl,
  true, false, some, none, [], ◌∷◌, all, drop,
}
use whykey.Key.Modifiers.{modifier_mask}
use whykey.Key.Names.{normalize_key, is_known_key}
use whykey.Key.Combo.{KeyCombo, parse_query, parse_combo, strip_modifiers, modifier_round, main_key}
use whykey.Route.Model.{
  LayerId, Outcome, LayerResult, TerminalInput, InputConfidence, BindingEvidence, BindingScope,
  new_result,
}
use whykey.Route.Request.{PhysicalInput, InspectRequest, Adapters, StepDelivery, no_delivery}
use whykey.Route.Chain.{Clock, after_terminal, inspect_chain}
use whykey.Route.Spec.{route, shown, Reports, route_input}
use whykey.Route.Refinement.{inspect_chain-Reports}
use whykey.Route.Delivery.{ShellDelivery, outcome_run, route_shell, inspect_chain-ShellDelivery}
use whykey.Route.Sequence.{Moment, new_request, inspect_sequence}
use whykey.Route.Sequenced.{Routes, inspect_sequence-Routes}
use whykey.Route.Remap.{route_after_remapper, remap_target}
use whykey.Route.Remapped.{is_hedged, unparsed_redirect-hedged}
use whykey.Route.Stale.{Generation, changed_generations, mark_stale_generation_evidence}
use whykey.Hyprland.States.{In}
use whykey.Route.Noted.{Changed, IsMarked, mark_stale-IsMarked}

abbrev finding : LayerId → Outcome → LayerResult
finding id outcome = new_result (text "layer") id outcome (text "found") (text "detail" ∷ [])

abbrev ctrl_c : KeyCombo
ctrl_c = record { modifiers = 4; key = text "C"; alone = false }

abbrev etx : TerminalInput
etx = record { bytes = 3 ∷ []; description = text "ETX"; confidence = InputConfidence.predicted }

-- Every layer lets the key pass but the application, which takes it.
abbrev quiet : Adapters (Unit {0})
quiet = record {
  compositor = λ key input. finding LayerId.compositor Outcome.pass;
  refine_x11_grab = λ key result. result;
  terminal = λ key flags input. (finding LayerId.terminal Outcome.pass, some etx);
  ime = some (finding LayerId.ime Outcome.pass);
  in_multiplexer = true;
  tty_with_termios = λ input termios. finding LayerId.tty Outcome.pass;
  tty_input = λ input. finding LayerId.tty Outcome.handled_and_passed;
  tty_unknown = finding LayerId.tty Outcome.unknown;
  session = λ keys key bytes. finding LayerId.multiplexer Outcome.unavailable;
  application = λ key. finding LayerId.application Outcome.pass;
  application_for_pid = λ key pid source. finding LayerId.application Outcome.consumed;
  is_shell_process = λ pid. true;
  shell_sequence = λ inputs pid. finding LayerId.shell Outcome.consumed;
  shell_unknown = finding LayerId.shell Outcome.unknown;
  shell_input_for_pid = λ input pid. finding LayerId.shell Outcome.consumed;
  shell_input = λ input. finding LayerId.shell Outcome.consumed;
}

abbrev query : InspectRequest (Unit {0})
query = record (new_request (Unit {0}) ctrl_c) { force_continue = true }

abbrev late_terminal : Clock
late_terminal after_terminal = true
late_terminal _ = false

inspect_chain-Reports_example :
    Reports late_terminal
      (shown true (route quiet query))
      (inspect_chain quiet query late_terminal).0
unfolding new_request
inspect_chain-Reports_example = inspect_chain-Reports quiet query late_terminal

inspect_chain-ShellDelivery_example :
    ShellDelivery
      (route_input quiet query)
      (route_shell quiet query late_terminal)
      (outcome_run quiet query late_terminal)
inspect_chain-ShellDelivery_example = inspect_chain-ShellDelivery quiet query late_terminal

abbrev steps : List KeyCombo
steps = ctrl_c ∷ ctrl_c ∷ []

abbrev calm : ℕ → Moment
calm step = record { clock = λ _. false; generations_before = []; generations_after = [] }

abbrev no_remapper : KeyCombo → Option PhysicalInput → LayerResult
no_remapper key input = finding LayerId.remapper Outcome.pass

inspect_sequence-Routes_example :
    Routes quiet no_remapper none calm [] steps (inspect_sequence quiet no_remapper steps none calm)
inspect_sequence-Routes_example = inspect_sequence-Routes quiet no_remapper none calm steps

abbrev evidence : Text → BindingEvidence
evidence action = record {
  dispatcher = none;
  action = some action;
  description = none;
  submap = none;
  scope = BindingScope.universal;
  source = none;
  has_universal_match = false;
  uncertainty = none;
}

abbrev remapped : Text → LayerResult
remapped action = record (finding LayerId.remapper Outcome.redirected) {
  binding = some (evidence action);
}

abbrev downstream : InspectRequest (Unit {0}) → List LayerResult × StepDelivery
downstream request = (finding LayerId.compositor Outcome.consumed ∷ [], no_delivery)

macro_is_redirected : (remapped (text "macro")).outcome ≡ Outcome.redirected
unfolding new_result
macro_is_redirected = refl

macro_is_no_key : remap_target (remapped (text "macro")) ≡ none
unfolding remap_target parse_query parse_combo is_empty trim text strip_modifiers modifier_round
    split_once main_key modifier_mask contains_char normalize_key is_known_key
macro_is_no_key = refl

unparsed_redirect-hedged_example :
    all
      (λ (r : LayerResult). is_hedged r.outcome)
      (drop 1 (route_after_remapper (some (remapped (text "macro"))) query downstream).0)
    ≡ true
unparsed_redirect-hedged_example =
    unparsed_redirect-hedged (remapped (text "macro")) query downstream macro_is_redirected
      macro_is_no_key

abbrev generation : String → Generation
generation name = (text "hyprland", some (text name))

abbrev shown_results : List LayerResult
shown_results = finding LayerId.compositor Outcome.consumed ∷ []

abbrev old_generations : List Generation
old_generations = generation "1" ∷ []

abbrev new_generations : List Generation
new_generations = generation "2" ∷ []

mark_stale-IsMarked_example :
    IsMarked
      (changed_generations old_generations new_generations)
      shown_results
      (mark_stale_generation_evidence shown_results old_generations new_generations)
    × ((name : Text)
        → In name (changed_generations old_generations new_generations)
          ↔ Changed name old_generations new_generations)
mark_stale-IsMarked_example = mark_stale-IsMarked shown_results old_generations new_generations

abbrev taken : LayerResult
taken = finding LayerId.application Outcome.consumed
