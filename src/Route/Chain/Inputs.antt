-- ===== src/Route/Chain/Inputs.antt =====
-- src/layers/inspection.rs and src/layers/model.rs: the checks of the deadline, the bytes that reach the
-- terminal's clients, and where the route ends.
use whykey.Prelude.{
  ℕ, ◌/◌, ◌%◌, Bool, true, false, not, ◌&&◌, ◌||◌, Text, List, [], ◌∷◌, ◌++◌, Option, none, some,
  text, strip_prefix, hex_digit, is_some_and, leb, ◌==◌, if◌then◌else◌,
}
use whykey.Key.Combo.{KeyCombo}
use whykey.Route.Model.{LayerId, Outcome, LayerResult, TerminalInput, InputConfidence}
use whykey.Route.Accumulator.{RouteAccumulator, check_deadline}
use whykey.Route.Request.{SequencePrefix, StepDelivery}

unfoldable pub format_byte : ℕ → Text
unfolding text
format_byte byte =
    if byte == 0x1b
    then text "ESC"
    else if leb 0x20 byte && leb byte 0x7e
    then byte ∷ []
    else text "0x" ++ hex_digit (byte / 16) ∷ hex_digit (byte % 16) ∷ []

-- `format_bytes`: the bytes with a space between each two.
unfoldable pub format_bytes : List ℕ → Text
unfolding format_byte
format_bytes [] = []
format_bytes (byte ∷ []) = format_byte byte
format_bytes (byte ∷ next ∷ rest) = format_byte byte ++ (32 ∷ format_bytes (next ∷ rest))

pub data Checkpoint : Type 0 where
  before_remapper at_start after_compositor after_terminal after_tty after_session : Checkpoint
  after_application after_shell : Checkpoint

abbrev pub Clock : Type 0
Clock = Checkpoint → Bool

pub data RouteStep : Type 0 where
  tty_driver session : RouteStep

unfoldable pub tty_and_session_order : Bool → List RouteStep
tty_and_session_order in_multiplexer =
    if in_multiplexer
    then RouteStep.session ∷ RouteStep.tty_driver ∷ []
    else RouteStep.tty_driver ∷ RouteStep.session ∷ []

abbrev pub after_step : RouteStep → Checkpoint
after_step RouteStep.tty_driver = after_tty
after_step RouteStep.session = after_session

-- What the route has found, and what it has delivered.
pub record Run : Type 0 where
  pub acc : RouteAccumulator
  pub delivery : StepDelivery

-- `starts_with("byte:") || starts_with("sequence:")`
unfoldable pub is_byte_detail : Text → Bool
unfolding strip_prefix text
is_byte_detail detail =
    is_some_and (λ _. true) (strip_prefix (text "byte:") detail)
    || is_some_and (λ _. true) (strip_prefix (text "sequence:") detail)

unfoldable pub without_byte_details : List Text → List Text
without_byte_details [] = []
without_byte_details (detail ∷ details) =
    if is_byte_detail detail
    then without_byte_details details
    else detail ∷ without_byte_details details

-- `emulator.input.clone().or(observed_fallback)`
unfoldable pub available_input : Option TerminalInput → Option (List ℕ) → Option TerminalInput
unfolding text
available_input (some input) observed = some input
available_input none none = none
available_input none (some bytes) = some (record {
  bytes = bytes;
  description = text "captured bytes; normal encoding is unknown";
  confidence = InputConfidence.observed;
})

-- With known protocol flags the layer names the normal input in place of the probe's bytes.
unfoldable pub describe_protocol : Option ℕ → Option TerminalInput → LayerResult → LayerResult
unfolding without_byte_details format_bytes text
describe_protocol (some flags) (some input) layer = record layer {
  details =
      without_byte_details layer.details
      ++ (text "normal input for the existing keyboard protocol: " ++ format_bytes input.bytes)
        ∷ [];
}
describe_protocol _ _ layer = layer

pub data TargetEndpoint : Type 0 where
  interactive_application shell : TargetEndpoint

abbrev is_application_hit : LayerId → Outcome → Bool
is_application_hit LayerId.application Outcome.pass = false
is_application_hit LayerId.application _ = true
is_application_hit _ _ = false

-- The first argument says whether a selected process is a shell, if there is one.
unfoldable pub select_target_endpoint : Option Bool → LayerResult → TargetEndpoint
select_target_endpoint (some is_shell) result =
    if is_shell then TargetEndpoint.shell else TargetEndpoint.interactive_application
select_target_endpoint none result =
    if is_application_hit result.id result.outcome
    then TargetEndpoint.interactive_application
    else TargetEndpoint.shell

abbrev is_unavailable : Outcome → Bool
is_unavailable Outcome.unavailable = true
is_unavailable _ = false

-- `step == RouteStep::Session && result.outcome == Outcome::Unavailable`
unfoldable pub session_unavailable : RouteStep → LayerResult → Bool
session_unavailable RouteStep.session result = is_unavailable result.outcome
session_unavailable RouteStep.tty_driver result = false

abbrev has_steps : List TerminalInput → Bool
has_steps [] = false
has_steps (input ∷ inputs) = true

-- A sequence prefix that holds something for the shell.
unfoldable pub earlier_steps : Option SequencePrefix → Option SequencePrefix
earlier_steps none = none
earlier_steps (some prefix) =
    if has_steps prefix.shell_inputs || prefix.shell_input_unknown then some prefix else none

abbrev pub preceding_keys : Option SequencePrefix → List KeyCombo
preceding_keys none = []
preceding_keys (some prefix) = prefix.multiplexer_keys

-- `if !acc.append(..) { return acc.finish() }`, `if acc.check_deadline() { return acc.finish() }`,
-- and the rest. The run holds the finding already.
unfoldable pub proceed : Bool → Bool → Run → (Run → Run) → Run
unfolding check_deadline
proceed goes_on exceeded run rest =
    if not goes_on
    then run
    else if exceeded
    then record run { acc = (check_deadline exceeded run.acc).0 }
    else rest run
