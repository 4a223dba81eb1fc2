-- ===== src/Route/Request.antt =====
-- src/layers/model.rs and src/layers/inspection.rs: one inspection request, what a sequence's
-- earlier steps delivered, and the adapters that read the system.
use whykey.Prelude.{ℕ, Bool, Text, List, [], ◌++◌, ◌∷◌, true, Option, none, some}
use whykey.Key.Combo.{KeyCombo}
use whykey.Route.Model.{LayerResult, TerminalInput}

pub record PhysicalInput : Type 0 where
  pub device : Option Text
  pub keycode : ℕ  -- u16

pub record SequencePrefix : Type 0 where
  pub multiplexer_keys : List KeyCombo
  pub shell_inputs : List TerminalInput
  pub shell_input_unknown : Bool

-- `Termios` is `libc::termios`.
pub record InspectRequest (Termios : Type 0) : Type 0 where
  pub key : KeyCombo
  pub force_continue : Bool
  pub protocol_flags : Option ℕ
  pub observed_bytes : Option (List ℕ)
  pub physical_input : Option PhysicalInput
  pub termios : Option Termios
  pub application_pid : Option ℕ
  pub application_source : Option Text
  pub sequence_prefix : Option SequencePrefix

pub record StepDelivery : Type 0 where
  pub multiplexer_key : Option KeyCombo
  pub shell_input : Option (Option TerminalInput)

abbrev pub no_delivery : StepDelivery
no_delivery = record { multiplexer_key = none; shell_input = none }

abbrev extend : List KeyCombo → Option KeyCombo → List KeyCombo
extend keys none = keys
extend keys (some key) = keys ++ key ∷ []

abbrev record_shell : Option (Option TerminalInput) → SequencePrefix → SequencePrefix
record_shell (some (some input)) prefix = record prefix {
  shell_inputs = prefix.shell_inputs ++ input ∷ [];
}
record_shell (some none) prefix = record prefix { shell_input_unknown = true }
record_shell none prefix = prefix

-- `StepDelivery::record`
unfoldable pub record_delivery : StepDelivery → SequencePrefix → SequencePrefix
record_delivery delivery prefix =
    record_shell delivery.shell_input
      (record prefix { multiplexer_keys = extend prefix.multiplexer_keys delivery.multiplexer_key })

-- What the adapters of one environment snapshot answer, each a function of what it is given.
pub record Adapters (Termios : Type 0) : Type 0 where
  pub compositor : KeyCombo → Option PhysicalInput → LayerResult
  pub refine_x11_grab : KeyCombo → LayerResult → LayerResult
  pub terminal : KeyCombo → Option ℕ → Option PhysicalInput → LayerResult × Option TerminalInput
  -- `none` if no input method was detected
  pub ime : Option LayerResult
  pub in_multiplexer : Bool
  pub tty_with_termios : TerminalInput → Termios → LayerResult
  pub tty_input : TerminalInput → LayerResult
  pub tty_unknown : LayerResult
  pub session : List KeyCombo → KeyCombo → Bool → LayerResult
  pub application : KeyCombo → LayerResult
  pub application_for_pid : KeyCombo → ℕ → Option Text → LayerResult
  pub is_shell_process : ℕ → Bool
  pub shell_sequence : List TerminalInput → Option ℕ → LayerResult
  pub shell_unknown : LayerResult
  pub shell_input_for_pid : TerminalInput → ℕ → LayerResult
  pub shell_input : TerminalInput → LayerResult
