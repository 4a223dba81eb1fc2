-- ===== src/Tty/Rows.antt =====
-- src/layers/terminal.rs: the outcome of a row of the table of control characters.
use whykey.Prelude.{
  ℕ, Bool, true, false, List, [], ◌∷◌, Option, some, ◌≡◌, refl, ◌∙◌, arith, if◌then◌else◌,
}
use whykey.Route.Model.{Outcome, TerminalInput, new_result}
use whykey.Tty.State.{TtyState}
use whykey.Tty.Driver.{
  ControlKind, ControlCharacter, Control, is_set_to, find_control, control_result, signal_result,
  flow_result, line_result, classified,
}

abbrev pub taken_if : Bool → Outcome
taken_if true = Outcome.consumed
taken_if false = Outcome.pass

abbrev pub kind_outcome : TtyState → ControlKind → Outcome
kind_outcome state ControlKind.signal = taken_if state.signal_processing
kind_outcome state ControlKind.flow = taken_if state.input_flow_control
kind_outcome state ControlKind.line = Outcome.pass

signal_result-outcome :
    (on : Bool) (c : ControlCharacter) → (signal_result on c).outcome ≡ taken_if on
unfolding new_result
signal_result-outcome true c = refl
signal_result-outcome false c = refl

flow_result-outcome : (on : Bool) (c : ControlCharacter) → (flow_result on c).outcome ≡ taken_if on
unfolding new_result
flow_result-outcome true c = refl
flow_result-outcome false c = refl

line_result-outcome :
    (on extended : Bool) (c : ControlCharacter) → (line_result on extended c).outcome ≡ Outcome.pass
unfolding new_result
line_result-outcome false extended c = refl
line_result-outcome true extended c = ground arith

control_result-outcome :
    (state : TtyState) (kind : ControlKind) (c : ControlCharacter)
    → (control_result state kind c).outcome ≡ kind_outcome state kind
control_result-outcome state ControlKind.signal c = signal_result-outcome state.signal_processing c
control_result-outcome state ControlKind.flow c = flow_result-outcome state.input_flow_control c
control_result-outcome state ControlKind.line c =
    line_result-outcome state.canonical state.extended_processing c

module _ (input : TerminalInput) (state : TtyState) (byte : ℕ) where
  abbrev pub outcome_of : List Control → Outcome
  outcome_of rows = (classified input state (find_control byte rows)).outcome

  chosen :
      (b : Bool) (c : ControlCharacter) (rest : Option ControlCharacter)
      → (classified input state (if b then some c else rest)).outcome
        ≡ (if b then kind_outcome state c.kind else (classified input state rest).outcome)
  chosen true c rest = control_result-outcome state c.kind c
  chosen false c rest = refl

  pub outcome_of-cons :
      (row : Control) (rows : List Control)
      → outcome_of (row ∷ rows)
        ≡ (if is_set_to byte row.configured then kind_outcome state row.kind else outcome_of rows)
  unfolding find_control
  outcome_of-cons row rows = chosen (is_set_to byte row.configured) _ (find_control byte rows)

  abbrev pub AllLines : List Control → Type 0
  AllLines [] = Unit
  AllLines (row ∷ rows) = (row.kind ≡ ControlKind.line) × AllLines rows

  pub outcome_of-AllLines : (rows : List Control) → AllLines rows → outcome_of rows ≡ Outcome.pass
  unfolding find_control
  outcome_of-AllLines [] h = unfold new_result in refl
  outcome_of-AllLines (row ∷ rows) h =
      outcome_of-cons row rows ∙ ground (arith, outcome_of-AllLines rows h.1)
