-- ===== src/Tty/Driver.antt =====
-- src/layers/terminal.rs: what the TTY driver does with the bytes of a key.
use whykey.Prelude.{
  ℕ, ◌+◌, ◌/◌, ◌%◌, String, Bool, true, false, not, ◌&&◌, ◌||◌, Text, text, List, [], ◌∷◌, ◌++◌,
  Option, none, some, Result, ok, err, hex_digit, leb, ◌==◌, if◌then◌else◌, text_eq,
}
use whykey.Route.Model.{
  LayerId, LayerResult, Outcome, TerminalInput, InputConfidence, EvidenceTier, new_result,
}
use whykey.Route.Chain.{format_bytes}
use whykey.Tty.State.{Libc, Termios, TtyState, tty_state_from_termios}

pub data ControlKind : Type 0 where
  signal flow line : ControlKind

pub record ControlCharacter : Type 0 where
  pub byte : ℕ
  pub name : String
  pub kind : ControlKind
  pub signal : String

abbrev pub is_set_to : ℕ → Option ℕ → Bool
is_set_to byte none = false
is_set_to byte (some b) = b == byte

-- A row of `controls`.
pub record Control : Type 0 where
  pub configured : Option ℕ
  pub name : String
  pub kind : ControlKind
  pub signal : String

abbrev pub control : Option ℕ → String → ControlKind → String → Control
control configured name kind signal_name = record {
  configured = configured;
  name = name;
  kind = kind;
  signal = signal_name;
}

abbrev pub controls : TtyState → List Control
controls state =
    control state.intr "VINTR" ControlKind.signal "SIGINT"
    ∷ control state.quit "VQUIT" ControlKind.signal "SIGQUIT"
    ∷ control state.suspend "VSUSP" ControlKind.signal "SIGTSTP"
    ∷ control state.start "VSTART" ControlKind.flow ""
    ∷ control state.stop "VSTOP" ControlKind.flow ""
    ∷ control state.eof "VEOF" ControlKind.line ""
    ∷ control state.erase "VERASE" ControlKind.line ""
    ∷ control state.kill "VKILL" ControlKind.line ""
    ∷ control state.reprint "VREPRINT" ControlKind.line ""
    ∷ control state.werase "VWERASE" ControlKind.line ""
    ∷ control state.lnext "VLNEXT" ControlKind.line ""
    ∷ control state.discard "VDISCARD" ControlKind.line ""
    ∷ control state.eol "VEOL" ControlKind.line ""
    ∷ control state.eol2 "VEOL2" ControlKind.line ""
    ∷ []

-- `find_map`: the first that is set to the byte.
unfoldable pub find_control : ℕ → List Control → Option ControlCharacter
find_control byte [] = none
find_control byte (c ∷ cs) =
    let rest = find_control byte cs in
    if is_set_to byte c.configured
    then some (record { byte = byte; name = c.name; kind = c.kind; signal = c.signal })
    else rest

unfoldable pub control_character_byte : ℕ → TtyState → Option ControlCharacter
unfolding find_control
control_character_byte byte state = find_control byte (controls state)

unfoldable pub format_control_char : ℕ → Text
unfolding text
format_control_char value =
    if leb value 0x1f
    then text "^" ++ (value + b'@') ∷ []
    else if value == 0x7f
    then text "^?"
    else value ∷ []

abbrev hex_byte : ℕ → Text
hex_byte byte = text "0x" ++ (hex_digit (byte / 16) ∷ hex_digit (byte % 16) ∷ [])

abbrev confidence_label : InputConfidence → String
confidence_label InputConfidence.configured = "configured"
confidence_label InputConfidence.predicted = "predicted"
confidence_label InputConfidence.observed = "observed"

unfoldable pub format_input : TerminalInput → Text
unfolding text format_bytes
format_input input =
    text "normal input: "
    ++ (format_bytes input.bytes
        ++ (text " ("
            ++ (text (confidence_label input.confidence)
                ++ (text ", " ++ (input.description ++ text ")")))))

abbrev tty_result : Outcome → Text → List Text → LayerResult
tty_result outcome summary details =
    new_result (text "TTY driver") LayerId.tty outcome summary details

abbrev pub not_consumed : TerminalInput → LayerResult
not_consumed input =
    tty_result Outcome.pass (text "does not consume this byte sequence") (format_input input ∷ [])

abbrev details_of : ControlCharacter → Text → List Text
details_of c last_detail =
    (text "special character: " ++ (text c.name ++ (text " = " ++ format_control_char c.byte)))
    ∷ (text "byte: " ++ hex_byte c.byte)
    ∷ last_detail
    ∷ []

-- `matches!(control.name, "VLNEXT" | "VDISCARD")`
abbrev is_extended : String → Bool
is_extended name = text_eq (text name) (text "VLNEXT") || text_eq (text name) (text "VDISCARD")

abbrev passes : ControlCharacter → String → String → LayerResult
passes c summary detail = tty_result Outcome.pass (text summary) (details_of c (text detail))

abbrev pub signal_result : Bool → ControlCharacter → LayerResult
signal_result false c =
    passes c "signal processing is disabled; byte is forwarded" "ISIG is disabled"
signal_result true c =
    tty_result Outcome.consumed
      (text "terminal signal handling; interprets byte "
        ++ (hex_byte c.byte
            ++ (text " as " ++ (text c.name ++ (text " (" ++ (text c.signal ++ text ")"))))))
      (details_of c (
        text "ISIG is enabled; kernel sends "
        ++ (text c.signal ++ text " to the foreground process")))

abbrev pub flow_result : Bool → ControlCharacter → LayerResult
flow_result false c =
    passes c "output flow control (IXON) is disabled; byte is forwarded" "IXON is disabled"
flow_result true c =
    tty_result Outcome.consumed
      (text "terminal flow control (IXON); interprets byte "
        ++ (hex_byte c.byte ++ (text " as " ++ text c.name)))
      (details_of c (
        text "IXON is enabled; the TTY consumes this byte and "
        ++ (text (if text_eq (text c.name) (text "VSTOP") then "suspends" else "resumes")
            ++ text " terminal output")))

abbrev pub line_result : (canonical extended : Bool) → ControlCharacter → LayerResult
line_result false extended c =
    passes c "canonical line editing is disabled; byte is forwarded" "ICANON is disabled"
line_result true extended c =
    if is_extended c.name && not extended
    then passes c "extended terminal processing is disabled; byte is forwarded" "IEXTEN is disabled"
    else tty_result Outcome.pass (text c.name ++ text " is configured for canonical line editing")
        (details_of c (text "Bash/Readline may handle this byte while editing a command"))

abbrev pub control_result : TtyState → ControlKind → ControlCharacter → LayerResult
control_result state ControlKind.signal c = signal_result state.signal_processing c
control_result state ControlKind.flow c = flow_result state.input_flow_control c
control_result state ControlKind.line c = line_result state.canonical state.extended_processing c

abbrev pub classified : TerminalInput → TtyState → Option ControlCharacter → LayerResult
classified input state none = not_consumed input
classified input state (some c) = control_result state c.kind c

unfoldable pub classify_byte : ℕ → TerminalInput → TtyState → LayerResult
unfolding control_character_byte format_input format_control_char new_result text text_eq
classify_byte byte input state = classified input state (control_character_byte byte state)

unfoldable pub legacy_byte_alias : List ℕ → Option Text
unfolding text
legacy_byte_alias (byte ∷ []) =
    if byte == 0
    then some (text "0x00 is sent for both Ctrl+@ and Ctrl+Space; programs cannot tell them apart")
    else if byte == 8
    then some
        (text "0x08 is Ctrl+H; terminals configured to send ^H for Backspace produce the same byte")
    else if byte == 9
    then some (text "0x09 is also Tab; Ctrl+I and Tab are indistinguishable in legacy encoding")
    else if byte == 0xd
    then some
        (text "0x0d is also Return; Ctrl+M and Return are indistinguishable in legacy encoding")
    else if byte == 0x1b
    then some (
        text
          "0x1b is also Escape; Ctrl+[ and Escape are indistinguishable, and 0x1b starts Alt/escape sequences")
    else none
legacy_byte_alias _ = none

abbrev pub with_alias : Option Text → LayerResult → LayerResult
with_alias none result = result
with_alias (some alias) result = record result { details = result.details ++ alias ∷ [] }

unfoldable pub inspect_byte : ℕ → TerminalInput → TtyState → LayerResult
unfolding classify_byte legacy_byte_alias
inspect_byte byte input state =
    with_alias (legacy_byte_alias input.bytes)
      (record (classify_byte byte input state) { tier = some EvidenceTier.live_query })

abbrev pub single_byte : List ℕ → Option ℕ
single_byte (byte ∷ []) = some byte
single_byte _ = none

abbrev pub inspected : TerminalInput → TtyState → Option ℕ → LayerResult
inspected input state none = not_consumed input
inspected input state (some byte) = inspect_byte byte input state

unfoldable pub inspect_input_with_state : TerminalInput → TtyState → LayerResult
unfolding inspect_byte format_input new_result text
inspect_input_with_state input state = inspected input state (single_byte input.bytes)

-- `inspect_input`, with what the terminal answers.
unfoldable pub inspect_input : Result Text TtyState → TerminalInput → LayerResult
unfolding inspect_input_with_state format_input new_result text
inspect_input answer input = elim (single_byte input.bytes) [
  | none ↦ not_consumed input
  | some byte ↦ elim answer [
    | ok state ↦ inspect_byte byte input state
    | err message ↦
        tty_result Outcome.unavailable (text "could not inspect terminal settings")
          (message ∷ format_input input ∷ [])
  ]
]

unfoldable pub inspect_unknown : LayerResult
unfolding new_result text
inspect_unknown =
    tty_result Outcome.unknown
      (text "terminal byte encoding is unknown; TTY signal checks unevaluated")
      (text "termios special-character processing depends on bytes emitted by the terminal" ∷ [])

unfoldable pub inspect_input_with_termios : Libc → TerminalInput → Termios → LayerResult
unfolding tty_state_from_termios inspect_input_with_state
inspect_input_with_termios libc input termios =
    inspect_input_with_state input (tty_state_from_termios libc termios)
