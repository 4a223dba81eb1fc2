-- ===== src/Tty/Examples.antt =====
-- The TTY driver of src/layers/terminal.rs, with the settings of an interactive terminal.
use whykey.Prelude.{
  ℕ, true, Text, text, [], ◌∷◌, none, some, ◌≡◌, ◌↔◌, refl, inl, arith, is_ascii_alphabetic,
  char_to_upper,
}
use whykey.Key.Combo.{from_parts}
use whykey.Route.Model.{Outcome, TerminalInput, InputConfidence}
use whykey.Listen.Fields.{and_then}
use whykey.Listen.Protocol.{Decoded, decode_key}
use whykey.Tty.State.{TtyState}
use whykey.Tty.Driver.{inspect_input_with_state}
use whykey.Tty.Legacy.{legacy_control_byte, decode_key-legacy_control_byte}
use whykey.Tty.Taken.{Takes, inspect_input_with_state-Takes}

abbrev settings : TtyState
settings = record {
  signal_processing = true;
  canonical = true;
  input_flow_control = true;
  extended_processing = true;
  intr = some 3;
  quit = some 28;
  erase = some 127;
  kill = some 21;
  eof = some 4;
  suspend = some 26;
  start = some 17;
  stop = some 19;
  reprint = some 18;
  werase = some 23;
  lnext = some 22;
  discard = some 15;
  eol = none;
  eol2 = none;
}

abbrev ctrl_c : TerminalInput
ctrl_c = record {
  bytes = 3 ∷ [];
  description = text "Ctrl+C";
  confidence = InputConfidence.predicted;
}

inspect_input_with_state-Takes_example :
    ((inspect_input_with_state ctrl_c settings).outcome ≡ Outcome.consumed)
    ↔ ((byte : ℕ) × (ctrl_c.bytes ≡ byte ∷ []) × Takes settings byte)
inspect_input_with_state-Takes_example = inspect_input_with_state-Takes ctrl_c settings

ctrl_c_taken : (inspect_input_with_state ctrl_c settings).outcome ≡ Outcome.consumed
ctrl_c_taken = (inspect_input_with_state-Takes ctrl_c settings).1 (3, refl, inl (refl, inl refl))

abbrev upper : ℕ → Text
upper c = c ∷ []

c_is_letter : is_ascii_alphabetic b'c' ≡ true
unfolding is_ascii_alphabetic
c_is_letter = refl

c_is_sent : legacy_control_byte (b'c' ∷ []) ≡ some 3
unfolding legacy_control_byte
c_is_sent = refl

decode_key-legacy_control_byte_example :
    and_then (decode_key upper (3 ∷ [])) (λ (d : Decoded). some d.combo)
    ≡ some (from_parts 4 (char_to_upper b'c' ∷ []))
decode_key-legacy_control_byte_example =
    decode_key-legacy_control_byte upper b'c' 3 c_is_letter c_is_sent (λ e. omega arith)
      (λ e. omega arith)
