-- ===== src/Tty/Taken.antt =====
-- src/layers/terminal.rs: which bytes the TTY driver takes.
use whykey.Prelude.{
  ℕ, String, Bool, true, false, ◌&&◌, ◌||◌, Text, List, [], ◌∷◌, Option, none, some, ◌≡◌, refl, sym,
  ◌∙◌, ◌↔◌, ◌⊎◌, inl, inr, arith, &&-true, drop, if◌then◌else◌,
}
use whykey.Route.Model.{LayerResult, Outcome, TerminalInput, new_result}
use whykey.Tty.State.{TtyState}
use whykey.Tty.Driver.{
  ControlKind, Control, control, is_set_to, controls, control_character_byte, classify_byte,
  with_alias, inspect_byte, single_byte, inspected, inspect_input_with_state,
}
use whykey.Tty.Rows.{taken_if, outcome_of, AllLines, outcome_of-cons, outcome_of-AllLines}

-- The byte is one of the characters that raise a signal, or that stop and start the output.
abbrev IsSignal : TtyState → ℕ → Type 0
IsSignal state byte =
    (state.intr ≡ some byte) ⊎ (state.quit ≡ some byte) ⊎ (state.suspend ≡ some byte)

abbrev IsFlow : TtyState → ℕ → Type 0
IsFlow state byte = (state.start ≡ some byte) ⊎ (state.stop ≡ some byte)

-- What a terminal takes for itself: its signals with ISIG; and with IXON its flow control, if the
-- byte raises no signal.
abbrev pub Takes : TtyState → ℕ → Type 0
Takes state byte =
    ((state.signal_processing ≡ true) × IsSignal state byte)
    ⊎ ((state.input_flow_control ≡ true) × (¬ IsSignal state byte) × IsFlow state byte)

abbrev signal_set : TtyState → ℕ → Bool
signal_set state byte =
    is_set_to byte state.intr || is_set_to byte state.quit || is_set_to byte state.suspend

abbrev flow_set : TtyState → ℕ → Bool
flow_set state byte = is_set_to byte state.start || is_set_to byte state.stop

abbrev taken : TtyState → ℕ → Bool
taken state byte =
    if signal_set state byte
    then state.signal_processing
    else flow_set state byte && state.input_flow_control

is_set_to_iff : (byte : ℕ) (o : Option ℕ) → (is_set_to byte o ≡ true) ↔ (o ≡ some byte)
is_set_to_iff byte none = grind arith
is_set_to_iff byte (some b) = grind arith

signal_set_iff :
    (state : TtyState) (byte : ℕ) → (signal_set state byte ≡ true) ↔ IsSignal state byte
signal_set_iff state byte = grind (
  arith,
  is_set_to_iff byte state.intr,
  is_set_to_iff byte state.quit,
  is_set_to_iff byte state.suspend,
)

flow_set_iff : (state : TtyState) (byte : ℕ) → (flow_set state byte ≡ true) ↔ IsFlow state byte
flow_set_iff state byte =
    grind (arith, is_set_to_iff byte state.start, is_set_to_iff byte state.stop)

first_or_second :
    (a b on on' : Bool) {P Q : Type 0}
    → (a ≡ true) ↔ P
    → (b ≡ true) ↔ Q
    → ((if a then on else b && on') ≡ true) ↔ (((on ≡ true) × P) ⊎ ((on' ≡ true) × (¬ P) × Q))
first_or_second true b on on' p q = (
  λ h. inl (h, p.0 refl),
  λ h. elim h [ inl (e, x) ↦ e | inr (e, unset, x) ↦ absurd (unset (p.0 refl)) ],
)
first_or_second false b on on' p q = (
  λ h. inr ((&&-true b on' h).1, λ x. (let e = p.1 x in cc), q.0 (&&-true b on' h).0),
  λ h. elim h [
    | inl (e, x) ↦ absurd (let e = p.1 x in cc)
    | inr (e, unset, x) ↦ let f = q.1 x in ground arith
  ],
)

taken_iff : (state : TtyState) (byte : ℕ) → (taken state byte ≡ true) ↔ Takes state byte
taken_iff state byte =
    first_or_second (signal_set state byte) (flow_set state byte) state.signal_processing
      state.input_flow_control (signal_set_iff state byte) (flow_set_iff state byte)

-- The outcomes of the first rows, each in front of those after it.
chained :
    (s1 s2 s3 f1 f2 on on' : Bool) (o1 o2 o3 o4 o5 rest : Outcome)
    → o1 ≡ (if s1 then taken_if on else o2)
    → o2 ≡ (if s2 then taken_if on else o3)
    → o3 ≡ (if s3 then taken_if on else o4)
    → o4 ≡ (if f1 then taken_if on' else o5)
    → o5 ≡ (if f2 then taken_if on' else rest)
    → rest ≡ Outcome.pass
    → o1 ≡ taken_if (if s1 || s2 || s3 then on else (f1 || f2) && on')
chained true s2 s3 f1 f2 on on' o1 o2 o3 o4 o5 rest a b c d e r = a
chained false true s3 f1 f2 on on' o1 o2 o3 o4 o5 rest a b c d e r = a ∙ b
chained false false true f1 f2 on on' o1 o2 o3 o4 o5 rest a b c d e r = a ∙ b ∙ c
chained false false false true f2 on on' o1 o2 o3 o4 o5 rest a b c d e r = a ∙ b ∙ c ∙ d
chained false false false false true on on' o1 o2 o3 o4 o5 rest a b c d e r = a ∙ b ∙ c ∙ d ∙ e
chained false false false false false on on' o1 o2 o3 o4 o5 rest a b c d e r = a ∙ b ∙ c ∙ d ∙ e ∙ r

-- The rows of the table: three signals, two of flow control, and then lines.
outcome_of-rows :
    (input : TerminalInput) (state : TtyState) (byte : ℕ) (c1 c2 c3 c4 c5 : Option ℕ)
    (n1 n2 n3 n4 n5 g1 g2 g3 g4 g5 : String) (rest : List Control)
    → AllLines input state byte rest
    → outcome_of input state byte (
        control c1 n1 ControlKind.signal g1
        ∷ control c2 n2 ControlKind.signal g2
        ∷ control c3 n3 ControlKind.signal g3
        ∷ control c4 n4 ControlKind.flow g4
        ∷ control c5 n5 ControlKind.flow g5
        ∷ rest)
      ≡ taken_if (
          if is_set_to byte c1 || is_set_to byte c2 || is_set_to byte c3
          then state.signal_processing
          else (is_set_to byte c4 || is_set_to byte c5) && state.input_flow_control)
outcome_of-rows input state byte c1 c2 c3 c4 c5 n1 n2 n3 n4 n5 g1 g2 g3 g4 g5 rest lines =
    let cons = outcome_of-cons input state byte in
    let r5 = control c5 n5 ControlKind.flow g5 ∷ rest in
    let r4 = control c4 n4 ControlKind.flow g4 ∷ r5 in
    let r3 = control c3 n3 ControlKind.signal g3 ∷ r4 in
    let r2 = control c2 n2 ControlKind.signal g2 ∷ r3 in
    chained (is_set_to byte c1) (is_set_to byte c2) (is_set_to byte c3) (is_set_to byte c4)
      (is_set_to byte c5) state.signal_processing state.input_flow_control _ _ _ _ _ _
      (cons (control c1 n1 ControlKind.signal g1) r2)
      (cons (control c2 n2 ControlKind.signal g2) r3)
      (cons (control c3 n3 ControlKind.signal g3) r4) (cons (control c4 n4 ControlKind.flow g4) r5)
      (cons (control c5 n5 ControlKind.flow g5) rest)
      (outcome_of-AllLines input state byte rest lines)

classify_byte-outcome :
    (input : TerminalInput) (state : TtyState) (byte : ℕ)
    → (classify_byte byte input state).outcome ≡ taken_if (taken state byte)
unfolding classify_byte control_character_byte
classify_byte-outcome input state byte =
    outcome_of-rows input state byte state.intr state.quit state.suspend state.start state.stop
      "VINTR" "VQUIT" "VSUSP" "VSTART" "VSTOP" "SIGINT" "SIGQUIT" "SIGTSTP" "" ""
      (drop 5 (controls state))
      (refl, (refl, (refl, (refl, (refl, (refl, (refl, (refl, (refl, tt)))))))))

with_alias-outcome :
    (alias : Option Text) (r : LayerResult) → (with_alias alias r).outcome ≡ r.outcome
with_alias-outcome none r = refl
with_alias-outcome (some alias) r = refl

taken_if_iff : (b : Bool) → (taken_if b ≡ Outcome.consumed) ↔ (b ≡ true)
taken_if_iff b = grind arith

consumed_byte :
    (byte : ℕ) (input : TerminalInput) (state : TtyState)
    → ((inspect_byte byte input state).outcome ≡ Outcome.consumed) ↔ Takes state byte
unfolding inspect_byte
consumed_byte byte input state =
    let same = with_alias-outcome _ _ ∙ classify_byte-outcome input state byte in
    let once = taken_if_iff (taken state byte) in
    let spec = taken_iff state byte in
    (λ h. spec.0 (once.0 (sym same ∙ h)), λ t. same ∙ once.1 (spec.1 t))

same_byte : (b byte : ℕ) → ◌≡◌ {A = List ℕ} (b ∷ []) (byte ∷ []) → b ≡ byte
same_byte b byte e = cc

consumed_bytes :
    (bytes : List ℕ) (input : TerminalInput) (state : TtyState)
    → ((inspected input state (single_byte bytes)).outcome ≡ Outcome.consumed)
      ↔ ((byte : ℕ) × (bytes ≡ byte ∷ []) × Takes state byte)
unfolding new_result
consumed_bytes [] input state = (λ h. absurd (cc), λ (byte, e, t). absurd (cc))
consumed_bytes (b ∷ []) input state = (
  λ h. (b, refl, (consumed_byte b input state).0 h),
  λ (byte, e, t). (consumed_byte b input state).1 (rw (same_byte b byte e) t),
)
consumed_bytes (b ∷ c ∷ bytes) input state = (λ h. absurd (cc), λ (byte, e, t). absurd (cc))

-- The TTY driver takes a key exactly when its bytes are one byte that the terminal takes for itself:
-- a signal's character while signals are on, or, if it is no signal's, a character that stops or
-- starts the output while flow control is on.
pub inspect_input_with_state-Takes :
    (input : TerminalInput) (state : TtyState)
    → ((inspect_input_with_state input state).outcome ≡ Outcome.consumed)
      ↔ ((byte : ℕ) × (input.bytes ≡ byte ∷ []) × Takes state byte)
unfolding inspect_input_with_state
inspect_input_with_state-Takes input state = consumed_bytes input.bytes input state
