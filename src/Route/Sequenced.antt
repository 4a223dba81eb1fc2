-- ===== src/Route/Sequenced.antt =====
-- src/layers/inspection.rs: what each step of a key sequence knows of the steps before it.
use whykey.Prelude.{
  ℕ, suc, Bool, true, false, ◌||◌, Text, List, [], ◌∷◌, ◌++◌, Option, none, some, length,
  length-append, any, ◌≡◌, refl, ap, ◌==◌, arith,
}
use mathlib.Core.List.{append-nil}
use whykey.Key.Combo.{KeyCombo}
use whykey.Route.Model.{LayerResult, TerminalInput}
use whykey.Route.Request.{
  PhysicalInput, SequencePrefix, InspectRequest, StepDelivery, Adapters, record_delivery,
}
use whykey.Route.Sequence.{
  Moment, new_request, with_target, inspect_step, inspect_steps, inspect_sequence, step_request,
}

-- The keys that reached the multiplexer.
unfoldable pub multiplexer_keys_of : List StepDelivery → List KeyCombo
multiplexer_keys_of [] = []
multiplexer_keys_of (d ∷ ds) = elim d.multiplexer_key [
  | none ↦ multiplexer_keys_of ds
  | some key ↦ key ∷ multiplexer_keys_of ds
]

-- The inputs that reached the shell, where they are known, and whether one is not.
unfoldable pub shell_inputs_of : List StepDelivery → List TerminalInput
shell_inputs_of [] = []
shell_inputs_of (d ∷ ds) = elim d.shell_input [
  | none ↦ shell_inputs_of ds
  | some reached ↦ elim reached [
    | none ↦ shell_inputs_of ds
    | some input ↦ input ∷ shell_inputs_of ds
  ]
]

abbrev pub is_unknown_input : Option (Option TerminalInput) → Bool
is_unknown_input (some none) = true
is_unknown_input _ = false

abbrev pub has_unknown_input : StepDelivery → Bool
has_unknown_input d = is_unknown_input d.shell_input

abbrev pub prefix_of : List StepDelivery → SequencePrefix
prefix_of ds = record {
  multiplexer_keys = multiplexer_keys_of ds;
  shell_inputs = shell_inputs_of ds;
  shell_input_unknown = any has_unknown_input ds;
}

-- The first step knows of none.
abbrev pub known_before : List StepDelivery → Option SequencePrefix
known_before [] = none
known_before (d ∷ ds) = some (prefix_of (d ∷ ds))

multiplexer_keys_of-append :
    (ds : List StepDelivery) (d : StepDelivery)
    → multiplexer_keys_of (ds ++ d ∷ []) ≡ multiplexer_keys_of ds ++ multiplexer_keys_of (d ∷ [])
unfolding multiplexer_keys_of
multiplexer_keys_of-append [] d = refl
multiplexer_keys_of-append (e ∷ ds) d = ground (arith, multiplexer_keys_of-append ds d)

shell_inputs_of-append :
    (ds : List StepDelivery) (d : StepDelivery)
    → shell_inputs_of (ds ++ d ∷ []) ≡ shell_inputs_of ds ++ shell_inputs_of (d ∷ [])
unfolding shell_inputs_of
shell_inputs_of-append [] d = refl
shell_inputs_of-append (e ∷ ds) d = ground (arith, shell_inputs_of-append ds d)

any-append :
    (ds : List StepDelivery) (d : StepDelivery)
    → any has_unknown_input (ds ++ d ∷ []) ≡ (any has_unknown_input ds || has_unknown_input d)
unfolding any
any-append [] d = ground arith
any-append (e ∷ ds) d = ground (arith, any-append ds d)

or_false : (b : Bool) → b ≡ (b || false)
or_false b = ground arith

or_true : (b : Bool) → true ≡ (b || true)
or_true b = ground arith

recorded :
    (prefix : SequencePrefix) (key : Option KeyCombo) (reached : Option (Option TerminalInput))
    → record_delivery (record { multiplexer_key = key; shell_input = reached }) prefix ≡ record {
      multiplexer_keys =
          prefix.multiplexer_keys
          ++ multiplexer_keys_of (record { multiplexer_key = key; shell_input = reached } ∷ []);
      shell_inputs =
          prefix.shell_inputs
          ++ shell_inputs_of (record { multiplexer_key = key; shell_input = reached } ∷ []);
      shell_input_unknown = prefix.shell_input_unknown || is_unknown_input reached;
    }
unfolding record_delivery multiplexer_keys_of shell_inputs_of
recorded prefix none none =
    rw
      (
        append-nil prefix.multiplexer_keys,
        append-nil prefix.shell_inputs,
        ← (or_false prefix.shell_input_unknown),
      )
      refl
recorded prefix (some key) none =
    rw (append-nil prefix.shell_inputs, ← (or_false prefix.shell_input_unknown)) refl
recorded prefix none (some none) =
    rw
      (
        append-nil prefix.multiplexer_keys,
        append-nil prefix.shell_inputs,
        ← (or_true prefix.shell_input_unknown),
      )
      refl
recorded prefix (some key) (some none) =
    rw (append-nil prefix.shell_inputs, ← (or_true prefix.shell_input_unknown)) refl
recorded prefix none (some (some input)) =
    rw (append-nil prefix.multiplexer_keys, ← (or_false prefix.shell_input_unknown)) refl
recorded prefix (some key) (some (some input)) = rw (← (or_false prefix.shell_input_unknown)) refl

record_delivery-prefix_of :
    (ds : List StepDelivery) (d : StepDelivery)
    → record_delivery d (prefix_of ds) ≡ prefix_of (ds ++ d ∷ [])
unfolding record_delivery
record_delivery-prefix_of ds d =
    rw (multiplexer_keys_of-append ds d, shell_inputs_of-append ds d, any-append ds d)
      (recorded (prefix_of ds) d.multiplexer_key d.shell_input)

module _ {Termios : Type 0} (adapters : Adapters Termios)
    (remapper : KeyCombo → Option PhysicalInput → LayerResult) (target : Option (ℕ × Option Text))
    (moments : ℕ → Moment) where
  -- The step of a key behind steps with these deliveries.
  abbrev pub step_behind : List StepDelivery → KeyCombo → List LayerResult × StepDelivery
  step_behind before key =
      inspect_step adapters remapper
        (record (with_target adapters remapper target (new_request Termios key)) {
          sequence_prefix = known_before before;
        })
        (moments (length before))

  -- The routes of keys that are pressed behind steps with these deliveries, each step behind all
  -- those before it.
  pub data Routes : List StepDelivery → List KeyCombo → List (List LayerResult) → Type 0 where
    finished : {before : List StepDelivery} → Routes before [] []
    pressed :
        {before : List StepDelivery} {key : KeyCombo} {keys : List KeyCombo}
        {routes : List (List LayerResult)}
        → Routes (before ++ (step_behind before key).1 ∷ []) keys routes
        → Routes before (key ∷ keys) ((step_behind before key).0 ∷ routes)

  step_request-known_before :
      (before : List StepDelivery) (key : KeyCombo)
      → step_request adapters remapper target (length before == 0) (prefix_of before) key
        ≡ record (with_target adapters remapper target (new_request Termios key)) {
          sequence_prefix = known_before before;
        }
  unfolding step_request
  step_request-known_before [] key = refl
  step_request-known_before (d ∷ before) key =
      let later : (length (d ∷ before) == 0) ≡ false = ground arith in rw (step_request, later) refl

  -- The rest of the steps, given what the step before delivered.
  abbrev rest_behind :
      List StepDelivery → List KeyCombo → List LayerResult × StepDelivery → List (List LayerResult)
  rest_behind before keys (route, delivery) =
      route
      ∷ inspect_steps adapters remapper target moments (suc (length before))
          (record_delivery delivery (prefix_of before)) keys

  inspect_steps-cons :
      (before : List StepDelivery) (key : KeyCombo) (keys : List KeyCombo)
      → inspect_steps adapters remapper target moments
          (length before)
          (prefix_of before)
          (key ∷ keys)
        ≡ rest_behind before keys (step_behind before key)
  inspect_steps-cons before key keys =
      unfold inspect_steps in
      ap
        (λ (request : InspectRequest Termios).
          rest_behind before keys
            (inspect_step adapters remapper request (moments (length before))))
        (step_request-known_before before key)

  length-behind :
      (before : List StepDelivery) (d : StepDelivery)
      → suc (length before) ≡ length (before ++ d ∷ [])
  length-behind before d = omega (arith, length-append before (d ∷ []))

  inspect_steps-Routes :
      (before : List StepDelivery) (keys : List KeyCombo)
      → Routes before keys
          (inspect_steps adapters remapper target moments (length before) (prefix_of before) keys)
  inspect_steps-Routes before [] = unfold inspect_steps in finished
  inspect_steps-Routes before (key ∷ keys) =
      let delivery = (step_behind before key).1 in
      let rest = inspect_steps-Routes (before ++ delivery ∷ []) keys in
      rw
        (
          inspect_steps-cons before key keys,
          record_delivery-prefix_of before delivery,
          length-behind before delivery,
        )
        (pressed rest)

  -- The findings of a key sequence are one route for each key. Every key is inspected by one step,
  -- whose request says what all steps before it delivered: the keys that reached the multiplexer, the
  -- inputs that reached the shell, both in order, and whether some input of the shell is unknown. The
  -- first step's request says nothing of the kind.
  pub inspect_sequence-Routes :
      (keys : List KeyCombo)
      → Routes [] keys (inspect_sequence adapters remapper keys target moments)
  unfolding multiplexer_keys_of shell_inputs_of any
  inspect_sequence-Routes keys = unfold inspect_sequence in inspect_steps-Routes [] keys
