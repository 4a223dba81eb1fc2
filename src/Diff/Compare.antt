-- ===== src/Diff/Compare.antt =====
-- src/diff.rs: the comparison of two documents, and the report within a snapshot (src/snapshot.rs).
use whykey.Prelude.{
  ℕ, zero, suc, Bool, true, false, Text, List, [], ◌∷◌, ◌++◌, Option, none, some, text, to_decimal,
  length, ltb, if◌then◌else◌,
}
use whykey.Diff.Values.{Values, element, first_of, then_get}

pub record Change (Value : Type 0) : Type 0 where
  pub path : Text
  pub before : Option Value
  pub after : Option Value

-- `for index in index..index + n`
abbrev pub each {ℓ} : {A : Type ℓ} → (ℕ → List A) → ℕ → ℕ → List A
each body index zero = []
each body index (suc n) = body index ++ each body (suc index) n

-- `map_or(0, Vec::len)`
abbrev pub length_or_zero {ℓ} : {A : Type ℓ} → Option (List A) → ℕ
length_or_zero none = 0
length_or_zero (some xs) = length xs

abbrev pub longer : ℕ → ℕ → ℕ
longer a b = if ltb a b then b else a

module _ {Value : Type 0} (values : Values Value) where
  -- `filter(|report| report.is_object()).unwrap_or(value)`
  abbrev object_or : Value → Option Value → Value
  object_or value none = value
  object_or value (some inner) = if values.is_object inner then inner else value

  unfoldable pub report_of : Value → Value
  unfolding text
  report_of value = object_or value (values.get (text "report") value)

  abbrev pub option_eq : Option Value → Option Value → Bool
  option_eq none none = true
  option_eq none (some b) = false
  option_eq (some a) none = false
  option_eq (some a) (some b) = values.eq a b

  unfoldable pub compare_value : Text → Option Value → Option Value → List (Change Value)
  compare_value path before after =
      if option_eq before after
      then []
      else record { path = path; before = before; after = after } ∷ []

  abbrev input_member : Text → Value → Option Value
  input_member name report = then_get (values.get (text "input") report) (values.get name)

  unfoldable pub request_key : Value → Option Value
  unfolding text
  request_key report = first_of (values.get (text "key_display") report) (
      first_of (input_member (text "key_display") report) (
        first_of (values.get (text "sequence_display") report)
          (input_member (text "sequence_display") report)))

  unfoldable pub document_context : Value → Value → Option Value
  unfolding text
  document_context document report =
      first_of (values.get (text "context") document) (values.get (text "context") report)

  -- `get("path").or_else(|| get("layers")).and_then(Value::as_array)`
  unfoldable pub layers : Value → Option (List Value)
  unfolding text
  layers route =
      then_get (first_of (values.get (text "path") route) (values.get (text "layers") route))
        values.as_array

  abbrev or_unknown : Option Text → Text
  or_unknown none = text "unknown"
  or_unknown (some name) = name

  unfoldable pub layer_name : Option Value → Option Value → Text
  unfolding text
  layer_name before after =
      or_unknown
        (then_get (then_get (first_of before after) (values.get (text "layer"))) values.as_str)

  abbrev pub indexed : Text → ℕ → Text
  indexed prefix index = prefix ++ (text "[" ++ (to_decimal 20 index ++ text "]"))

  -- A round of the loop of `compare_route`.
  unfoldable pub compare_layer :
      Text → Option (List Value) → Option (List Value) → ℕ → List (Change Value)
  unfolding compare_value layer_name to_decimal text
  compare_layer prefix before after index =
      let old = element index before in
      let new = element index after in
      compare_value (indexed prefix index ++ (text "." ++ layer_name old new)) old new

  unfoldable pub compare_route : Text → Value → Value → List (Change Value)
  unfolding compare_layer layers
  compare_route prefix before after =
      each (compare_layer prefix (layers before) (layers after)) 0
        (longer (length_or_zero (layers before)) (length_or_zero (layers after)))

  unfoldable pub report_steps : Value → Option (List Value)
  unfolding text
  report_steps report = then_get (values.get (text "steps") report) values.as_array

  -- `unwrap_or(&Value::Null)`
  abbrev pub or_null : Option Value → Value
  or_null none = values.null
  or_null (some step) = step

  abbrev pub step_path : ℕ → Text
  step_path index = indexed (text "steps") index ++ text ".path"

  -- A round of the loop of `compare_steps`.
  unfoldable pub compare_step : Option (List Value) → Option (List Value) → ℕ → List (Change Value)
  unfolding compare_value compare_route request_key to_decimal text
  compare_step before after index =
      let old = element index before in
      let new = element index after in
      compare_value (indexed (text "steps") index ++ text ".input") (then_get old request_key)
        (then_get new request_key)
      ++ compare_route (step_path index) (or_null old) (or_null new)

  unfoldable pub compare_steps : Value → Value → List (Change Value)
  unfolding compare_step report_steps
  compare_steps before after =
      each (compare_step (report_steps before) (report_steps after)) 0
        (longer (length_or_zero (report_steps before)) (length_or_zero (report_steps after)))

  unfoldable pub compare_documents : Value → Value → List (Change Value)
  unfolding report_of compare_value document_context request_key compare_route compare_steps text
  compare_documents before after =
      let old = report_of before in
      let new = report_of after in
      compare_value (text "context") (document_context before old) (document_context after new)
      ++ (compare_value (text "input") (request_key old) (request_key new)
          ++ (compare_route (text "path") old new ++ compare_steps old new))
