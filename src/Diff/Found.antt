-- ===== src/Diff/Found.antt =====
-- src/diff.rs: which differences are found, and under which paths.
use whykey.Prelude.{
  ℕ, zero, suc, ◌+◌, ◌≤◌, ◌<◌, Text, List, ◌++◌, Option, none, some, ◌≡◌, ◌≢◌, ◌⊎◌, inl, inr, ◌↔◌,
  refl, sym, ap, ◌∙◌, arith, Bool-cases, text,
}
use mathlib.Core.Path.{subst}
use whykey.Hyprland.States.{In, In-append}
use whykey.Diff.Values.{Values, DecidesEq, element, then_get}
use whykey.Diff.Compare.{
  Change, each, length_or_zero, longer, report_of, option_eq, compare_value, request_key,
  document_context, layers, layer_name, indexed, compare_layer, compare_route, report_steps,
  or_null, step_path, compare_step, compare_steps, compare_documents,
}
use whykey.Diff.Loops.{first_or_later, element-beyond, longer-left, longer-right}
use whykey.Diff.Same.{option_eq_iff, below_or_beyond}

-- A member of two lists in a row.
In-append_iff :
    {A P Q : Type 0} (x : A) (xs ys : List A)
    → In x xs ↔ P
    → In x ys ↔ Q
    → In x (xs ++ ys) ↔ (P ⊎ Q)
In-append_iff x xs ys p q =
    let both = In-append x xs ys in
    (
      λ h. elim (both.0 h) [ inl i ↦ inl (p.0 i) | inr i ↦ inr (q.0 i) ],
      λ h. elim h [ inl i ↦ both.1 (inl (p.1 i)) | inr i ↦ both.1 (inr (q.1 i)) ],
    )

In-each :
    {A : Type 0} (x : A) (body : ℕ → List A) (index n : ℕ)
    → In x (each body index n) ↔ ((i : ℕ) × (index ≤ i) × (i < index + n) × In x (body i))
In-each x body index zero = (λ h. absurd h, λ (i, le, lt, h). absurd (omega (arith, le, lt)))
In-each x body index (suc n) =
    let both = In-append x (body index) (each body (suc index) n) in
    let rest = In-each x body (suc index) n in
    (
      λ h. elim (both.0 h) [
        | inl now ↦ (index, omega arith, omega arith, now)
        | inr later ↦
            let (i, le, lt, k) = rest.0 later in (i, omega (arith, le), omega (arith, lt), k)
      ],
      λ (i, le, lt, h). elim (first_or_later index i le) [
        | inl e ↦ both.1 (inl (subst (λ j. In x (body j)) (sym e) h))
        | inr later ↦ both.1 (inr (rest.1 (i, later, omega (arith, lt), h)))
      ],
    )

module _ {Value : Type 0} (values : Values Value) (decides : DecidesEq values) where
  -- The change stands at the path, with values that differ.
  abbrev pub Differs : Change Value → Text → Option Value → Option Value → Type 0
  Differs change path a b = (change ≡ record { path = path; before = a; after = b }) × (a ≢ b)

  abbrev pub name_of : Value → Text
  name_of layer = elim (then_get (values.get (text "layer") layer) values.as_str) [
    | none ↦ text "unknown"
    | some name ↦ name
  ]

  -- The name that a path shows: that of the layer before, or of the one after where there is none.
  abbrev pub shown_name : Option Value → Option Value → Text
  shown_name (some a) b = name_of a
  shown_name none (some b) = name_of b
  shown_name none none = text "unknown"

  -- At an index of the two routes.
  abbrev pub InRoute : Change Value → Text → Value → Value → Type 0
  InRoute change prefix a b =
      (i : ℕ) × Differs change
        (indexed values prefix i
          ++ (text "." ++ shown_name (element i (layers values a)) (element i (layers values b))))
        (element i (layers values a)) (element i (layers values b))

  -- In the key or the route of a step.
  abbrev pub InStep : Change Value → ℕ → Option Value → Option Value → Type 0
  InStep change i a b =
      Differs change (indexed values (text "steps") i ++ text ".input")
        (then_get a (request_key values)) (then_get b (request_key values))
      ⊎ InRoute change (indexed values (text "steps") i ++ text ".path") (or_null values a)
          (or_null values b)

  abbrev pub InSteps : Change Value → Value → Value → Type 0
  InSteps change a b =
      (i : ℕ) × InStep change i (element i (report_steps values a))
        (element i (report_steps values b))

  In-compare_value :
      (change : Change Value) (path : Text) (a b : Option Value)
      → In change (compare_value values path a b) ↔ Differs change path a b
  unfolding compare_value
  In-compare_value change path a b =
      let same = option_eq_iff values decides a b in
      elim (Bool-cases (option_eq values a b)) [
        | inl e ↦ rw (compare_value, e) (λ h. absurd h, λ h. h.1 (same.0 e))
        | inr e ↦
            rw (compare_value, e)
              (
                λ h. elim h [ inl c ↦ (c, λ eq. absurd (cc (same.1 eq, e))) | inr i ↦ absurd i ],
                λ h. inl h.0,
              )
      ]

  layer_name-shown_name : (a b : Option Value) → layer_name values a b ≡ shown_name a b
  unfolding layer_name text
  layer_name-shown_name (some a) b = refl
  layer_name-shown_name none (some b) = refl
  layer_name-shown_name none none = refl

  In-compare_layer :
      (change : Change Value) (prefix : Text) (a b : Option (List Value)) (i : ℕ)
      → In change (compare_layer values prefix a b i)
        ↔ Differs change
            (indexed values prefix i ++ (text "." ++ shown_name (element i a) (element i b)))
            (element i a)
            (element i b)
  unfolding compare_layer
  In-compare_layer change prefix a b i =
      subst
        (λ name.
          In change (
            compare_value values (indexed values prefix i ++ (text "." ++ name)) (element i a)
              (element i b))
          ↔ Differs change
              (indexed values prefix i ++ (text "." ++ shown_name (element i a) (element i b)))
              (element i a) (element i b))
        (sym (layer_name-shown_name (element i a) (element i b)))
        (In-compare_value change _ (element i a) (element i b))

  -- A loop over the indices of two lists finds what is to be found at any index at all.
  In-loop :
      (change : Change Value) (body : ℕ → List (Change Value)) (a b : Option (List Value))
      (P : ℕ → Type 0)
      → ((i : ℕ) → In change (body i) ↔ P i)
      → ((i : ℕ) → element i a ≡ none → element i b ≡ none → ¬ P i)
      → In change (each body 0 (longer (length_or_zero a) (length_or_zero b))) ↔ ((i : ℕ) × P i)
  In-loop change body a b P round beyond =
      let n = longer (length_or_zero a) (length_or_zero b) in
      let rounds = In-each change body 0 n in
      (
        λ h. let (i, le, lt, k) = rounds.0 h in (i, (round i).0 k),
        λ (i, p). elim (below_or_beyond i n) [
          | inl below ↦ rounds.1 (i, omega arith, omega (arith, below), (round i).1 p)
          | inr past ↦
              let left = longer-left (length_or_zero a) (length_or_zero b) in
              let right = longer-right (length_or_zero a) (length_or_zero b) in
              absurd (
                beyond i (element-beyond i a (omega (arith, past, left)))
                  (element-beyond i b (omega (arith, past, right))) p)
        ],
      )

  nothing_there : (a b : Option Value) → a ≡ none → b ≡ none → a ≡ b
  nothing_there a b p q = p ∙ sym q

  In-compare_route :
      (change : Change Value) (prefix : Text) (a b : Value)
      → In change (compare_route values prefix a b) ↔ InRoute change prefix a b
  unfolding compare_route
  In-compare_route change prefix a b =
      In-loop change (compare_layer values prefix (layers values a) (layers values b))
        (layers values a) (layers values b) _
        (In-compare_layer change prefix (layers values a) (layers values b))
        (λ i p q h. h.1 (nothing_there _ _ p q))

  -- A step that neither report has holds no difference.
  InStep-beyond :
      (change : Change Value) (i : ℕ) (a b : Option Value)
      → a ≡ none
      → b ≡ none
      → ¬ InStep change i a b
  InStep-beyond change i a b p q h = elim h [
    | inl d ↦ d.1 (ap (λ x. then_get x (request_key values)) (nothing_there a b p q))
    | inr (j, d) ↦
        d.1 (ap (λ x. element j (layers values (or_null values x))) (nothing_there a b p q))
  ]

  In-compare_step :
      (change : Change Value) (a b : Option (List Value)) (i : ℕ)
      → In change (compare_step values a b i) ↔ InStep change i (element i a) (element i b)
  unfolding compare_step
  In-compare_step change a b i =
      In-append_iff change _ _
        (In-compare_value change _ (then_get (element i a) (request_key values))
          (then_get (element i b) (request_key values)))
        (In-compare_route change (step_path values i) (or_null values (element i a))
          (or_null values (element i b)))

  In-compare_steps :
      (change : Change Value) (a b : Value)
      → In change (compare_steps values a b) ↔ InSteps change a b
  unfolding compare_steps
  In-compare_steps change a b =
      In-loop change (compare_step values (report_steps values a) (report_steps values b))
        (report_steps values a) (report_steps values b) _
        (In-compare_step change (report_steps values a) (report_steps values b))
        (λ i p q. InStep-beyond change i _ _ p q)

  -- The places where two documents may differ.
  abbrev pub InDocuments : Change Value → Value → Value → Type 0
  InDocuments change before after =
      Differs change (text "context") (document_context values before (report_of values before))
        (document_context values after (report_of values after))
      ⊎ (Differs change (text "input") (request_key values (report_of values before))
            (request_key values (report_of values after))
          ⊎ (InRoute change (text "path") (report_of values before) (report_of values after)
              ⊎ InSteps change (report_of values before) (report_of values after)))

  -- The differences that are found are exactly those there are: a pair of different values of the
  -- context, of the key, of a layer at one index of the routes, or of the key or such a layer of a
  -- step at one index; each under the path that names this place, with the index and, for a layer,
  -- the name of the layer before, or after where there is none before.
  pub In-compare_documents :
      (change : Change Value) (before after : Value)
      → In change (compare_documents values before after) ↔ InDocuments change before after
  unfolding compare_documents
  In-compare_documents change before after =
      let old = report_of values before in
      let new = report_of values after in
      In-append_iff change _ _
        (In-compare_value change (text "context") (document_context values before old)
          (document_context values after new))
        (In-append_iff change _ _
          (In-compare_value change (text "input") (request_key values old) (request_key values new))
          (In-append_iff change _ _ (In-compare_route change (text "path") old new)
            (In-compare_steps change old new)))
