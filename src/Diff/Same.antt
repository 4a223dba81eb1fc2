-- ===== src/Diff/Same.antt =====
-- src/diff.rs: when no difference is found.
use whykey.Prelude.{
  ℕ, ◌≤◌, ◌<◌, true, Text, List, [], ◌++◌, Option, none, some, ◌≡◌, ◌⊎◌, inl, inr, ◌↔◌, refl, sym,
  ap, ◌∙◌, arith, Bool-cases, text,
}
use mathlib.Core.Path.{subst}
use whykey.Diff.Values.{Values, DecidesEq, element, then_get}
use whykey.Diff.Compare.{
  Change, each, length_or_zero, longer, report_of, option_eq, compare_value, request_key,
  document_context, layers, compare_layer, compare_route, report_steps, or_null, step_path,
  compare_step, compare_steps, compare_documents,
}
use whykey.Diff.Loops.{append-empty, each-empty, element-beyond, longer-left, longer-right}

pub below_or_beyond : (i n : ℕ) → (i < n) ⊎ (n ≤ i)
below_or_beyond i n = ground arith

module _ {Value : Type 0} (values : Values Value) (decides : DecidesEq values) where
  -- The routes have the same layers.
  abbrev pub SameRoute : Value → Value → Type 0
  SameRoute a b = (i : ℕ) → element i (layers values a) ≡ element i (layers values b)

  -- The steps have the same key and the same route.
  abbrev pub SameStep : Option Value → Option Value → Type 0
  SameStep a b =
      (then_get a (request_key values) ≡ then_get b (request_key values))
      × SameRoute (or_null values a) (or_null values b)

  abbrev pub SameSteps : Value → Value → Type 0
  SameSteps a b =
      (i : ℕ) → SameStep (element i (report_steps values a)) (element i (report_steps values b))

  pub option_eq_iff : (a b : Option Value) → (option_eq values a b ≡ true) ↔ (a ≡ b)
  option_eq_iff none none = (λ h. refl, λ h. refl)
  option_eq_iff none (some b) = (λ h. cc h, λ h. cc h)
  option_eq_iff (some a) none = (λ h. cc h, λ h. cc h)
  option_eq_iff (some a) (some b) = (
    λ h. ap some (decides.sound a b h),
    λ h. let same : a ≡ b = cc h in subst (λ c. values.eq a c ≡ true) same (decides.same a),
  )

  compare_value-empty :
      (path : Text) (a b : Option Value) → (compare_value values path a b ≡ []) ↔ (a ≡ b)
  unfolding compare_value
  compare_value-empty path a b = elim (Bool-cases (option_eq values a b)) [
    | inl e ↦ rw (compare_value, e) (λ h. (option_eq_iff a b).0 e, λ h. refl)
    | inr e ↦ rw (compare_value, e) (λ h. cc h, λ h. absurd (cc ((option_eq_iff a b).1 h, e)))
  ]

  both_empty :
      (xs ys : List (Change Value)) (P Q : Type 0)
      → (xs ≡ []) ↔ P
      → (ys ≡ []) ↔ Q
      → ((xs ++ ys) ≡ []) ↔ (P × Q)
  both_empty xs ys P Q p q =
      let both = append-empty xs ys in
      (λ h. (p.0 (both.0 h).0, q.0 (both.0 h).1), λ h. both.1 (p.1 h.0, q.1 h.1))

  -- A loop over all indices of two lists, whose rounds beyond both find nothing.
  loop-empty :
      (body : ℕ → List (Change Value)) (a b : Option (List Value)) (P : ℕ → Type 0)
      → ((i : ℕ) → (body i ≡ []) ↔ P i)
      → ((i : ℕ) → element i a ≡ none → element i b ≡ none → P i)
      → (each body 0 (longer (length_or_zero a) (length_or_zero b)) ≡ []) ↔ ((i : ℕ) → P i)
  loop-empty body a b P round beyond =
      let n = longer (length_or_zero a) (length_or_zero b) in
      let rounds = each-empty body 0 n in
      (
        λ h i. elim (below_or_beyond i n) [
          | inl below ↦ (round i).0 (rounds.0 h i (omega arith) (omega (arith, below)))
          | inr past ↦
              let left = longer-left (length_or_zero a) (length_or_zero b) in
              let right = longer-right (length_or_zero a) (length_or_zero b) in
              beyond i (element-beyond i a (omega (arith, past, left)))
                (element-beyond i b (omega (arith, past, right)))
        ],
        λ h. rounds.1 (λ i le lt. (round i).1 (h i)),
      )

  compare_layer-empty :
      (prefix : Text) (a b : Option (List Value)) (i : ℕ)
      → (compare_layer values prefix a b i ≡ []) ↔ (element i a ≡ element i b)
  unfolding compare_layer
  compare_layer-empty prefix a b i = compare_value-empty _ (element i a) (element i b)

  compare_route-SameRoute :
      (prefix : Text) (a b : Value) → (compare_route values prefix a b ≡ []) ↔ SameRoute a b
  unfolding compare_route
  compare_route-SameRoute prefix a b =
      loop-empty (compare_layer values prefix (layers values a) (layers values b)) (layers values a)
        (layers values b) (λ i. element i (layers values a) ≡ element i (layers values b))
        (compare_layer-empty prefix (layers values a) (layers values b)) (λ i e f. e ∙ sym f)

  compare_step-SameStep :
      (a b : Option (List Value)) (i : ℕ)
      → (compare_step values a b i ≡ []) ↔ SameStep (element i a) (element i b)
  unfolding compare_step
  compare_step-SameStep a b i =
      let old = element i a in
      let new = element i b in
      let keys =
        compare_value-empty _ (then_get old (request_key values))
          (then_get new (request_key values)) in
      let routes =
        compare_route-SameRoute (step_path values i) (or_null values old) (or_null values new) in
      both_empty _ _ _ _ keys routes

  absent_steps :
      (a b : Value) (i : ℕ)
      → element i (report_steps values a) ≡ none
      → element i (report_steps values b) ≡ none
      → SameStep (element i (report_steps values a)) (element i (report_steps values b))
  absent_steps a b i e f =
      let same = e ∙ sym f in
      (
        ap (λ s. then_get s (request_key values)) same,
        λ j. ap (λ s. element j (layers values (or_null values s))) same,
      )

  compare_steps-SameSteps : (a b : Value) → (compare_steps values a b ≡ []) ↔ SameSteps a b
  unfolding compare_steps
  compare_steps-SameSteps a b =
      loop-empty (compare_step values (report_steps values a) (report_steps values b))
        (report_steps values a) (report_steps values b)
        (λ i. SameStep (element i (report_steps values a)) (element i (report_steps values b)))
        (compare_step-SameStep (report_steps values a) (report_steps values b)) (absent_steps a b)

  -- No difference is found exactly when the documents agree in their context and the reports that
  -- they hold in their key, in the layers of their route at each index, and in the key and the
  -- layers of the step at each index, where a step that is absent has no key and the layers of null.
  pub compare_documents-Same :
      (before after : Value)
      → (compare_documents values before after ≡ []) ↔ (
          (document_context values before (report_of values before)
            ≡ document_context values after (report_of values after))
          × (request_key values (report_of values before)
              ≡ request_key values (report_of values after))
          × SameRoute (report_of values before) (report_of values after)
          × SameSteps (report_of values before) (report_of values after))
  unfolding compare_documents
  compare_documents-Same before after =
      let old = report_of values before in
      let new = report_of values after in
      let in_route = compare_route-SameRoute (text "path") old new in
      let in_steps = compare_steps-SameSteps old new in
      let in_key =
        compare_value-empty (text "input") (request_key values old) (request_key values new) in
      let in_context =
        compare_value-empty (text "context") (document_context values before old)
          (document_context values after new) in
      let all =
        both_empty _ _ _ _ in_context
          (both_empty _ _ _ _ in_key (both_empty _ _ _ _ in_route in_steps)) in
      (λ h. let (c, (k, (r, s))) = all.0 h in (c, k, r, s), λ (c, k, r, s). all.1 (c, (k, (r, s))))
