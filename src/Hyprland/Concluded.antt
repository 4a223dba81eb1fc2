-- ===== src/Hyprland/Concluded.antt =====
-- src/layers/hyprland/matching.rs: what the conclusion says, and what it rests on.
use whykey.Prelude.{
  ℕ, Bool, true, false, List, [], ◌∷◌, any, ltb, ◌≡◌, ◌≢◌, refl, ◌⊎◌, inl, inr, ◌↔◌, arith,
  Bool-cases, if◌then◌else◌,
}
use whykey.Route.Model.{Outcome, LayerStatus, Propagation, from_parts}
use whykey.Hyprland.Binding.{Binding, BindingMatch, is_certain, normalize_submap}
use whykey.Hyprland.Matching.{Query}
use whykey.Hyprland.Flow.{FlowState, at_press, state_outcome, binding_propagation}
use whykey.Hyprland.Runs.{Runs, done, misses}
use whykey.Hyprland.Propagated.{binding_propagation-Runs}
use whykey.Hyprland.Inspect.{
  Summary, summary_arm, final_summary, match_status, match_propagation, match_summary,
  inspect_matches, inspect_alone_matches, inspect_bindings, reached, if_any, nothing_matches,
}

-- The press at which none of the matches matches.
Runs-none :
    (matches : List BindingMatch) → any is_certain matches ≡ false → Runs matches at_press at_press
unfolding any is_certain
Runs-none [] h = done
Runs-none (m ∷ ms) h = misses (ground arith) (Runs-none ms (ground arith))

-- Without a certain match the key may go on, so nothing else is concluded for sure.
uncertain_propagation :
    (matches : List BindingMatch)
    → any is_certain matches ≡ false
    → (binding_propagation matches ≢ Propagation.stops)
      × (binding_propagation matches ≢ Propagation.redirected)
unfolding state_outcome
uncertain_propagation matches h =
    let goes_on : Runs matches at_press at_press = Runs-none matches h in
    (
      λ e.
          let stays =
            (binding_propagation-Runs matches Propagation.stops (λ p. cc)).0 e at_press goes_on in
          cc,
      λ e.
          let stays =
            (binding_propagation-Runs matches Propagation.redirected (λ p. cc)).0 e at_press
              goes_on in
          cc,
    )

handled_arm :
    (p : Propagation) (only device : Bool) (count : ℕ)
    → final_summary only count (summary_arm LayerStatus.handled p only device) ≢ Summary.unreachable
handled_arm p only device count = grind arith

uncertain_arm :
    (p : Propagation) (only device : Bool) (count : ℕ)
    → (p ≢ Propagation.stops) × (p ≢ Propagation.redirected)
    → final_summary only count (summary_arm LayerStatus.indeterminate p only device)
      ≢ Summary.unreachable
uncertain_arm p only device count h = grind arith

match_summary-reachable :
    (skipped : ℕ) (matches : List BindingMatch)
    → match_summary skipped matches ≢ Summary.unreachable
unfolding match_summary match_status match_propagation
match_summary-reachable skipped matches = elim (Bool-cases (ltb 0 skipped)) [
  | inl e ↦ rw e (λ h. cc)
  | inr e ↦ elim (Bool-cases (any is_certain matches)) [
    | inl c ↦ rw (e, c) (handled_arm _ _ _ _)
    | inr c ↦ rw (e, c) (uncertain_arm _ _ _ _ (uncertain_propagation matches c))
  ]
]

-- A propagation after which the key does not go on to the next layer.
abbrev Takes : Propagation → Type 0
Takes p = (p ≡ Propagation.stops) ⊎ (p ≡ Propagation.redirected)

abbrev pub EndsIn : Propagation → List BindingMatch → Type 0
EndsIn p matches = (t : FlowState) → Runs matches at_press t → state_outcome t ≡ p

handled_outcome :
    (p q : Propagation)
    → Takes p
    → (from_parts LayerStatus.handled q ≡ from_parts LayerStatus.handled p) ↔ (q ≡ p)
unfolding from_parts
handled_outcome p q h = grind arith

match_propagation-EndsIn :
    (skipped : ℕ) (matches : List BindingMatch) (p : Propagation)
    → Takes p
    → (match_propagation skipped matches ≡ p) ↔ ((skipped ≡ 0) × EndsIn p matches)
unfolding match_propagation
match_propagation-EndsIn skipped matches p h =
    let each = binding_propagation-Runs matches p (grind arith) in
    elim (Bool-cases (ltb 0 skipped)) [
      | inl e ↦ rw e (grind arith)
      | inr e ↦ rw e (λ q. (ground arith, each.0 q), λ r. each.1 r.1)
    ]

uncertain_outcome :
    (p q : Propagation)
    → Takes p
    → (q ≢ Propagation.stops) × (q ≢ Propagation.redirected)
    → (from_parts LayerStatus.indeterminate q ≡ from_parts LayerStatus.handled p) ↔ (q ≡ p)
unfolding from_parts
uncertain_outcome p q h free = grind arith

-- The outcome takes the key exactly when the propagation does.
match_outcome :
    (skipped : ℕ) (matches : List BindingMatch) (p : Propagation)
    → Takes p
    → (from_parts (match_status skipped matches) (match_propagation skipped matches)
        ≡ from_parts LayerStatus.handled p)
      ↔ (match_propagation skipped matches ≡ p)
unfolding match_status match_propagation
match_outcome skipped matches p h = elim (Bool-cases (ltb 0 skipped)) [
  | inl e ↦ rw e (uncertain_outcome p Propagation.indeterminate h (λ q. cc, λ q. cc))
  | inr e ↦ elim (Bool-cases (any is_certain matches)) [
    | inl c ↦ rw (e, c) (handled_outcome p _ h)
    | inr c ↦ rw (e, c) (uncertain_outcome p _ h (uncertain_propagation matches c))
  ]
]

untaken :
    (o : Outcome) (p : Propagation)
    → (o ≡ Outcome.unknown) ⊎ (o ≡ Outcome.pass)
    → Takes p
    → o ≢ from_parts LayerStatus.handled p
unfolding from_parts
untaken o p h t e = grind arith

no_match_continues : (p : Propagation) → EndsIn p [] → ¬ Takes p
unfolding state_outcome
no_match_continues p ends t = let e = ends at_press done in grind arith

nothing_matches-Takes :
    (skipped : ℕ) (p : Propagation)
    → Takes p
    → ((nothing_matches skipped).outcome ≡ from_parts LayerStatus.handled p)
      ↔ ((skipped ≡ 0) × EndsIn p [])
nothing_matches-Takes skipped p h = (
  λ e. elim (Bool-cases (ltb 0 skipped)) [
    | inl s ↦ absurd (untaken (nothing_matches skipped).outcome p (inl (rw s refl)) h e)
    | inr s ↦ absurd (untaken (nothing_matches skipped).outcome p (inr (rw s refl)) h e)
  ],
  λ r. absurd (no_match_continues p r.1 h),
)

concluded :
    (query : Query) (skipped : ℕ) (alone : Bool) (matches : List BindingMatch) (p : Propagation)
    → Takes p
    → ((if_any matches (nothing_matches skipped) (
          if alone
          then inspect_alone_matches query skipped
          else inspect_matches query skipped)).outcome
        ≡ from_parts LayerStatus.handled p)
      ↔ ((skipped ≡ 0) × EndsIn p matches)
unfolding inspect_alone_matches inspect_matches
concluded query skipped alone [] p h = nothing_matches-Takes skipped p h
concluded query skipped true (m ∷ ms) p h =
    let runs = match_propagation-EndsIn skipped (m ∷ ms) p h in
    let outcome = handled_outcome p (match_propagation skipped (m ∷ ms)) h in
    (λ e. runs.0 (outcome.0 e), λ r. outcome.1 (runs.1 r))
concluded query skipped false (m ∷ ms) p h =
    let runs = match_propagation-EndsIn skipped (m ∷ ms) p h in
    let outcome = match_outcome skipped (m ∷ ms) p h in
    (λ e. runs.0 (outcome.0 e), λ r. outcome.1 (runs.1 r))

abbrev pub in_submap : Query → Query
in_submap query = record query { active_submap = normalize_submap query.active_submap }

-- Hyprland is said to consume a key exactly when every reported binding could be read and every run
-- of the press through the matches that are reached, whichever uncertain ones match and whichever
-- dispatchers fail, stops the key; and to redirect it exactly when each such run redirects it.
pub inspect_bindings-EndsIn :
    (query : Query) (bindings : List Binding) (skipped : ℕ)
    → (((inspect_bindings query bindings skipped).outcome ≡ Outcome.consumed)
        ↔ ((skipped ≡ 0) × EndsIn Propagation.stops (reached (in_submap query) bindings)))
      × (((inspect_bindings query bindings skipped).outcome ≡ Outcome.redirected)
          ↔ ((skipped ≡ 0) × EndsIn Propagation.redirected (reached (in_submap query) bindings)))
unfolding inspect_bindings from_parts
inspect_bindings-EndsIn query bindings skipped =
    let matches = reached (in_submap query) bindings in
    (
      concluded (in_submap query) skipped query.key.alone matches Propagation.stops (inl refl),
      concluded (in_submap query) skipped query.key.alone matches Propagation.redirected (inr refl),
    )

summary_reachable :
    (query : Query) (skipped : ℕ) (alone : Bool) (matches : List BindingMatch)
    → (if_any matches (nothing_matches skipped) (
        if alone
        then inspect_alone_matches query skipped
        else inspect_matches query skipped)).summary
      ≢ Summary.unreachable
unfolding inspect_alone_matches inspect_matches
summary_reachable query skipped alone [] = elim (Bool-cases (ltb 0 skipped)) [
  | inl e ↦ rw e (λ h. cc)
  | inr e ↦ rw e (λ h. cc)
]
summary_reachable query skipped true (m ∷ ms) = λ e. cc
summary_reachable query skipped false (m ∷ ms) = match_summary-reachable skipped (m ∷ ms)

-- What is concluded for a key has a summary that the program names: the arm of its `match` that
-- panics is not taken, whatever bindings are reported.
pub inspect_bindings-reachable :
    (query : Query) (bindings : List Binding) (skipped : ℕ)
    → (inspect_bindings query bindings skipped).summary ≢ Summary.unreachable
unfolding inspect_bindings
inspect_bindings-reachable query bindings skipped =
    summary_reachable (in_submap query) skipped query.key.alone (reached (in_submap query) bindings)
