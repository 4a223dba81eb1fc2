-- ===== src/Hyprland/Propagated.antt =====
-- src/layers/hyprland/matching.rs: the propagation that is concluded, and the runs of the key press.
use whykey.Prelude.{
  true, List, [], ◌∷◌, map, all, ◌≡◌, ◌≢◌, refl, ◌↔◌, inl, inr, arith, Bool-cases, &&-true,
}
use whykey.Route.Model.{Propagation}
use whykey.Hyprland.Binding.{Binding, BindingMatch, runs_on_press}
use whykey.Hyprland.Flow.{
  FlowState, is_pass, passed_over, flow_states, at_press, state_outcome, propagation_eq, all_are,
  joint_propagation, binding_propagation,
}
use whykey.Hyprland.Runs.{hands_on, succeeds, Step, over, waits, runs, Runs, done, steps}
use whykey.Hyprland.States.{In, In-flow_states}

pub propagation_eq_iff : (p q : Propagation) → (propagation_eq p q ≡ true) ↔ (p ≡ q)
propagation_eq_iff p q = grind arith

all_are_iff :
    (p : Propagation) (states : List FlowState)
    → (all_are p (map state_outcome states) ≡ true)
      ↔ ((t : FlowState) → In t states → state_outcome t ≡ p)
unfolding all
all_are_iff p [] = (λ h t i. absurd i, λ h. refl)
all_are_iff p (s ∷ states) =
    let head = propagation_eq_iff (state_outcome s) p in
    let tail = all_are_iff p states in
    (
      λ h t i.
          let (now, later) = &&-true (propagation_eq (state_outcome s) p) _ h in
          elim i [ inl e ↦ rw e (head.0 now) | inr j ↦ tail.0 later t j ],
      λ h. rw (head.1 (h s (inl refl))) (tail.1 (λ t i. h t (inr i))),
    )

joint_propagation_iff :
    (p first : Propagation) (rest : List Propagation)
    → p ≢ Propagation.indeterminate
    → (joint_propagation (first ∷ rest) ≡ p) ↔ (all_are p (first ∷ rest) ≡ true)
unfolding joint_propagation all
joint_propagation_iff p Propagation.continues rest d = grind arith
joint_propagation_iff p Propagation.stops rest d = grind arith
joint_propagation_iff p Propagation.redirected rest d = grind arith
joint_propagation_iff p Propagation.indeterminate rest d = grind arith

-- The joint propagation of some states is that of each of them.
joint_propagation-state_outcome :
    (p : Propagation) (states : List FlowState) (t : FlowState)
    → In t states
    → p ≢ Propagation.indeterminate
    → (joint_propagation (map state_outcome states) ≡ p)
      ↔ ((u : FlowState) → In u states → state_outcome u ≡ p)
joint_propagation-state_outcome p [] t i d = absurd i
joint_propagation-state_outcome p (s ∷ states) t i d =
    let joint = joint_propagation_iff p (state_outcome s) (map state_outcome states) d in
    let each = all_are_iff p (s ∷ states) in (λ h. each.0 (joint.0 h), λ h. joint.1 (each.1 h))

Step-exists : (b : Binding) (s : FlowState) → (t : FlowState) × Step b s t
Step-exists b s = elim (Bool-cases s.processing) [
  | inr e ↦ (s, over e refl)
  | inl e ↦ elim (Bool-cases (runs_on_press b)) [
    | inr r ↦ (passed_over b s, waits e r refl)
    | inl r ↦ elim (Bool-cases (is_pass b)) [
      | inl p ↦ (_, runs _ e r (hands_on p refl) refl)
      | inr p ↦ (_, runs _ e r (succeeds p refl) refl)
    ]
  ]
]

Runs-exists : (ms : List BindingMatch) (s : FlowState) → (t : FlowState) × Runs ms s t
Runs-exists [] s = (s, done)
Runs-exists (m ∷ ms) s =
    let (u, step) = Step-exists m.binding s in let (t, r) = Runs-exists ms u in (t, steps step r)

-- A propagation other than indeterminate is concluded from the matching bindings exactly when every
-- run of the key press through them, whichever uncertain bindings match and whichever dispatchers
-- fail, ends in that propagation.
pub binding_propagation-Runs :
    (matches : List BindingMatch) (p : Propagation)
    → p ≢ Propagation.indeterminate
    → (binding_propagation matches ≡ p)
      ↔ ((t : FlowState) → Runs matches at_press t → state_outcome t ≡ p)
unfolding binding_propagation
binding_propagation-Runs matches p d =
    let (t, r) = Runs-exists matches at_press in
    let states = flow_states matches (at_press ∷ []) in
    let joint = joint_propagation-state_outcome p states t ((In-flow_states matches t).1 r) d in
    (
      λ h u run. joint.0 h u ((In-flow_states matches u).1 run),
      λ h. joint.1 (λ u i. h u ((In-flow_states matches u).0 i)),
    )
