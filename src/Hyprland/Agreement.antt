-- ===== src/Hyprland/Agreement.antt =====
-- src/layers/hyprland/matching.rs: the end of the walk in `reachable_matches`, and `processing` in
-- `binding_propagation`.
use mathlib.Core.List.{append-nil, append_assoc}
use whykey.Prelude.{
  Bool, true, false, not, List, [], ◌∷◌, ◌++◌, all, ◌≡◌, ◌≢◌, refl, sym, ap, ◌∙◌, ◌⊎◌, inl, inr,
  arith, Bool-cases, &&-true, if◌then◌else◌,
}
use whykey.Route.Model.{Propagation}
use whykey.Hyprland.Binding.{BindingMatch, is_certain}
use whykey.Hyprland.Flow.{
  FlowState, may_not_match, dispatched, at_press, propagation_eq, binding_propagation,
}
use whykey.Hyprland.Matching.{Walk, at_start, ends_walk, walk_step, walk_from, reachable_matches}
use whykey.Hyprland.Runs.{Step, over, waits, runs, Runs, done, misses, steps}
use whykey.Hyprland.Propagated.{binding_propagation-Runs, propagation_eq_iff}

abbrev pub no_catch_all : List BindingMatch → Bool
no_catch_all = all (λ (m : BindingMatch). not m.binding.catch_all)

-- The matches up to the first that ends the walk.
up_to_end : List BindingMatch → List BindingMatch
up_to_end [] = []
up_to_end (m ∷ ms) = m ∷ (if ends_walk m then [] else up_to_end ms)

walk_from-stopped :
    (walk : Walk) (ms : List BindingMatch)
    → walk.stopped ≡ true
    → (walk_from walk ms).reachable ≡ walk.reachable
unfolding walk_from walk_step
walk_from-stopped walk [] h = refl
walk_from-stopped walk (m ∷ ms) h =
    ground (arith, walk_from-stopped (walk_step walk m) ms, walk_step)

walk_step-reached :
    (walk : Walk) (m : BindingMatch)
    → walk.stopped ≡ false
    → not m.binding.catch_all ≡ true
    → ((walk_step walk m).reachable ≡ walk.reachable ++ m ∷ [])
      × ((walk_step walk m).stopped ≡ ends_walk m)
unfolding walk_step
walk_step-reached walk m h c = ground arith

walk_from-up_to_end :
    (walk : Walk) (ms : List BindingMatch)
    → walk.stopped ≡ false
    → no_catch_all ms ≡ true
    → (walk_from walk ms).reachable ≡ walk.reachable ++ up_to_end ms
unfolding walk_from up_to_end all
walk_from-up_to_end walk [] h c = sym (append-nil walk.reachable)
walk_from-up_to_end walk (m ∷ ms) h c =
    let (first, rest) = &&-true (not m.binding.catch_all) _ c in
    let (reached, stopped) = walk_step-reached walk m h first in
    let ended : Bool → List BindingMatch =
      λ b. walk.reachable ++ m ∷ (if b then [] else up_to_end ms) in
    elim (Bool-cases (ends_walk m)) [
      | inl e ↦ walk_from-stopped (walk_step walk m) ms (stopped ∙ e) ∙ reached ∙ ap ended (sym e)
      | inr e ↦
          walk_from-up_to_end (walk_step walk m) ms (stopped ∙ e) rest
          ∙ ap (λ (r : List BindingMatch). r ++ up_to_end ms) reached
          ∙ append_assoc walk.reachable (m ∷ []) (up_to_end ms)
          ∙ ap ended (sym e)
    ]

stays : (ms : List BindingMatch) (s t : FlowState) → s.processing ≡ false → Runs ms s t → t ≡ s
stays [] s t h done = refl
stays (m ∷ ms) s t h (misses e r) = stays ms s t h r
stays (m ∷ ms) s t h (steps {u} (over e same) r) = stays ms u t (rw same h) r ∙ same
stays (m ∷ ms) s t h (steps {u} (waits e q same) r) = absurd (cc)
stays (m ∷ ms) s t h (steps {u} (runs o e q a same) r) = absurd (cc)

idles : (ms : List BindingMatch) (s : FlowState) → s.processing ≡ false → Runs ms s s
idles [] s h = done
idles (m ∷ ms) s h = steps (over h refl) (idles ms s h)

-- Behind a match that ends the walk no state is processed on.
ends_walk-processing :
    (m : BindingMatch) (s t : FlowState)
    → ends_walk m ≡ true
    → Step m.binding s t
    → t.processing ≡ false
unfolding ends_walk dispatched
ends_walk-processing m s t h (over e same) = rw same e
ends_walk-processing m s t h (waits e q same) = absurd (ground arith)
ends_walk-processing m s t h (runs o e q a same) = rw same (ground arith)

ends_walk-certain : (m : BindingMatch) → may_not_match m.certainty ≡ true → ends_walk m ≡ false
unfolding ends_walk is_certain
ends_walk-certain m e = ground arith

shortened :
    (ends : Bool) (ms : List BindingMatch) (s t : FlowState)
    → (ends ≡ true → s.processing ≡ false)
    → Runs ms s t
    → Runs (if ends then [] else ms) s t
shortened false ms s t h r = r
shortened true ms s t h r = rw (stays ms s t (h refl) r) done

lengthened :
    (ends : Bool) (ms : List BindingMatch) (s t : FlowState)
    → (ends ≡ true → s.processing ≡ false)
    → Runs (if ends then [] else ms) s t
    → Runs ms s t
lengthened false ms s t h r = r
lengthened true ms s t h done = idles ms s (h refl)

Runs-up_to_end : (ms : List BindingMatch) (s t : FlowState) → Runs ms s t → Runs (up_to_end ms) s t
unfolding up_to_end
Runs-up_to_end [] s t done = done
Runs-up_to_end (m ∷ ms) s t (misses e r) = misses e (
    shortened (ends_walk m) _ s t (λ b. absurd (let no = ends_walk-certain m e in cc))
      (Runs-up_to_end ms s t r))
Runs-up_to_end (m ∷ ms) s t (steps {u} step r) = steps step (
    shortened (ends_walk m) _ u t (λ b. ends_walk-processing m s u b step)
      (Runs-up_to_end ms u t r))

up_to_end-Runs : (ms : List BindingMatch) (s t : FlowState) → Runs (up_to_end ms) s t → Runs ms s t
unfolding up_to_end
up_to_end-Runs [] s t done = done
up_to_end-Runs (m ∷ ms) s t (misses e r) = misses e (
    up_to_end-Runs ms s t
      (lengthened (ends_walk m) _ s t (λ b. absurd (let no = ends_walk-certain m e in cc)) r))
up_to_end-Runs (m ∷ ms) s t (steps {u} step r) = steps step (
    up_to_end-Runs ms u t
      (lengthened (ends_walk m) _ u t (λ b. ends_walk-processing m s u b step) r))

-- Matches with the same runs have the same propagation.
determined :
    (ms ns : List BindingMatch)
    → ((t : FlowState) → Runs ns at_press t → Runs ms at_press t)
    → binding_propagation ms ≢ Propagation.indeterminate
    → binding_propagation ns ≡ binding_propagation ms
determined ms ns h d =
    (binding_propagation-Runs ns (binding_propagation ms) d).1
      (λ t r. (binding_propagation-Runs ms (binding_propagation ms) d).0 refl t (h t r))

is_determined :
    (p : Propagation) → (p ≡ Propagation.indeterminate) ⊎ (p ≢ Propagation.indeterminate)
is_determined p = elim (Bool-cases (propagation_eq p Propagation.indeterminate)) [
  | inl e ↦ inl ((propagation_eq_iff p Propagation.indeterminate).0 e)
  | inr e ↦ inr (λ h. let same = (propagation_eq_iff p Propagation.indeterminate).1 h in cc)
]

same_runs :
    (ms ns : List BindingMatch)
    → ((t : FlowState) → Runs ms at_press t → Runs ns at_press t)
    → ((t : FlowState) → Runs ns at_press t → Runs ms at_press t)
    → binding_propagation ms ≡ binding_propagation ns
same_runs ms ns there back = elim (is_determined (binding_propagation ms)) [
  | inr d ↦ sym (determined ms ns back d)
  | inl i ↦ elim (is_determined (binding_propagation ns)) [
    | inr d ↦ determined ns ms there d
    | inl j ↦ i ∙ sym j
  ]
]

-- When no match is a catch-all, leaving out the matches that are not reached changes nothing in what
-- is concluded of the key's propagation.
pub binding_propagation-reachable_matches :
    (matches : List BindingMatch)
    → no_catch_all matches ≡ true
    → binding_propagation (reachable_matches matches).0 ≡ binding_propagation matches
unfolding reachable_matches
binding_propagation-reachable_matches matches c =
    ap binding_propagation (walk_from-up_to_end at_start matches refl c)
    ∙ same_runs (up_to_end matches) matches (up_to_end-Runs matches at_press)
        (Runs-up_to_end matches at_press)
