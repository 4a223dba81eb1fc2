-- ===== src/Hyprland/Reached.antt =====
-- src/layers/hyprland/matching.rs: the walk of `reachable_matches` and that of the propagation.
use whykey.Prelude.{
  Bool, ◌&&◌, ◌||◌, List, [], ◌∷◌, ◌++◌, any, ◌≡◌, refl, ap, ◌∙◌, arith, if◌then◌else◌,
}
use whykey.Hyprland.Binding.{Binding, BindingMatch}
use whykey.Hyprland.Matching.{
  Unreached, Walk, at_start, ends_walk, marks_found, walk_step, walk_from, reachable_matches,
}

-- Both flags of the loop say something of the matches that are reached so far.
abbrev HasFlags : Walk → Type 0
HasFlags walk =
    (walk.stopped ≡ any ends_walk walk.reachable) × (walk.found ≡ any marks_found walk.reachable)

any-last :
    (p : BindingMatch → Bool) (ms : List BindingMatch) (m : BindingMatch)
    → any p (ms ++ m ∷ []) ≡ (any p ms || p m)
unfolding any
any-last p [] m = ground arith
any-last p (n ∷ ms) m = ground (arith, any-last p ms m)

walk_step-HasFlags : (walk : Walk) (m : BindingMatch) → HasFlags walk → HasFlags (walk_step walk m)
unfolding walk_step
walk_step-HasFlags walk m h =
    grind (arith, any-last ends_walk walk.reachable m, any-last marks_found walk.reachable m)

walk_from-HasFlags :
    (walk : Walk) (ms : List BindingMatch) → HasFlags walk → HasFlags (walk_from walk ms)
unfolding walk_from
walk_from-HasFlags walk [] h = h
walk_from-HasFlags walk (m ∷ ms) h =
    walk_from-HasFlags (walk_step walk m) ms (walk_step-HasFlags walk m h)

walk_from-append :
    (walk : Walk) (ms ns : List BindingMatch)
    → walk_from walk (ms ++ ns) ≡ walk_from (walk_from walk ms) ns
unfolding walk_from
walk_from-append walk [] ns = refl
walk_from-append walk (m ∷ ms) ns = walk_from-append (walk_step walk m) ms ns

-- Where a match goes that is the last: what is reached of those before decides.
abbrev pub placed :
    List BindingMatch × List (Binding × Unreached)
    → BindingMatch
    → List BindingMatch × List (Binding × Unreached)
placed (reachable, unreached) m =
    if any ends_walk reachable
    then (reachable, unreached ++ (m.binding, Unreached.after_submap) ∷ [])
    else if any marks_found reachable && m.binding.catch_all
    then (reachable, unreached ++ (m.binding, Unreached.catch_all_after_found) ∷ [])
    else (reachable ++ m ∷ [], unreached)

walk_step-placed :
    (walk : Walk) (m : BindingMatch)
    → HasFlags walk
    → ((walk_step walk m).reachable, (walk_step walk m).unreached)
      ≡ placed (walk.reachable, walk.unreached) m
unfolding walk_step
walk_step-placed walk m h = grind arith

-- A match behind others is left out if one of them that is reached ends the walk, or, as a catch-all,
-- if one of them that is reached marks the key as handled. Otherwise it is reached, behind them.
pub reachable_matches-append :
    (before : List BindingMatch) (m : BindingMatch)
    → reachable_matches (before ++ m ∷ []) ≡ placed (reachable_matches before) m
unfolding reachable_matches walk_from
reachable_matches-append before m =
    ap (λ (w : Walk). (w.reachable, w.unreached)) (walk_from-append at_start before (m ∷ []))
    ∙ walk_step-placed (walk_from at_start before) m
        (walk_from-HasFlags at_start before (unfold any in (refl, refl)))
