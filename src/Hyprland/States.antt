-- ===== src/Hyprland/States.antt =====
-- src/layers/hyprland/matching.rs: what the lists of flow states hold.
use whykey.Prelude.{
  Bool, true, false, List, [], ◌∷◌, ◌++◌, map, any, ◌≡◌, refl, ap, ◌↔◌, ◌⊎◌, inl, inr, arith,
  if◌then◌else◌, Bool-cases,
}
use whykey.Hyprland.Binding.{Binding, BindingMatch, runs_on_press}
use whykey.Hyprland.Flow.{
  FlowState, DispatcherOutcome, plain_outcome, is_pass, dispatcher_outcomes, may_not_match,
  state_eq, push_new, passed_over, dispatched, push_outcomes, push_state, push_states, next_states,
  flow_states, at_press,
}
use whykey.Hyprland.Runs.{
  Answers, hands_on, succeeds, fails, Step, over, waits, runs, Runs, done, misses, steps,
}

abbrev pub In : {A : Type 0} → A → List A → Type 0
In x [] = ⊥
In x (y ∷ ys) = (x ≡ y) ⊎ In x ys

pub In-append : {A : Type 0} (x : A) (xs ys : List A) → In x (xs ++ ys) ↔ (In x xs ⊎ In x ys)
In-append x [] ys = (inr, λ h. elim h [ inl e ↦ absurd e | inr i ↦ i ])
In-append x (y ∷ ys) zs = grind (arith, In-append x ys zs)

state_eq_sound : (s t : FlowState) → state_eq s t ≡ true → s ≡ t
unfolding state_eq
state_eq_sound s t h = ground arith

In-any : (s : FlowState) (xs : List FlowState) → any (state_eq s) xs ≡ true → In s xs
unfolding any
In-any s [] h = ground arith
In-any s (x ∷ xs) h = elim (Bool-cases (state_eq s x)) [
  | inl e ↦ inl (state_eq_sound s x e)
  | inr e ↦ inr (In-any s xs (ground arith))
]

In-push_new :
    (t : FlowState) (xs : List FlowState) (x : FlowState)
    → In t (push_new xs x) ↔ (In t xs ⊎ (t ≡ x))
unfolding push_new
In-push_new t xs x = elim (Bool-cases (any (state_eq x) xs)) [
  | inl e ↦
      let kept = In-any x xs e in rw e (inl, λ h. elim h [ inl i ↦ i | inr same ↦ rw same kept ])
  | inr e ↦ rw e (grind (arith, In-append t xs (x ∷ [])))
]

In-push_outcomes :
    (b : Binding) (s t : FlowState) (next : List FlowState) (os : List DispatcherOutcome)
    → In t (push_outcomes b s next os) ↔ (In t next ⊎ In t (map (dispatched b s) os))
unfolding push_outcomes
In-push_outcomes b s t next [] = (inl, λ h. elim h [ inl i ↦ i | inr e ↦ absurd e ])
In-push_outcomes b s t next (o ∷ os) = grind (
  arith,
  In-push_outcomes b s t (push_new next (dispatched b s o)) os,
  In-push_new t next (dispatched b s o),
)

-- The answers of a dispatcher, with the two tests that they depend on.
abbrev outcomes_by : (pass auto : Bool) → List DispatcherOutcome
outcomes_by pass auto =
    if pass
    then record { success = true; passes = true; redirects = true } ∷ []
    else if auto
    then plain_outcome true ∷ plain_outcome false ∷ []
    else plain_outcome true ∷ []

Answers-outcomes_by :
    (b : Binding) (s t : FlowState) (pass auto : Bool)
    → is_pass b ≡ pass
    → b.auto_consuming ≡ auto
    → In t (map (dispatched b s) (outcomes_by pass auto))
    → (o : DispatcherOutcome) × Answers b o × (t ≡ dispatched b s o)
Answers-outcomes_by b s t true auto p a (inl e) = (_, hands_on p refl, e)
Answers-outcomes_by b s t true auto p a (inr x) = absurd x
Answers-outcomes_by b s t false true p a (inl e) = (_, succeeds p refl, e)
Answers-outcomes_by b s t false true p a (inr (inl e)) = (_, fails p a refl, e)
Answers-outcomes_by b s t false true p a (inr (inr x)) = absurd x
Answers-outcomes_by b s t false false p a (inr x) = absurd x
Answers-outcomes_by b s t false false p a (inl e) = (_, succeeds p refl, e)

outcomes_by-Answers :
    (b : Binding) (s : FlowState) (o : DispatcherOutcome) (pass auto : Bool)
    → is_pass b ≡ pass
    → b.auto_consuming ≡ auto
    → Answers b o
    → In (dispatched b s o) (map (dispatched b s) (outcomes_by pass auto))
outcomes_by-Answers b s o true auto p a (hands_on q e) = inl (ap (dispatched b s) e)
outcomes_by-Answers b s o false auto p a (hands_on q e) = absurd (cc)
outcomes_by-Answers b s o true auto p a (succeeds q e) = absurd (cc)
outcomes_by-Answers b s o false true p a (succeeds q e) = inl (ap (dispatched b s) e)
outcomes_by-Answers b s o false false p a (succeeds q e) = inl (ap (dispatched b s) e)
outcomes_by-Answers b s o true auto p a (fails q c e) = absurd (cc)
outcomes_by-Answers b s o false true p a (fails q c e) = inr (inl (ap (dispatched b s) e))
outcomes_by-Answers b s o false false p a (fails q c e) = absurd (cc)

push_state-over :
    (b : Binding) (s : FlowState) (next : List FlowState)
    → s.processing ≡ false
    → push_state b next s ≡ next ++ s ∷ []
unfolding push_state
push_state-over b s next e = ground arith

push_state-waits :
    (b : Binding) (s : FlowState) (next : List FlowState)
    → s.processing ≡ true
    → runs_on_press b ≡ false
    → push_state b next s ≡ push_new next (passed_over b s)
unfolding push_state
push_state-waits b s next e r = ground arith

push_state-runs :
    (b : Binding) (s : FlowState) (next : List FlowState)
    → s.processing ≡ true
    → runs_on_press b ≡ true
    → push_state b next s ≡ push_outcomes b s next (dispatcher_outcomes b)
unfolding push_state
push_state-runs b s next e r = ground arith

module _ (b : Binding) (s t : FlowState) (next : List FlowState) where
  In-over : s.processing ≡ false → In t (next ++ s ∷ []) ↔ (In t next ⊎ Step b s t)
  In-over e = (
    λ i. elim ((In-append t next (s ∷ [])).0 i) [
      | inl j ↦ inl j
      | inr (inl same) ↦ inr (over e same)
      | inr (inr x) ↦ absurd x
    ],
    λ i. elim i [
      | inl j ↦ (In-append t next (s ∷ [])).1 (inl j)
      | inr (over _ same) ↦ (In-append t next (s ∷ [])).1 (inr (inl same))
      | inr (waits p _ _) ↦ absurd (cc)
      | inr (runs _ p _ _ _) ↦ absurd (cc)
    ],
  )

  In-waits :
      s.processing ≡ true
      → runs_on_press b ≡ false
      → In t (push_new next (passed_over b s)) ↔ (In t next ⊎ Step b s t)
  In-waits e r = (
    λ i. elim ((In-push_new t next (passed_over b s)).0 i) [
      | inl j ↦ inl j
      | inr same ↦ inr (waits e r same)
    ],
    λ i. elim i [
      | inl j ↦ (In-push_new t next (passed_over b s)).1 (inl j)
      | inr (over p _) ↦ absurd (cc)
      | inr (waits _ _ same) ↦ (In-push_new t next (passed_over b s)).1 (inr same)
      | inr (runs _ _ q _ _) ↦ absurd (cc)
    ],
  )

  In-runs :
      s.processing ≡ true
      → runs_on_press b ≡ true
      → In t (push_outcomes b s next (dispatcher_outcomes b)) ↔ (In t next ⊎ Step b s t)
  unfolding dispatcher_outcomes
  In-runs e r =
      let member = In-push_outcomes b s t next (dispatcher_outcomes b) in
      (
        λ i. elim (member.0 i) [
          | inl j ↦ inl j
          | inr k ↦
              let (o, answers, same) = Answers-outcomes_by b s t _ _ refl refl k in
              inr (runs o e r answers same)
        ],
        λ i. elim i [
          | inl j ↦ member.1 (inl j)
          | inr (over p _) ↦ absurd (cc)
          | inr (waits _ q _) ↦ absurd (cc)
          | inr (runs o _ _ answers same) ↦
              member.1 (inr (rw same (outcomes_by-Answers b s o _ _ refl refl answers)))
        ],
      )

  In-push_state : In t (push_state b next s) ↔ (In t next ⊎ Step b s t)
  In-push_state = elim (Bool-cases s.processing) [
    | inr e ↦ rw (push_state-over b s next e) (In-over e)
    | inl e ↦ elim (Bool-cases (runs_on_press b)) [
      | inr r ↦ rw (push_state-waits b s next e r) (In-waits e r)
      | inl r ↦ rw (push_state-runs b s next e r) (In-runs e r)
    ]
  ]

In-push_states :
    (b : Binding) (t : FlowState) (next states : List FlowState)
    → In t (push_states b next states) ↔ (In t next ⊎ ((s : FlowState) × In s states × Step b s t))
unfolding push_states
In-push_states b t next [] = (inl, λ i. elim i [ inl j ↦ j | inr (s, x, step) ↦ absurd x ])
In-push_states b t next (s ∷ states) =
    let first = In-push_state b s t next in
    let rest = In-push_states b t (push_state b next s) states in
    (
      λ i. elim (rest.0 i) [
        | inr (u, j, step) ↦ inr (u, inr j, step)
        | inl j ↦ elim (first.0 j) [ inl k ↦ inl k | inr step ↦ inr (s, inl refl, step) ]
      ],
      λ i. elim i [
        | inl j ↦ rest.1 (inl (first.1 (inl j)))
        | inr (u, inr j, step) ↦ rest.1 (inr (u, j, step))
        | inr (u, inl e, step) ↦ rest.1 (inl (first.1 (inr (rw (← e) step))))
      ],
    )

In-next_states :
    (m : BindingMatch) (t : FlowState) (states : List FlowState)
    → In t (next_states m states) ↔ (
        ((may_not_match m.certainty ≡ true) × In t states)
        ⊎ ((s : FlowState) × In s states × Step m.binding s t))
unfolding next_states
In-next_states m t states = elim (Bool-cases (may_not_match m.certainty)) [
  | inl e ↦ rw e (grind (arith, In-push_states m.binding t states states))
  | inr e ↦ rw e (grind (arith, In-push_states m.binding t [] states))
]

Runs-flow_states :
    (ms : List BindingMatch) (s t : FlowState) (states : List FlowState)
    → In s states
    → Runs ms s t
    → In t (flow_states ms states)
unfolding flow_states
Runs-flow_states [] s t states i done = i
Runs-flow_states (m ∷ ms) s t states i (misses e r) =
    Runs-flow_states ms s t (next_states m states) ((In-next_states m s states).1 (inl (e, i))) r
Runs-flow_states (m ∷ ms) s t states i (steps {u} step r) =
    Runs-flow_states ms u t (next_states m states)
      ((In-next_states m u states).1 (inr (s, i, step))) r

flow_states-Runs :
    (ms : List BindingMatch) (t : FlowState) (states : List FlowState)
    → In t (flow_states ms states)
    → (s : FlowState) × In s states × Runs ms s t
unfolding flow_states
flow_states-Runs [] t states i = (t, i, done)
flow_states-Runs (m ∷ ms) t states i =
    let (u, j, r) = flow_states-Runs ms t (next_states m states) i in
    elim ((In-next_states m u states).0 j) [
      | inl (e, k) ↦ (u, k, misses e r)
      | inr (s, k, step) ↦ (s, k, steps step r)
    ]

-- The states at the end are those that a run leads to from the press.
pub In-flow_states :
    (ms : List BindingMatch) (t : FlowState)
    → In t (flow_states ms (at_press ∷ [])) ↔ Runs ms at_press t
In-flow_states ms t = (
  λ i.
      let (s, j, r) = flow_states-Runs ms t (at_press ∷ []) i in
      elim j [ inl e ↦ rw (← e) r | inr x ↦ absurd x ],
  Runs-flow_states ms at_press t (at_press ∷ []) (inl refl),
)
