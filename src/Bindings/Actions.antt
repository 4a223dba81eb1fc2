-- ===== src/Bindings/Actions.antt =====
-- src/conflicts.rs: the distinct actions of a group of bindings.
use whykey.Prelude.{
  ◌≤◌, true, Text, List, [], ◌∷◌, ◌++◌, any, length, ◌≡◌, ◌≢◌, ◌⊎◌, ◌↔◌, inl, inr, refl, sym, ap,
  ◌∙◌, arith, Bool-cases, text_eq, text_eq_sound, text_eq_refl,
}
use mathlib.Core.Path.{subst}
use whykey.Hyprland.States.{In, In-append}
use whykey.Bindings.Inventory.{BindingRecord}
use whykey.Bindings.Conflicts.{push_action, distinct_actions}

-- No member stands twice in the list.
abbrev pub Distinct : List Text → Type 0
Distinct [] = Unit
Distinct (a ∷ actions) = (¬ (In a actions)) × Distinct actions

-- Some entry has the action.
abbrev pub HasAction : Text → List BindingRecord → Type 0
HasAction a entries = (entry : BindingRecord) × In entry entries × (entry.action ≡ a)

any-In : (a : Text) (actions : List Text) → any (text_eq a) actions ≡ true → In a actions
unfolding any
any-In a [] h = ground arith
any-In a (b ∷ actions) h = elim (Bool-cases (text_eq a b)) [
  | inl e ↦ inl (text_eq_sound a b e)
  | inr e ↦ inr (any-In a actions (ground arith))
]

In-any : (a : Text) (actions : List Text) → In a actions → any (text_eq a) actions ≡ true
unfolding any
In-any a [] i = absurd i
In-any a (b ∷ actions) (inl e) =
    let same : text_eq a b ≡ true = subst (λ c. text_eq a c ≡ true) e (text_eq_refl a) in
    ground arith
In-any a (b ∷ actions) (inr i) = ground (arith, In-any a actions i)

Distinct-append :
    (a : Text) (actions : List Text)
    → Distinct actions
    → ¬ (In a actions)
    → Distinct (actions ++ a ∷ [])
Distinct-append a [] d n = ((λ i. i), tt)
Distinct-append a (b ∷ actions) d n = (
  λ i. elim ((In-append b actions (a ∷ [])).0 i) [
    | inl j ↦ d.0 j
    | inr j ↦ elim j [ inl e ↦ n (inl (sym e)) | inr e ↦ e ]
  ],
  Distinct-append a actions d.1 (λ i. n (inr i)),
)

push_action-Distinct :
    (actions : List Text) (a : Text) → Distinct actions → Distinct (push_action actions a)
unfolding push_action
push_action-Distinct actions a d = elim (Bool-cases (any (text_eq a) actions)) [
  | inl e ↦ rw (push_action, e) d
  | inr e ↦ rw (push_action, e) (Distinct-append a actions d (λ i. cc (In-any a actions i, e)))
]

push_action-In :
    (b : Text) (actions : List Text) (a : Text)
    → In b (push_action actions a) ↔ (In b actions ⊎ (a ≡ b))
unfolding push_action
push_action-In b actions a = elim (Bool-cases (any (text_eq a) actions)) [
  | inl e ↦
      rw (push_action, e)
        (
          inl,
          λ h. elim h [
            | inl i ↦ i
            | inr same ↦ subst (λ c. In c actions) same (any-In a actions e)
          ],
        )
  | inr e ↦
      rw (push_action, e)
        (
          λ h. elim ((In-append b actions (a ∷ [])).0 h) [
            | inl i ↦ inl i
            | inr i ↦ elim i [ inl same ↦ inr (sym same) | inr x ↦ absurd x ]
          ],
          λ h.
              (In-append b actions (a ∷ [])).1
                (elim h [ inl i ↦ inl i | inr same ↦ inr (inl (sym same)) ]),
        )
]

pub distinct_actions-Distinct :
    (actions : List Text) (entries : List BindingRecord)
    → Distinct actions
    → Distinct (distinct_actions actions entries)
unfolding distinct_actions
distinct_actions-Distinct actions [] d = d
distinct_actions-Distinct actions (entry ∷ entries) d =
    distinct_actions-Distinct (push_action actions entry.action) entries
      (push_action-Distinct actions entry.action d)

distinct_actions-from :
    (a : Text) (actions : List Text) (entries : List BindingRecord)
    → In a (distinct_actions actions entries) ↔ (In a actions ⊎ HasAction a entries)
unfolding distinct_actions
distinct_actions-from a actions [] = (inl, λ h. elim h [ inl i ↦ i | inr h ↦ absurd h.1 ])
distinct_actions-from a actions (entry ∷ entries) =
    let later = distinct_actions-from a (push_action actions entry.action) entries in
    let pushed = push_action-In a actions entry.action in
    (
      λ i. elim (later.0 i) [
        | inl j ↦ elim (pushed.0 j) [ inl old ↦ inl old | inr same ↦ inr (entry, inl refl, same) ]
        | inr h ↦ inr (h.0, inr h.1, h.2)
      ],
      λ h. elim h [
        | inl old ↦ later.1 (inl (pushed.1 (inl old)))
        | inr (e, inl same, has) ↦
            later.1 (inl (pushed.1 (inr (ap (λ (x : BindingRecord). x.action) (sym same) ∙ has))))
        | inr (e, inr i, has) ↦ later.1 (inr (e, i, has))
      ],
    )

pub distinct_actions-HasAction :
    (a : Text) (entries : List BindingRecord)
    → In a (distinct_actions [] entries) ↔ HasAction a entries
distinct_actions-HasAction a entries = (
  λ i. elim ((distinct_actions-from a [] entries).0 i) [ inl x ↦ absurd x | inr h ↦ h ],
  λ h. (distinct_actions-from a [] entries).1 (inr h),
)

-- Two members that differ make a list longer than one, and a longer list without repetition has two.
pub differ-length :
    (a b : Text) (actions : List Text) → In a actions → In b actions → a ≢ b → 2 ≤ length actions
differ-length a b [] i j n = absurd i
differ-length a b (c ∷ []) (inl e) (inl f) n = absurd (n (e ∙ sym f))
differ-length a b (c ∷ []) (inl e) (inr j) n = absurd j
differ-length a b (c ∷ []) (inr i) j n = absurd i
differ-length a b (c ∷ d ∷ actions) i j n = omega arith

pub length-differ :
    (actions : List Text)
    → Distinct actions
    → 2 ≤ length actions
    → (a : Text) × (b : Text) × In a actions × In b actions × (a ≢ b)
length-differ [] d h = absurd (omega arith)
length-differ (a ∷ []) d h = absurd (omega arith)
length-differ (a ∷ b ∷ actions) d h = (a, b, inl refl, inr (inl refl), λ e. d.0 (inl e))
