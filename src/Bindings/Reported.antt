-- ===== src/Bindings/Reported.antt =====
-- src/conflicts.rs: which conflicts are reported, and with which actions.
use whykey.Prelude.{
  ◌≤◌, Bool, true, false, Text, List, [], ◌∷◌, Option, none, some, length, ltb, ◌≡◌, ◌≢◌, ◌⊎◌, ◌↔◌,
  inl, inr, refl, sym, ap, ◌∙◌, arith, Bool-cases, Option-cases, IsOrder, compare_text,
  compare_text-IsOrder, compare_option-IsOrder, compare_pair-IsOrder,
}
use mathlib.Core.Path.{subst}
use whykey.Hyprland.States.{In}
use whykey.Bindings.Grouping.{push_groups, members}
use whykey.Bindings.Groups.{
  values_of, In-values, values-In, values-push_groups, push_groups-Ascending,
}
use whykey.Bindings.Inventory.{BindingRecord, GroupKey, group_key, compare_group, is_unresolved}
use whykey.Bindings.Conflicts.{
  Conflict, with_known_key, distinct_actions, conflict, context_of, conflict_if, group_conflict,
  push_conflict, conflicts_of, build_conflicts,
}

pub compare_group-IsOrder : IsOrder compare_group
unfolding compare_group
compare_group-IsOrder =
    let texts = compare_text-IsOrder in
    let options = compare_option-IsOrder compare_text texts in
    compare_pair-IsOrder _ _ texts (
      compare_pair-IsOrder _ _ texts
        (compare_pair-IsOrder _ _ options (compare_pair-IsOrder _ _ options options)))

pub with_known_key-In :
    (entry : BindingRecord) (entries : List BindingRecord)
    → In entry (with_known_key entries) ↔ (In entry entries × (is_unresolved entry ≡ false))
unfolding with_known_key
with_known_key-In entry [] = (λ i. absurd i, λ h. absurd h.0)
with_known_key-In entry (first ∷ entries) = elim (Bool-cases (is_unresolved first)) [
  | inl u ↦
      rw (with_known_key, u)
        (
          λ i. let (there, known) = (with_known_key-In entry entries).0 i in (inr there, known),
          λ h. elim h.0 [
            | inl same ↦ absurd (cc (u, h.1, ap is_unresolved same))
            | inr i ↦ (with_known_key-In entry entries).1 (i, h.1)
          ],
        )
  | inr u ↦
      rw (with_known_key, u)
        (
          λ i. elim i [
            | inl same ↦ (inl same, ap is_unresolved same ∙ u)
            | inr j ↦
                let (there, known) = (with_known_key-In entry entries).0 j in (inr there, known)
          ],
          λ h. elim h.0 [
            | inl same ↦ inl same
            | inr i ↦ inr ((with_known_key-In entry entries).1 (i, h.1))
          ],
        )
]

-- The group of a conflict.
abbrev pub group_of : Conflict → GroupKey
group_of c = (c.source, (c.key, (c.context, (c.device, c.submap))))

-- The entries of a group whose keys are known, in their order.
abbrev pub group_members : GroupKey → List BindingRecord → List BindingRecord
group_members group entries = members compare_group group_key group (with_known_key entries)

push_conflict-In :
    (c : Conflict) (first : Option Conflict) (conflicts : List Conflict)
    → In c (push_conflict first conflicts) ↔ ((first ≡ some c) ⊎ In c conflicts)
push_conflict-In c none conflicts = (inr, λ h. elim h [ inl e ↦ absurd (cc e) | inr i ↦ i ])
push_conflict-In c (some d) conflicts = (
  λ i. elim i [ inl e ↦ inl (ap some (sym e)) | inr j ↦ inr j ],
  λ h. elim h [ inl e ↦ inl (cc e) | inr j ↦ inr j ],
)

-- The group has this conflict.
abbrev pub HasConflict : Conflict → GroupKey → List BindingRecord → Type 0
HasConflict c group entries = group_conflict group entries (context_of group) ≡ some c

conflicts_of-In :
    (c : Conflict) (groups : List (GroupKey × List BindingRecord))
    → In c (conflicts_of groups).0 ↔ (
        (group : GroupKey) × (entries : List BindingRecord) × In (group, entries) groups
        × HasConflict c group entries)
unfolding conflicts_of
conflicts_of-In c [] = (λ i. absurd i, λ h. absurd h.2)
conflicts_of-In c ((group, entries) ∷ groups) =
    let pushed =
      push_conflict-In c (group_conflict group entries (context_of group))
        (conflicts_of groups).0 in
    let rest = conflicts_of-In c groups in
    (
      λ i. elim (pushed.0 i) [
        | inl e ↦ (group, entries, inl refl, e)
        | inr j ↦ let (g, es, there, has) = rest.0 j in (g, es, inr there, has)
      ],
      λ (g, es, there, has). elim there [
        | inl same ↦
            pushed.1
              (inl (subst (λ (p : GroupKey × List BindingRecord). HasConflict c p.0 p.1) same has))
        | inr i ↦ pushed.1 (inr (rest.1 (g, es, i, has)))
      ],
    )

-- What a conflict of a group says of it.
pub record Clash (c : Conflict) (group : GroupKey) (entries : List BindingRecord) : Type 0 where
  pub in_context : (context : Text) × (context_of group ≡ some context)
  pub several : 2 ≤ length (distinct_actions [] entries)
  pub as_told : c ≡ conflict group (distinct_actions [] entries) entries

conflict_if-some :
    (b : Bool) (group : GroupKey) (actions : List Text) (entries : List BindingRecord)
    (c : Conflict)
    → conflict_if b group actions entries ≡ some c
    → (b ≡ false) × (c ≡ conflict group actions entries)
conflict_if-some true group actions entries c h = cc
conflict_if-some false group actions entries c h = (refl, cc h)

pub HasConflict-Clash :
    (c : Conflict) (group : GroupKey) (entries : List BindingRecord)
    → HasConflict c group entries
    → Clash c group entries
unfolding group_conflict
HasConflict-Clash c group entries h = elim (Option-cases (context_of group)) [
  | inl e ↦
      let nothing : group_conflict group entries none ≡ some c =
        subst (λ o. group_conflict group entries o ≡ some c) e h in
      cc nothing
  | inr (context, e) ↦
      let told : group_conflict group entries (some context) ≡ some c =
        subst (λ o. group_conflict group entries o ≡ some c) e h in
      let (long, same) = conflict_if-some _ group (distinct_actions [] entries) entries c told in
      record { in_context = (context, e); several = ground (arith, long); as_told = same }
]

pub Clash-HasConflict :
    (group : GroupKey) (entries : List BindingRecord) (context : Text)
    → context_of group ≡ some context
    → 2 ≤ length (distinct_actions [] entries)
    → HasConflict (conflict group (distinct_actions [] entries) entries) group entries
unfolding group_conflict
Clash-HasConflict group entries context e h =
    let long : ltb (length (distinct_actions [] entries)) 2 ≡ false = ground (arith, h) in
    subst
      (λ o.
        group_conflict group entries o
        ≡ some (conflict group (distinct_actions [] entries) entries))
      (sym e) (ap (λ b. conflict_if b group (distinct_actions [] entries) entries) long)

-- The groups of the entries.
abbrev groups_of : List BindingRecord → List (GroupKey × List BindingRecord)
groups_of entries = push_groups compare_group group_key [] (with_known_key entries)

groups_of-members :
    (group : GroupKey) (entries : List BindingRecord)
    → values_of compare_group group_key compare_group-IsOrder group (groups_of entries)
      ≡ group_members group entries
unfolding values_of
groups_of-members group entries =
    values-push_groups compare_group group_key compare_group-IsOrder group []
      (with_known_key entries) tt

-- A group with a conflict has entries.
HasConflict-entries :
    (c : Conflict) (group : GroupKey) (entries : List BindingRecord)
    → HasConflict c group entries
    → entries ≢ []
unfolding distinct_actions
HasConflict-entries c group entries h e =
    let clash = HasConflict-Clash c group entries h in
    let long : 2 ≤ 0 = subst (λ es. 2 ≤ length (distinct_actions [] es)) e clash.several in
    omega (arith, long)

-- The loop over the groups finds the conflicts of the groups that the entries make.
pub build_conflicts-In :
    (c : Conflict) (entries : List BindingRecord)
    → In c (build_conflicts entries).0
      ↔ ((group : GroupKey) × HasConflict c group (group_members group entries))
unfolding build_conflicts
build_conflicts-In c entries =
    let loop = conflicts_of-In c (groups_of entries) in
    let ascending =
      push_groups-Ascending compare_group group_key compare_group-IsOrder []
        (with_known_key entries) tt in
    (
      λ i.
          let (group, es, there, has) = loop.0 i in
          let same =
            In-values compare_group group_key compare_group-IsOrder group es (groups_of entries)
              ascending there in
          (group, subst (HasConflict c group) (sym same ∙ groups_of-members group entries) has),
      λ (group, has).
          let same = groups_of-members group entries in
          let held =
            values_of compare_group group_key compare_group-IsOrder group (groups_of entries) in
          let also : HasConflict c group held = subst (HasConflict c group) (sym same) has in
          loop.1 (
            group,
            held,
            values-In compare_group group_key compare_group-IsOrder group (groups_of entries)
                (HasConflict-entries c group held also),
            also,
          ),
    )
