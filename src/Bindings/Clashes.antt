-- ===== src/Bindings/Clashes.antt =====
-- src/conflicts.rs: the conflicts of an inventory, told by its entries.
use whykey.Prelude.{false, Text, List, [], some, ◌≡◌, ◌≢◌, ◌↔◌, refl, sym, ap, ◌∙◌}
use mathlib.Core.Path.{subst}
use whykey.Hyprland.States.{In}
use whykey.Bindings.Groups.{members-In}
use whykey.Bindings.Inventory.{BindingRecord, GroupKey, group_key, compare_group, is_unresolved}
use whykey.Bindings.Conflicts.{
  Conflict, with_known_key, distinct_actions, conflict, context_of, build_conflicts,
}
use whykey.Bindings.Actions.{
  Distinct, distinct_actions-Distinct, distinct_actions-HasAction, differ-length, length-differ,
}
use whykey.Bindings.Reported.{
  compare_group-IsOrder, with_known_key-In, group_of, group_members, Clash, HasConflict-Clash,
  Clash-HasConflict, build_conflicts-In,
}

-- An entry whose key is known, of the group.
pub record IsEntry (entries : List BindingRecord) (group : GroupKey) (entry : BindingRecord)
    : Type 0 where
  pub among : In entry entries
  pub known : is_unresolved entry ≡ false
  pub grouped : group_key entry ≡ group

members-IsEntry :
    (entries : List BindingRecord) (group : GroupKey) (entry : BindingRecord)
    → In entry (group_members group entries) ↔ IsEntry entries group entry
members-IsEntry entries group entry =
    let of_group =
      members-In compare_group group_key compare_group-IsOrder group entry
        (with_known_key entries) in
    let known = with_known_key-In entry entries in
    (
      λ i.
          let (there, same) = of_group.0 i in
          let (there_too, resolved_key) = known.0 there in
          record { among = there_too; known = resolved_key; grouped = same },
      λ h. of_group.1 (known.1 (h.among, h.known), h.grouped),
    )

-- Two entries of the group do different things.
pub record Differ (entries : List BindingRecord) (group : GroupKey) : Type 0 where
  pub one : BindingRecord
  pub other : BindingRecord
  pub one_entry : IsEntry entries group one
  pub other_entry : IsEntry entries group other
  pub differ : one.action ≢ other.action

Clash-Differ :
    (c : Conflict) (entries : List BindingRecord) (group : GroupKey)
    → Clash c group (group_members group entries)
    → Differ entries group
Clash-Differ c entries group h =
    let own = group_members group entries in
    let (a, b, ia, ib, n) =
      length-differ (distinct_actions [] own) (distinct_actions-Distinct [] own tt) h.several in
    let (e, ie, ea) = (distinct_actions-HasAction a own).0 ia in
    let (f, jf, fb) = (distinct_actions-HasAction b own).0 ib in
    record {
      one = e;
      other = f;
      one_entry = (members-IsEntry entries group e).0 ie;
      other_entry = (members-IsEntry entries group f).0 jf;
      differ = λ same. n (sym ea ∙ same ∙ fb);
    }

-- A conflict bears its group and the actions of the group's entries.
told_group :
    (c : Conflict) (group : GroupKey) (own : List BindingRecord)
    → Clash c group own
    → group_of c ≡ group
told_group c group own h = ap group_of h.as_told

told_actions :
    (c : Conflict) (group : GroupKey) (own : List BindingRecord)
    → Clash c group own
    → c.actions ≡ distinct_actions [] own
told_actions c group own h = ap (λ (x : Conflict). x.actions) h.as_told

-- In a group whose context is known, a conflict is reported exactly when two of the entries whose
-- keys are known agree in source, key, context, device and submap and differ in their action.
pub build_conflicts-Differ :
    (entries : List BindingRecord) (group : GroupKey) (context : Text)
    → context_of group ≡ some context
    → ((c : Conflict) × In c (build_conflicts entries).0 × (group_of c ≡ group))
      ↔ Differ entries group
build_conflicts-Differ entries group context known =
    let own = group_members group entries in
    (
      λ (c, i, same).
          let (g, has) = (build_conflicts-In c entries).0 i in
          let clash = HasConflict-Clash c g (group_members g entries) has in
          let here = sym (told_group c g (group_members g entries) clash) ∙ same in
          subst (Differ entries) here (Clash-Differ c entries g clash),
      λ h.
          let e = (members-IsEntry entries group h.one).1 h.one_entry in
          let f = (members-IsEntry entries group h.other).1 h.other_entry in
          let ia = (distinct_actions-HasAction h.one.action own).1 (h.one, e, refl) in
          let ib = (distinct_actions-HasAction h.other.action own).1 (h.other, f, refl) in
          let long =
            differ-length h.one.action h.other.action (distinct_actions [] own) ia ib h.differ in
          let has = Clash-HasConflict group own context known long in
          let c = conflict group (distinct_actions [] own) own in
          (c, (build_conflicts-In c entries).1 (group, has), refl),
    )

own_actions :
    (entries : List BindingRecord) (g : GroupKey) (a : Text)
    → In a (distinct_actions [] (group_members g entries))
      ↔ ((entry : BindingRecord) × IsEntry entries g entry × (entry.action ≡ a))
own_actions entries g a =
    let acts = distinct_actions-HasAction a (group_members g entries) in
    (
      λ i.
          let (entry, there, same) = acts.0 i in
          (entry, (members-IsEntry entries g entry).0 there, same),
      λ (entry, is_entry, same). acts.1 (entry, (members-IsEntry entries g entry).1 is_entry, same),
    )

-- The actions of a reported conflict are those of the entries whose keys are known and that agree
-- with it in source, key, context, device and submap, each once, and its context is known.
pub build_conflicts-actions :
    (entries : List BindingRecord) (c : Conflict)
    → In c (build_conflicts entries).0
    → Distinct c.actions
      × ((a : Text)
          → In a c.actions
            ↔ ((entry : BindingRecord) × IsEntry entries (group_of c) entry × (entry.action ≡ a)))
      × ((context : Text) × (c.context ≡ some context))
build_conflicts-actions entries c i =
    let (g, has) = (build_conflicts-In c entries).0 i in
    let own = group_members g entries in
    let clash = HasConflict-Clash c g own has in
    let here = told_group c g own clash in
    let actions = told_actions c g own clash in
    let (context, known) = clash.in_context in
    (
      subst Distinct (sym actions) (distinct_actions-Distinct [] own tt),
      λ a.
          subst
            (λ l.
              In a l
              ↔ ((entry : BindingRecord) × IsEntry entries (group_of c) entry × (entry.action ≡ a)))
            (sym actions)
            (subst
              (λ k.
                In a (distinct_actions [] own)
                ↔ ((entry : BindingRecord) × IsEntry entries k entry × (entry.action ≡ a)))
              (sym here) (own_actions entries g a)),
      (context, subst (λ k. context_of k ≡ some context) (sym here) known),
    )
