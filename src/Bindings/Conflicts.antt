-- ===== src/Bindings/Conflicts.antt =====
-- src/conflicts.rs: the conflicts among the bindings of an inventory.
use whykey.Prelude.{
  ℕ, suc, ◌+◌, Bool, true, false, ◌&&◌, Text, List, [], ◌∷◌, ◌++◌, Option, none, some, text,
  text_eq, split_whitespace, any, all, length, ltb, if◌then◌else◌, String, to_decimal,
}
use whykey.Bindings.Grouping.{push_groups}
use whykey.Bindings.Inventory.{
  new_filter, key_passes, BindingRecord, Inventory, GroupKey, group_key, compare_group,
  is_unresolved, record_keycode, Filters, filter_matches, contains, contains_optional,
}

pub record Conflict : Type 0 where
  pub key : Text
  pub source : Text
  pub context : Option Text
  pub device : Option Text
  pub submap : Option Text
  pub classification : Text
  pub actions : List Text
  pub keycode : Option ℕ

-- `filter(|entry| entry.certainty != UNRESOLVED_KEY_CERTAINTY)`
unfoldable pub with_known_key : List BindingRecord → List BindingRecord
unfolding is_unresolved
with_known_key [] = []
with_known_key (entry ∷ entries) = elim (is_unresolved entry) [
  | true ↦ with_known_key entries
  | false ↦ entry ∷ with_known_key entries
]

-- `if !actions.contains(&entry.action) { actions.push(…) }`
unfoldable pub push_action : List Text → Text → List Text
unfolding any text_eq
push_action actions action =
    if any (text_eq action) actions then actions else actions ++ action ∷ []

unfoldable pub distinct_actions : List Text → List BindingRecord → List Text
unfolding push_action
distinct_actions actions [] = actions
distinct_actions actions (entry ∷ entries) =
    distinct_actions (push_action actions entry.action) entries

-- `action.split_whitespace().next() == Some("submap")`
abbrev first_is_submap : List Text → Bool
first_is_submap [] = false
first_is_submap (w ∷ ws) = text_eq w (text "submap")

unfoldable pub is_submap : Text → Bool
unfolding split_whitespace text text_eq
is_submap action = first_is_submap (split_whitespace action)

-- `actions[..actions.len() - 1]`
abbrev all_but_last : List Text → List Text
all_but_last [] = []
all_but_last (a ∷ []) = []
all_but_last (a ∷ b ∷ rest) = a ∷ all_but_last (b ∷ rest)

unfoldable pub classify : Text → List Text → List BindingRecord → Text
unfolding any all is_submap text text_eq
classify source actions entries =
    if text_eq source (text "Hyprland (hyprctl binds -j)")
    then (if any is_submap (all_but_last actions)
        then text "the submap bind stops the binds listed after it"
        else text "multiple binds fire together; Hyprland runs every matching bind")
    else if all
        (λ (entry : BindingRecord). text_eq entry.certainty (text "runtime effective binding"))
        entries
    then text "possible; precedence/order is not exposed"
    else text "possible; runtime activation or precedence is unknown"

abbrev keycode_of_first : List BindingRecord → Option ℕ
keycode_of_first [] = none
keycode_of_first (entry ∷ entries) = record_keycode entry

abbrev pub conflict : GroupKey → List Text → List BindingRecord → Conflict
conflict (source, (key, (context, (device, submap)))) actions entries = record {
  key = key;
  source = source;
  context = context;
  device = device;
  submap = submap;
  classification = classify source actions entries;
  actions = actions;
  keycode = keycode_of_first entries;
}

abbrev pub context_of : GroupKey → Option Text
context_of (source, (key, (context, rest))) = context

abbrev pub conflict_if : Bool → GroupKey → List Text → List BindingRecord → Option Conflict
conflict_if true group actions entries = none
conflict_if false group actions entries = some (conflict group actions entries)

-- The conflict of a group whose context is known.
unfoldable pub group_conflict : GroupKey → List BindingRecord → Option Text → Option Conflict
unfolding distinct_actions classify record_keycode
group_conflict group entries none = none
group_conflict group entries (some context) =
    let actions = distinct_actions [] entries in
    conflict_if (ltb (length actions) 2) group actions entries

-- A group whose context is unknown counts if its actions differ.
unfoldable pub unknown_group : List BindingRecord → Option Text → ℕ
unfolding distinct_actions
unknown_group entries none = if ltb 1 (length (distinct_actions [] entries)) then 1 else 0
unknown_group entries (some context) = 0

abbrev pub push_conflict : Option Conflict → List Conflict → List Conflict
push_conflict none conflicts = conflicts
push_conflict (some c) conflicts = c ∷ conflicts

-- The loop over the groups.
unfoldable pub conflicts_of : List (GroupKey × List BindingRecord) → List Conflict × ℕ
unfolding group_conflict unknown_group
conflicts_of [] = ([], 0)
conflicts_of ((group, entries) ∷ groups) =
    let (conflicts, unknown_groups) = conflicts_of groups in
    (
      push_conflict (group_conflict group entries (context_of group)) conflicts,
      unknown_group entries (context_of group) + unknown_groups,
    )

unfoldable pub build_conflicts : List BindingRecord → List Conflict × ℕ
unfolding with_known_key push_groups compare_group conflicts_of
build_conflicts entries =
    conflicts_of (push_groups compare_group group_key [] (with_known_key entries))

unfoldable pub matches_conflict : Filters → Conflict → Bool
unfolding filter_matches new_filter any contains contains_optional
matches_conflict filters c =
    key_passes filters.key c.key c.keycode
    && (any (λ value. contains value filters.action) c.actions
        && (contains c.source filters.source
            && (contains_optional c.device filters.device
                && contains_optional c.submap filters.submap)))

unfoldable pub filter_conflicts : Filters → List Conflict → List Conflict
unfolding matches_conflict
filter_conflicts filters [] = []
filter_conflicts filters (c ∷ conflicts) =
    let rest = filter_conflicts filters conflicts in
    if matches_conflict filters c then c ∷ rest else rest

unfoldable pub count_unresolved : List BindingRecord → ℕ
unfolding is_unresolved
count_unresolved [] = 0
count_unresolved (entry ∷ entries) =
    let rest = count_unresolved entries in if is_unresolved entry then suc rest else rest

abbrev note : ℕ → String → List Text
note n wording = if ltb 0 n then (to_decimal 20 n ++ text wording) ∷ [] else []

pub record Report : Type 0 where
  pub schema_version : ℕ
  pub conflicts : List Conflict
  pub unavailable : List Text
  pub limitations : List Text

-- `current`, of the inventory that is collected.
unfoldable pub report : Inventory → Report
unfolding build_conflicts count_unresolved to_decimal text
report inventory =
    let (conflicts, unknown_groups) = build_conflicts inventory.bindings in
    record {
      schema_version = 1;
      conflicts = conflicts;
      unavailable = inventory.unavailable;
      limitations =
          inventory.limitations
          ++ (note unknown_groups
                " duplicate group(s) were omitted because their active context was unavailable"
              ++ (note (count_unresolved inventory.bindings)
                    " binding(s) whose key the source does not report were not compared"
                  ++ text
                      "identical actions and bindings in different applications are not global conflicts"
                    ∷ []));
    }
