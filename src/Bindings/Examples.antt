-- ===== src/Bindings/Examples.antt =====
-- src/bindings.rs and src/conflicts.rs at a concrete inventory.
use whykey.Prelude.{
  true, false, Text, List, [], ◌∷◌, none, some, ◌≡◌, ◌↔◌, refl, inl, text, keep_word, words_from,
  is_whitespace, is_empty, trim, split_once, contains_char,
}
use whykey.Key.Combo.{parse_combo, strip_modifiers, modifier_round, main_key}
use whykey.Key.Modifiers.{modifier_mask}
use whykey.Key.Names.{normalize_key, is_known_key}
use whykey.Hyprland.States.{In}
use whykey.Bindings.Inventory.{
  BindingRecord, Inventory, GroupKey, group_key, new_filter, filter_matches,
}
use whykey.Bindings.Conflicts.{Conflict, build_conflicts}
use whykey.Bindings.Actions.{Distinct}
use whykey.Bindings.Reported.{group_of}
use whykey.Bindings.Clashes.{Differ, IsEntry, build_conflicts-Differ, build_conflicts-actions}

abbrev entry : Text → Text → BindingRecord
entry key action = record {
  source = text "Hyprland (hyprctl binds -j)";
  key = key;
  action = action;
  context = some (text "global");
  device = none;
  submap = none;
  certainty = text "runtime effective binding";
}

abbrev entries : List BindingRecord
entries =
    entry (text "SUPER+Q") (text "submap resize")
    ∷ entry (text "SUPER+A") (text "exec a")
    ∷ entry (text "SUPER+Q") (text "exec q")
    ∷ []

abbrev inventory : Inventory
inventory = record {
  schema_version = 1;
  complete = false;
  bindings = entries;
  unavailable = [];
  limitations = [];
  possible_matches = [];
}

abbrev super_q : GroupKey
super_q = group_key (entry (text "SUPER+Q") [])

abbrev clash : Conflict
clash = record {
  key = text "SUPER+Q";
  source = text "Hyprland (hyprctl binds -j)";
  context = some (text "global");
  device = none;
  submap = none;
  classification = text "the submap bind stops the binds listed after it";
  actions = text "submap resize" ∷ text "exec q" ∷ [];
  keycode = none;
}

one_conflict : build_conflicts entries ≡ (clash ∷ [], 0)
unfolding build_conflicts keep_word words_from is_whitespace
one_conflict = refl

build_conflicts-Differ_example :
    ((c : Conflict) × In c (build_conflicts entries).0 × (group_of c ≡ super_q))
    ↔ Differ entries super_q
build_conflicts-Differ_example = build_conflicts-Differ entries super_q (text "global") refl

clash_reported : In clash (build_conflicts entries).0
unfolding build_conflicts keep_word words_from is_whitespace
clash_reported = inl refl

build_conflicts-actions_example :
    Distinct clash.actions
    × ((a : Text)
        → In a clash.actions
          ↔ ((e : BindingRecord) × IsEntry entries (group_of clash) e × (e.action ≡ a)))
    × ((context : Text) × (clash.context ≡ some context))
build_conflicts-actions_example = build_conflicts-actions entries clash clash_reported

-- Bindings with different actions do not conflict if they differ in a field of the group.
abbrev plain : BindingRecord
plain = entry (text "SUPER+Q") (text "exec q")

abbrev other : BindingRecord
other = entry (text "SUPER+Q") (text "exec other")

other_source : build_conflicts (plain ∷ record other { source = text "sxhkd" } ∷ []) ≡ ([], 0)
unfolding build_conflicts keep_word words_from is_whitespace
other_source = refl

other_key : build_conflicts (plain ∷ record other { key = text "SUPER+A" } ∷ []) ≡ ([], 0)
unfolding build_conflicts keep_word words_from is_whitespace
other_key = refl

other_context :
    build_conflicts (plain ∷ record other { context = some (text "local") } ∷ []) ≡ ([], 0)
unfolding build_conflicts keep_word words_from is_whitespace
other_context = refl

other_device :
    build_conflicts (plain ∷ record other { device = some (text "keyboard") } ∷ []) ≡ ([], 0)
unfolding build_conflicts keep_word words_from is_whitespace
other_device = refl

other_submap :
    build_conflicts (plain ∷ record other { submap = some (text "resize") } ∷ []) ≡ ([], 0)
unfolding build_conflicts keep_word words_from is_whitespace
other_submap = refl

-- A query finds a binding under any spelling.
any_spelling : filter_matches (new_filter (text "win + enter")) (text "SUPER+Return") none ≡ true
unfolding filter_matches new_filter parse_combo is_empty trim strip_modifiers modifier_round
    split_once modifier_mask main_key contains_char normalize_key is_known_key
any_spelling = refl
