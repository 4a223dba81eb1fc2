-- ===== src/Bindings/Inventory.antt =====
-- src/bindings.rs: the inventory of bindings, in its order, and its filters.
use whykey.Prelude.{
  ℕ, Bool, true, false, not, ◌&&◌, ◌||◌, Text, List, [], ◌∷◌, ◌++◌, Option, none, some, ok, err,
  text, text_eq, to_lower, is_empty, split, after_text, length, take, parse_u32, to_decimal, ltb,
  ◌==◌, if◌then◌else◌, bit_or, Ordering, compare_text, compare_option, compare_pair,
}
use whykey.Key.Modifiers.{modifier_mask}
use whykey.Key.Combo.{KeyCombo, parse_query, from_str}
use whykey.Bindings.Grouping.{sort}

pub record BindingRecord : Type 0 where
  pub source : Text
  pub key : Text
  pub action : Text
  pub context : Option Text
  pub device : Option Text
  pub submap : Option Text
  pub certainty : Text

pub record Inventory : Type 0 where
  pub schema_version : ℕ
  pub complete : Bool
  pub bindings : List BindingRecord
  pub unavailable : List Text
  pub limitations : List Text
  pub possible_matches : List BindingRecord

abbrev pub max_bindings : ℕ
max_bindings = 8192

abbrev pub unresolved_key_certainty : Text
unresolved_key_certainty = text "runtime effective binding; key not reported"

-- The fields that records are compared by, in their order.
abbrev pub GroupKey : Type 0
GroupKey = Text × (Text × (Option Text × (Option Text × Option Text)))

abbrev pub group_key : BindingRecord → GroupKey
group_key entry = (entry.source, (entry.key, (entry.context, (entry.device, entry.submap))))

unfoldable pub compare_group : GroupKey → GroupKey → Ordering
unfolding compare_pair compare_text compare_option
compare_group = compare_pair compare_text (
    compare_pair compare_text (
      compare_pair (compare_option compare_text)
        (compare_pair (compare_option compare_text) (compare_option compare_text))))

-- The end of `current`: the collected records in order, and not too many of them.
unfoldable pub ordered : Inventory → Inventory
unfolding sort compare_group text
ordered inventory =
    let sorted = sort compare_group group_key inventory.bindings in
    if ltb max_bindings (length sorted)
    then record inventory {
      bindings = take max_bindings sorted;
      limitations =
          inventory.limitations ++ text "binding inventory was truncated to 8192 entries" ∷ [];
    }
    else record inventory { bindings = sorted }

-- `contains(needle)` of texts
abbrev contains_text : Text → Text → Bool
contains_text needle haystack = elim (after_text needle haystack) [ none ↦ false | some _ ↦ true ]

unfoldable pub contains : Text → Option Text → Bool
unfolding to_lower after_text
contains haystack none = true
contains haystack (some needle) = contains_text (to_lower needle) (to_lower haystack)

unfoldable pub contains_optional : Option Text → Option Text → Bool
unfolding contains
contains_optional field none = true
contains_optional none (some needle) = false
contains_optional (some value) (some needle) = contains value (some needle)

pub data KeyFilter : Type 0 where
  by_combo : KeyCombo → Text → KeyFilter
  by_text : Text → KeyFilter

-- `KeyFilter::new`
unfoldable pub new_filter : Text → KeyFilter
unfolding parse_query
new_filter raw = elim (parse_query raw) [
  | ok combo ↦ KeyFilter.by_combo combo raw
  | err _ ↦ KeyFilter.by_text raw
]

abbrev is_code : Text → Option ℕ → Bool
is_code key none = false
is_code key (some code) = text_eq key (text "CODE:" ++ to_decimal 10 code)

abbrev same_combo : KeyCombo → KeyCombo → Option ℕ → Bool
same_combo query bound keycode =
    (text_eq bound.key query.key || is_code query.key keycode)
    && (query.modifiers == 0 || bound.modifiers == query.modifiers)

-- `KeyFilter::matches`
unfoldable pub filter_matches : KeyFilter → Text → Option ℕ → Bool
unfolding contains from_str text text_eq to_decimal
filter_matches (KeyFilter.by_text needle) key keycode = contains key (some needle)
filter_matches (KeyFilter.by_combo query raw) key keycode = elim (from_str key) [
  | ok bound ↦ same_combo query bound keycode
  | err _ ↦ contains key (some raw)
]

-- The text in front of the suffix, if it ends so.
unfoldable pub strip_suffix : Text → Text → Option Text
unfolding text_eq
strip_suffix suffix [] = if is_empty suffix then some [] else none
strip_suffix suffix (c ∷ s) =
    let shorter = strip_suffix suffix s in
    elim (text_eq (c ∷ s) suffix) [
      | true ↦ some []
      | false ↦ elim shorter [ none ↦ none | some front ↦ some (c ∷ front) ]
    ]

-- `displayed_keycode`
unfoldable pub displayed_keycode : Text → Option ℕ
unfolding after_text strip_suffix parse_u32 text
displayed_keycode certainty = elim (after_text (text "; code:") certainty) [
  | none ↦ none
  | some rest ↦ elim (strip_suffix (text " shown as its key in the active XKB layout") rest) [
    | none ↦ none
    | some code ↦ parse_u32 code
  ]
]

unfoldable pub record_keycode : BindingRecord → Option ℕ
unfolding displayed_keycode
record_keycode entry = displayed_keycode entry.certainty

unfoldable pub is_unresolved : BindingRecord → Bool
unfolding text_eq text
is_unresolved entry = text_eq entry.certainty unresolved_key_certainty

-- The `try_fold` over the parts that are not empty.
unfoldable pub modifiers_of : ℕ → List Text → Option ℕ
unfolding is_empty modifier_mask
modifiers_of mask [] = some mask
modifiers_of mask (part ∷ parts) = elim (is_empty part) [
  | true ↦ modifiers_of mask parts
  | false ↦ elim (modifier_mask part) [
    | none ↦ none
    | some bit ↦ modifiers_of (bit_or mask bit) parts
  ]
]

unfoldable pub unresolved_modmask : BindingRecord → Option ℕ
unfolding is_unresolved strip_suffix modifiers_of split text
unresolved_modmask entry = elim (is_unresolved entry) [
  | false ↦ none
  | true ↦ elim (strip_suffix (text "<key not reported>") entry.key) [
    | none ↦ none
    | some modifiers ↦ modifiers_of 0 (split b'+' modifiers)
  ]
]

-- The filters of the command line.
pub record Filters : Type 0 where
  pub key : Option Text
  pub action : Option Text
  pub source : Option Text
  pub device : Option Text
  pub submap : Option Text

-- `key.map(KeyFilter::new)`
abbrev pub key_passes : Option Text → Text → Option ℕ → Bool
key_passes none key keycode = true
key_passes (some raw) key keycode = filter_matches (new_filter raw) key keycode

unfoldable pub matches_filter_key : Filters → BindingRecord → Bool
unfolding filter_matches new_filter record_keycode
matches_filter_key filters entry = key_passes filters.key entry.key (record_keycode entry)

unfoldable pub matches_other_filters : Filters → BindingRecord → Bool
unfolding contains contains_optional
matches_other_filters filters entry =
    contains entry.action filters.action
    && (contains entry.source filters.source
        && (contains_optional entry.device filters.device
            && contains_optional entry.submap filters.submap))

-- `retain`, and `filter(…).cloned()`
unfoldable pub retain : (BindingRecord → Bool) → List BindingRecord → List BindingRecord
retain p [] = []
retain p (x ∷ xs) = let rest = retain p xs in if p x then x ∷ rest else rest

abbrev is_mask : ℕ → Option ℕ → Bool
is_mask modifiers none = false
is_mask modifiers (some mask) = mask == modifiers

-- Whether the record's key, which is not reported, may be the one that is asked for.
abbrev possible : Filters → KeyCombo → BindingRecord → Bool
possible filters query entry =
    is_mask query.modifiers (unresolved_modmask entry)
    && (not (matches_filter_key filters entry) && matches_other_filters filters entry)

abbrev possible_by : Filters → Inventory → KeyFilter → List BindingRecord
possible_by filters inventory (KeyFilter.by_combo query raw) =
    retain (possible filters query) inventory.bindings
possible_by filters inventory (KeyFilter.by_text raw) = inventory.possible_matches

abbrev possible_of : Filters → Inventory → Option Text → List BindingRecord
possible_of filters inventory none = inventory.possible_matches
possible_of filters inventory (some raw) = possible_by filters inventory (new_filter raw)

unfoldable pub filter_inventory : Inventory → Filters → Inventory
unfolding matches_filter_key matches_other_filters unresolved_modmask retain new_filter
filter_inventory inventory filters = record inventory {
  possible_matches = possible_of filters inventory filters.key;
  bindings =
      retain (λ entry. matches_filter_key filters entry && matches_other_filters filters entry)
        inventory.bindings;
}
