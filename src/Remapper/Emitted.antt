-- ===== src/Remapper/Emitted.antt =====
-- src/remapper/keys.rs: the keysym of a press and the press of a keysym.
use whykey.Prelude.{
  ℕ, bit_and, String, Bool, true, false, ◌&&◌, Text, List, [], ◌∷◌, ◌++◌, Option, none, some, ok,
  text, text_eq, text_eq_sound, find, all, all-find, find_sound, ◌==◌, ◌≡◌, refl, sym, ap, ◌∙◌,
  is_some_and, arith,
}
use whykey.Key.Combo.{KeyCombo, from_parts}
use whykey.Remapper.Keysyms.{layout_invariant, keypad}
use whykey.Remapper.Keys.{all_modifiers, find_keysym}
use whykey.Remapper.Query.{
  query_presses, one_press, named_presses, row_presses, row_combo, find_invariant, downstream_combo,
}

abbrev same_row : String × ℕ → String × ℕ → Bool
same_row a b = text_eq (text a.0) (text b.0) && a.1 == b.1

-- Every keysym of the table is the only one of its code, and is its own normal form.
abbrev names_itself : String × ℕ → Bool
names_itself e =
    is_some_and (λ (f : String × ℕ). text_eq (from_parts 0 (text f.0)).key (text e.0))
      (find_invariant e.1)

all_name_themselves : all names_itself layout_invariant ≡ true
unfolding all from_parts text text_eq find find_invariant
all_name_themselves = refl

find-append :
    {A : Type 0} (p : A → Bool) (xs ys : List A) (x : A)
    → find p xs ≡ some x
    → find p (xs ++ ys) ≡ some x
unfolding find
find-append p [] ys x h = ground arith
find-append p (y ∷ xs) ys x h = ground (arith, find-append p xs ys x)

module _ (combo : KeyCombo) (layout_us : Bool) (e : String × ℕ) (alone : combo.alone ≡ false)
    (mods : bit_and combo.modifiers all_modifiers ≡ combo.modifiers)
    (named : find_keysym combo.key layout_invariant ≡ some e) where
  find_keysym-all : find_keysym combo.key (layout_invariant ++ keypad) ≡ some e
  unfolding find_keysym
  find_keysym-all =
      find-append (λ (f : String × ℕ). text_eq (text f.0) combo.key) layout_invariant keypad e named

  query_presses-named : query_presses combo none layout_us ≡ one_press combo.modifiers e.1 false
  query_presses-named =
      unfold query_presses in
      rw (alone, mods)
        (unfold named_presses in
          ap (λ (o : Option (String × ℕ)). row_presses o combo.key combo.modifiers layout_us)
            find_keysym-all)

  key-named : text e.0 ≡ combo.key
  unfolding find_keysym
  key-named =
      text_eq_sound (text e.0) combo.key
        (find_sound (λ (f : String × ℕ). text_eq (text f.0) combo.key) layout_invariant e named)

  row-named : names_itself e ≡ true
  unfolding find_keysym
  row-named =
      all-find (λ (f : String × ℕ). text_eq (text f.0) combo.key) names_itself layout_invariant e
        all_name_themselves named

  from_parts-named :
      (o : Option (String × ℕ))
      → is_some_and (λ (f : String × ℕ). text_eq (from_parts 0 (text f.0)).key (text e.0)) o ≡ true
      → row_combo o (record { mods = combo.modifiers; code = e.1 }) layout_us ≡ ok combo
  unfolding from_parts
  from_parts-named none h = ground arith
  from_parts-named (some f) h =
      ap (λ (key : Text). ok (record { modifiers = combo.modifiers; key = key; alone = false }))
        (text_eq_sound _ (text e.0) h ∙ key-named)
      ∙ ap (λ (a : Bool). ok (record { modifiers = combo.modifiers; key = combo.key; alone = a }))
          (sym alone)

  downstream_combo-named :
      downstream_combo (record { mods = combo.modifiers; code = e.1 }) layout_us ≡ ok combo
  downstream_combo-named =
      unfold downstream_combo in from_parts-named (find_invariant e.1) row-named

  -- A key whose keysym every layout has, held with modifiers that the remappers know, is queried as
  -- one press, whatever the layout; and a remapper that emits this press sends the key downstream.
  pub downstream_combo-query_presses :
      (query_presses combo none layout_us ≡ one_press combo.modifiers e.1 false)
      × (downstream_combo (record { mods = combo.modifiers; code = e.1 }) layout_us ≡ ok combo)
  downstream_combo-query_presses = (query_presses-named, downstream_combo-named)
