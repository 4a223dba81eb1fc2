-- ===== src/Remapper/Examples.antt =====
-- The tables of src/remapper/keys.rs, on keys of its tests.
use whykey.Prelude.{ok, some, none, text, ◌≡◌, refl, false}
use whykey.Key.Combo.{KeyCombo}
use whykey.Remapper.Keysyms.{layout_invariant}
use whykey.Remapper.Keys.{find_keysym}
use whykey.Remapper.Query.{query_presses, one_press, downstream_combo}
use whykey.Remapper.Emitted.{downstream_combo-query_presses}

abbrev ctrl_escape : KeyCombo
ctrl_escape = record { modifiers = 4; key = text "ESCAPE"; alone = false }

escape_named : find_keysym (text "ESCAPE") layout_invariant ≡ some ("ESCAPE", 1)
unfolding find_keysym text
escape_named = refl

downstream_combo-query_presses_example :
    (query_presses ctrl_escape none false ≡ one_press 4 1 false)
    × (downstream_combo (record { mods = 4; code = 1 }) false ≡ ok ctrl_escape)
downstream_combo-query_presses_example =
    downstream_combo-query_presses ctrl_escape false ("ESCAPE", 1) refl refl escape_named
