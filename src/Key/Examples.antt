-- ===== src/Key/Examples.antt =====
-- The key combinations and sequences of src/key.rs, on inputs of its tests.
use whykey.Prelude.{
  ℕ, Text, ◌++◌, some, to_lower, ok, err, text, ◌≡◌, refl, true, false, none, [], ◌∷◌, is_empty,
  trim, split_once, contains_char, split_whitespace, words_from, keep_word, is_whitespace, length,
  ◌≤◌, arith, text_eq, not, ◌&&◌,
}
use whykey.Key.Modifiers.{modifier_mask}
use whykey.Key.Names.{echo_limit, unknown_key, normalize_key, is_known_key}
use whykey.Key.Combo.{
  KeyCombo, parse_query, parse_combo, compact_display, display, strip_modifiers, modifier_round,
  main_key,
}
use whykey.Key.Sequence.{
  KeySequence, parse_sequence, checked_tokens, parse_tokens, parse_token, display_sequence,
}
use whykey.Key.RoundTrip.{display_roundtrip}
use whykey.Key.SequenceRoundTrip.{display_sequence_roundtrip}
use whykey.Key.Parsed.{IsParsed, parse_combo-IsParsed}
use whykey.Key.Distance.{edit_distance, distance, reversed, edit_distance-distance}
use whykey.Key.Fuel.{Loops, strip_modifiers-Loops}
use whykey.Key.Echo.{EchoesLittle, parse_combo-EchoesLittle}
use whykey.Key.Suggestion.{key_candidates, candidates_of_lines, suggestion}
use whykey.Key.Suggested.{Suggests, suggestion-Suggests}

abbrev copy : KeyCombo
copy = record { modifiers = 5; key = text "C"; alone = false }

copy_parses : parse_combo (text "ctrl+Shift + c") true ≡ ok copy
unfolding parse_combo is_empty trim text strip_modifiers modifier_round split_once modifier_mask
    main_key contains_char normalize_key is_known_key
copy_parses = refl

display_roundtrip_example :
    (parse_combo (compact_display copy) true ≡ ok copy)
    × (parse_combo (display copy) true ≡ ok copy)
display_roundtrip_example = display_roundtrip (text "ctrl+Shift + c") true copy copy_parses

parse_combo-IsParsed_example : IsParsed true copy
parse_combo-IsParsed_example = parse_combo-IsParsed (text "ctrl+Shift + c") true copy copy_parses

abbrev prefixed : KeySequence
prefixed = record {
  steps =
      record { modifiers = 4; key = text "B"; alone = false }
      ∷ record { modifiers = 4; key = text "LEFT"; alone = false }
      ∷ [];
}

prefixed_parses : parse_sequence (text " ctrl+b  ctrl+left") ≡ ok prefixed
unfolding parse_sequence parse_combo is_empty trim text strip_modifiers modifier_round split_once
    modifier_mask main_key contains_char normalize_key is_known_key parse_query checked_tokens
    parse_tokens parse_token split_whitespace words_from keep_word is_whitespace
prefixed_parses = refl

display_sequence_roundtrip_example : parse_sequence (display_sequence prefixed) ≡ ok prefixed
display_sequence_roundtrip_example =
    display_sequence_roundtrip (text " ctrl+b  ctrl+left") prefixed prefixed_parses

abbrev alone_ctrl : KeyCombo
alone_ctrl = record { modifiers = 0; key = text "CTRL"; alone = true }

misspelt : parse_combo (text "ctrl+Escap") true ≡ err (unknown_key (text "Escap"))
unfolding parse_combo is_empty trim text strip_modifiers modifier_round split_once modifier_mask
    main_key contains_char normalize_key is_known_key
misspelt = refl

parse_combo-EchoesLittle_example : EchoesLittle (unknown_key (text "Escap"))
parse_combo-EchoesLittle_example =
    parse_combo-EchoesLittle (text "ctrl+Escap") true (unknown_key (text "Escap")) misspelt

page_full : is_empty (text "PgUp") ≡ false
unfolding is_empty text
page_full = refl

page_plain : modifier_mask (text "PgUp") ≡ none
unfolding modifier_mask
page_plain = refl

page_single : (contains_char b'+' (text "PgUp") && not (text_eq (text "PgUp") (b'+' ∷ []))) ≡ false
unfolding contains_char text
page_single = refl

page_normal : normalize_key (text "PgUp") ≡ ok (text "PAGE_UP")
unfolding normalize_key text
page_normal = refl

short_query : length (text "ctrl+c") ≤ 9
unfolding text
short_query = omega arith

strip_modifiers-Loops_example :
    (rounds : ℕ) × (rounds ≤ length (text "ctrl+c"))
    × Loops rounds 0 (text "ctrl+c") (strip_modifiers 9 0 (text "ctrl+c"))
strip_modifiers-Loops_example = strip_modifiers-Loops 9 0 (text "ctrl+c") short_query

edit_distance-distance_example :
    edit_distance (text "escap") (text "escape")
    ≡ distance (reversed (text "escap") []) (reversed (text "escape") [])
edit_distance-distance_example = edit_distance-distance (text "escap") (text "escape")

abbrev a_few_keysyms : Text
a_few_keysyms = text "# header" ++ (b'\n' ∷ text "eacute 00e9")

eacute_suggested :
    candidates_of_lines (text "# header" ∷ text "eacute 00e9" ∷ text "x +20" ∷ [])
    ≡ (text "eacute", 0xe9 ∷ []) ∷ (text "x", text "x") ∷ []
unfolding candidates_of_lines text
eacute_suggested = refl

return_suggested : suggestion to_lower a_few_keysyms (text "Retrn") ≡ some (text "return")
unfolding suggestion text
return_suggested = refl

short_name : length (text "Retrn") ≤ echo_limit
unfolding text
short_name = omega arith

suggestion-Suggests_example :
    Suggests
      (to_lower (text "Retrn"))
      (key_candidates a_few_keysyms)
      (suggestion to_lower a_few_keysyms (text "Retrn"))
suggestion-Suggests_example = suggestion-Suggests to_lower a_few_keysyms (text "Retrn") short_name
