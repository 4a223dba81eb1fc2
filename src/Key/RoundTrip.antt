-- ===== src/Key/RoundTrip.antt =====
-- src/key.rs: the parser on what the two displays print.
use whykey.Prelude.{
  ℕ, Bool, false, Text, [], ◌++◌, ok, trim, is_empty, length, ◌≡◌, sym, ap, ◌∙◌, arith,
}
use whykey.Key.Modifiers.{display_order}
use whykey.Key.Combo.{KeyCombo, compact_display, display, strip_modifiers, parse_combo}
use whykey.Key.Strip.{
  Style, compact, spaced, joined, AllReadable, strip-key, strip-key_spaced, strip-joined,
}
use whykey.Key.Displays.{
  compact_display-joined, display-joined, readable_compact, readable_first, readable_spaced,
  collect-display_order, trim_key, trim_key_spaced, trim-joined, joined-full,
}
use whykey.Key.Parsed.{IsParsed, main_key-IsKeyName, parse_combo-IsParsed}

module _ (v : Bool) (c : KeyCombo) (p : IsParsed v c) where
  parse_combo-text :
      (s r : Text)
      → trim s ≡ s
      → is_empty s ≡ false
      → strip_modifiers (length s) 0 s ≡ ok (c.modifiers, r)
      → trim r ≡ c.key
      → parse_combo s v ≡ ok c
  unfolding parse_combo
  parse_combo-text s r t full stripped key =
      rw (t, full, stripped, key)
        (main_key-IsKeyName v s c.modifiers c.key p.named p.known
          ∙ ap (λ (b : Bool). ok (record c { alone = b })) (sym p.typed))

  parse_combo-joined :
      (style : Style)
      → AllReadable [] style.trail display_order
      → AllReadable style.next style.trail display_order
      → ((fuel m : ℕ) → strip_modifiers fuel m (style.next ++ c.key) ≡ ok (m, style.next ++ c.key))
      → trim (style.next ++ c.key) ≡ c.key
      → parse_combo (joined style [] c.modifiers display_order c.key) v ≡ ok c
  parse_combo-joined style h hn last t =
      let s = joined style [] c.modifiers display_order c.key in
      let (r, stripped, key) =
        strip-joined style c.key last t display_order [] (length s) 0 c.modifiers c.modifiers h hn
          (strip-key c.key p.named) (trim_key c.key p.named) (omega arith)
          (collect-display_order c.modifiers p.bounded) in
      parse_combo-text s r (trim-joined style c.modifiers c.key p.named)
        (joined-full style c.modifiers c.key p.named) stripped key

  pub parse_combo-compact_display_parsed : parse_combo (compact_display c) v ≡ ok c
  parse_combo-compact_display_parsed = rw (compact_display-joined c p.typed) (
      parse_combo-joined compact readable_compact readable_compact (strip-key c.key p.named)
        (trim_key c.key p.named))

  parse_combo-display_parsed : parse_combo (display c) v ≡ ok c
  parse_combo-display_parsed = rw (display-joined c p.typed) (
      parse_combo-joined spaced readable_first readable_spaced (strip-key_spaced c.key p.named)
        (trim_key_spaced c.key p.named))

-- If a text parses to a combination, with or without the check of the key's name, then both
-- displays of that combination, the compact one and the one with spaces, parse to it again.
pub display_roundtrip :
    (input : Text) (validate_key : Bool) (c : KeyCombo)
    → parse_combo input validate_key ≡ ok c
    → (parse_combo (compact_display c) validate_key ≡ ok c)
      × (parse_combo (display c) validate_key ≡ ok c)
display_roundtrip input v c h =
    let p = parse_combo-IsParsed input v c h in
    (parse_combo-compact_display_parsed v c p, parse_combo-display_parsed v c p)
