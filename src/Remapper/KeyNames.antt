-- ===== src/Remapper/KeyNames.antt =====
-- src/remapper/keys.rs: `evdev_code` on the names that `evdev_name` prints.
use whykey.Prelude.{
  ℕ, String, Bool, Text, ◌++◌, Option, none, some, text, to_lower, strip_prefix, to_upper-to_lower,
  ◌==◌, ◌≡◌, ap, is_some_and,
}
use whykey.Remapper.Keys.{bare_name, find_evdev_name, evdev_code}

abbrev reads_back : ℕ × String → Bool
reads_back e = is_some_and (λ (code : ℕ). code == e.0) (evdev_code (text "KEY_" ++ text e.1))

abbrev pub code_if_known : Option (ℕ × String) → Option ℕ
code_if_known none = none
code_if_known (some e) = some e.0

abbrev without_prefix : Text → Text
without_prefix upper = elim (strip_prefix (text "KEY_") upper) [ none ↦ upper | some bare ↦ bare ]

-- A name is looked up in lower case as it stands.
pub evdev_code-to_lower : (name : Text) → evdev_code (to_lower name) ≡ evdev_code name
unfolding evdev_code bare_name
evdev_code-to_lower name =
    ap
      (λ (upper : Text). elim (find_evdev_name (without_prefix upper)) [
        | none ↦ none
        | some e ↦ some e.0
      ])
      (to_upper-to_lower name)
