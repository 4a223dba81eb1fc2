-- ===== src/Tmux/Listing.antt =====
-- src/layers/tmux.rs: the reader of what `tmux list-keys` prints.
use whykey.Prelude.{
  ℕ, Bool, true, false, Text, List, [], ◌∷◌, ◌++◌, Option, none, some, text, text_eq, is_empty,
  is_whitespace, trim_start, strip_prefix, split_whitespace, prepend_first, from_utf8, lines,
  after_text, split_word, join_with, ◌==◌, if◌then◌else◌, ◌&&◌,
}
use whykey.Key.Combo.{KeyCombo}
use whykey.Tmux.Keys.{tmux_query_key, parse_tmux_key}

pub record Binding : Type 0 where
  pub action : Text
  pub description : Text

-- The token within quotes; `\x` stands for `x`, and the quotes have to end.
unfoldable pub quoted_token : Text → Option (Text × Text)
unfolding prepend_first
quoted_token [] = none
quoted_token (c ∷ []) = if c == b'"' then some ([], []) else none
quoted_token (c ∷ d ∷ s) =
    let escaped = prepend_first d (quoted_token s) in
    let plain = prepend_first c (quoted_token (d ∷ s)) in
    if c == b'\\' then escaped else if c == b'"' then some ([], d ∷ s) else plain

-- The bare token, with what is read of it.
unfoldable pub bare_token : Text → Text → Option (Text × Text)
unfolding is_whitespace is_empty
bare_token key [] = if is_empty key then none else some (key, [])
bare_token key (c ∷ []) =
    if c == b'\\'
    then none
    else if is_whitespace c
    then some (key, c ∷ [])
    else bare_token (key ++ c ∷ []) []
bare_token key (c ∷ d ∷ s) =
    let escaped = bare_token (key ++ d ∷ []) s in
    let plain = bare_token (key ++ c ∷ []) (d ∷ s) in
    if c == b'\\' then escaped else if is_whitespace c then some (key, c ∷ d ∷ s) else plain

unfoldable pub split_key_token : Text → Option (Text × Text)
unfolding quoted_token bare_token
split_key_token [] = bare_token [] []
split_key_token (c ∷ s) = if c == b'"' then quoted_token s else bare_token [] (c ∷ s)

-- The derived equality of combinations.
unfoldable pub combo_eq : KeyCombo → KeyCombo → Bool
unfolding text_eq
combo_eq a b =
    a.modifiers == b.modifiers
    && (text_eq a.key b.key && (if a.alone then b.alone else if b.alone then false else true))

-- `action.split_whitespace().collect::<Vec<_>>().join(" ")`
unfoldable pub squeeze : Text → Text
unfolding split_whitespace join_with text
squeeze action = join_with (text " ") (split_whitespace action)

-- The last tests of a line, on the key's token and the action behind it.
unfoldable pub token_binding : KeyCombo → Text → Option (Text × Text) → Option Binding
unfolding parse_tmux_key combo_eq squeeze
token_binding wanted line none = none
token_binding wanted line (some (raw_key, action)) = elim (parse_tmux_key raw_key) [
  | none ↦ none
  | some key ↦
      if combo_eq key wanted
      then some (record { action = squeeze action; description = line })
      else none
]

-- A line behind the name of its table.
unfoldable pub named_binding : KeyCombo → Text → Text → Text × Text → Option Binding
unfolding trim_start split_key_token token_binding text_eq
named_binding wanted table line (name, rest) = elim (text_eq name table) [
  | true ↦ token_binding wanted line (split_key_token (trim_start rest))
  | false ↦ none
]

-- A line behind ` -T `.
unfoldable pub flag_binding : KeyCombo → Text → Text → Option Text → Option Binding
unfolding split_word trim_start named_binding
flag_binding wanted table line none = none
flag_binding wanted table line (some after) =
    named_binding wanted table line (split_word (trim_start after))

-- A line behind `bind-key`.
unfoldable pub command_binding : KeyCombo → Text → Text → Option Text → Option Binding
unfolding after_text flag_binding text
command_binding wanted table line none = none
command_binding wanted table line (some rest) =
    flag_binding wanted table line (after_text (text " -T ") rest)

-- The closure of the `find_map`.
unfoldable pub line_binding : KeyCombo → Text → Text → Option Binding
unfolding strip_prefix command_binding text
line_binding wanted table line =
    command_binding wanted table line (strip_prefix (text "bind-key") line)

-- `find_map`
unfoldable pub first_binding : KeyCombo → Text → List Text → Option Binding
unfolding line_binding
first_binding wanted table [] = none
first_binding wanted table (line ∷ rest) = elim (line_binding wanted table line) [
  | some binding ↦ some binding
  | none ↦ first_binding wanted table rest
]

unfoldable pub find_binding : List ℕ → KeyCombo → Text → Option Binding
unfolding from_utf8 lines first_binding tmux_query_key
find_binding output key expected_table = elim (from_utf8 output) [
  | none ↦ none
  | some listing ↦ first_binding (tmux_query_key key) expected_table (lines listing)
]
