-- ===== src/Tmux/Listed.antt =====
-- src/layers/tmux.rs: the listing of bindings, from its columns and as it is read.
use whykey.Prelude.{
  ℕ, zero, suc, Bool, true, false, ◌&&◌, Text, List, [], ◌∷◌, ◌++◌, Option, none, some, ◌≡◌, refl,
  sym, ◌∙◌, ap, arith, text, text_eq, is_whitespace, is_empty, is_some_and, after_text, trim_start,
  split_word, lines, if◌then◌else◌, Bool-cases, inl, inr, Option-cases, Solid, IsOneLine, IsAscii,
  from_utf8-IsAscii, strip_prefix-append, lines-IsOneLine, split_word-Solid, split_whitespace,
  words_from, keep_word, trim_start-append, lines_from, keep_line,
}
use mathlib.Core.Path.{subst}
use whykey.Key.Combo.{KeyCombo}
use whykey.Tmux.Keys.{tmux_query_key, parse_tmux_key}
use whykey.Tmux.Listing.{
  Binding, combo_eq, squeeze, split_key_token, token_binding, named_binding, flag_binding,
  command_binding, line_binding, first_binding, find_binding,
}
use whykey.Tmux.Tokens.{escape, key_token, Escapes, split_key_token-key_token}

-- A line of a listing: the flags before `-T` (none, ` -r`, padding, or a note behind `-N`), the table,
-- the key with how it is written, the command, and how many spaces pad each of these columns.
pub record Row : Type 0 where
  pub flags : Text
  pub table : Text
  pub quoted : Bool
  pub key : Text
  pub command : Text
  pub table_padding : ℕ
  pub key_padding : ℕ
  pub command_padding : ℕ

unfoldable pub spaces : ℕ → Text → Text
spaces zero s = s
spaces (suc n) s = b' ' ∷ spaces n s

module _ (escaped : ℕ → Bool) where
  abbrev behind_key : Row → Text
  behind_key row = b' ' ∷ spaces row.command_padding row.command

  abbrev behind_table : Row → Text
  behind_table row = key_token row.quoted escaped row.key ++ behind_key row

  abbrev behind_flag : Row → Text
  behind_flag row = row.table ++ b' ' ∷ spaces row.key_padding (behind_table row)

  unfoldable pub printed : Row → Text
  unfolding text
  printed row =
      text "bind-key" ++ (row.flags ++ (text " -T " ++ spaces row.table_padding (behind_flag row)))

  unfoldable pub listing : List Row → Text
  listing [] = []
  listing (row ∷ rows) = printed row ++ 10 ∷ listing rows

  pub record IsRow (row : Row) : Type 0 where
    pub flagged : (s : Text) → after_text (text " -T ") (row.flags ++ (text " -T " ++ s)) ≡ some s
    pub named : is_empty row.table ≡ false
    pub solid : Solid row.table
    pub keyed : is_empty row.key ≡ false
    pub escapes : Escapes row.quoted escaped
    pub one_line : IsOneLine (printed row)

  abbrev pub AreRows : List Row → Type 0
  AreRows [] = Unit
  AreRows (row ∷ rows) = IsRow row × AreRows rows

  -- Whether the row binds the key in the table.
  unfoldable pub binds : KeyCombo → Text → Row → Bool
  unfolding text_eq parse_tmux_key combo_eq
  binds wanted table row =
      text_eq row.table table && is_some_and (λ k. combo_eq k wanted) (parse_tmux_key row.key)

  -- The first row that binds the key in the table.
  unfoldable pub find_row : KeyCombo → Text → List Row → Option Binding
  find_row wanted table [] = none
  find_row wanted table (row ∷ rows) = elim (binds wanted table row) [
    | true ↦ some (record { action = squeeze row.command; description = printed row })
    | false ↦ find_row wanted table rows
  ]

  abbrev row_binding : KeyCombo → Text → Row → Option Binding
  row_binding wanted table row =
      if binds wanted table row
      then some (record { action = squeeze row.command; description = printed row })
      else none

  squeeze-space : (command : Text) → squeeze (b' ' ∷ command) ≡ squeeze command
  unfolding squeeze split_whitespace words_from is_whitespace keep_word
  squeeze-space command = refl

  squeeze-spaces : (n : ℕ) (s : Text) → squeeze (spaces n s) ≡ squeeze s
  unfolding spaces
  squeeze-spaces zero s = refl
  squeeze-spaces (suc n) s = squeeze-space (spaces n s) ∙ squeeze-spaces n s

  trim_start-spaces : (n : ℕ) (s : Text) → trim_start (spaces n s) ≡ trim_start s
  unfolding spaces trim_start is_whitespace
  trim_start-spaces zero s = refl
  trim_start-spaces (suc n) s = trim_start-spaces n s

  is_cons : (s : Text) → is_empty s ≡ false → (c : ℕ) × (rest : Text) × (s ≡ c ∷ rest)
  unfolding is_empty
  is_cons [] h = ground arith
  is_cons (c ∷ s) h = (c, s, refl)

  trim_start-token :
      (quoted : Bool) (key rest : Text)
      → is_empty key ≡ false
      → Escapes quoted escaped
      → trim_start (key_token quoted escaped key ++ rest) ≡ key_token quoted escaped key ++ rest
  unfolding trim_start is_whitespace key_token escape is_empty
  trim_start-token quoted [] rest k e = ground arith
  trim_start-token true (c ∷ s) rest k e = refl
  trim_start-token false (c ∷ s) rest k e = elim (Bool-cases (escaped c)) [
    | inl h ↦ rw h refl
    | inr h ↦ let (w, _, _) = e c h in rw h (rw w refl)
  ]

  token_binding-row :
      (wanted : KeyCombo) (table : Text) (row : Row)
      → text_eq row.table table ≡ true
      → token_binding wanted (printed row) (some (row.key, behind_key row))
        ≡ row_binding wanted table row
  unfolding token_binding binds
  token_binding-row wanted table row t = elim (Option-cases (parse_tmux_key row.key)) [
    | inl e ↦ rw (token_binding, e, t) refl
    | inr (combo, e) ↦ elim (Bool-cases (combo_eq combo wanted)) [
      | inl c ↦
          rw (token_binding, e, t, c)
            (rw
              (squeeze-space (spaces row.command_padding row.command)
                ∙ squeeze-spaces row.command_padding row.command)
              refl)
      | inr c ↦ rw (token_binding, e, t, c) refl
    ]
  ]

  split-row :
      (row : Row) → IsRow row → split_key_token (behind_table row) ≡ some (row.key, behind_key row)
  split-row row h =
      let (c, s, e) = is_cons row.key h.keyed in
      subst
        (λ key.
          split_key_token (key_token row.quoted escaped key ++ behind_key row)
          ≡ some (key, behind_key row))
        (sym e)
        (split_key_token-key_token row.quoted escaped c s (spaces row.command_padding row.command)
          h.escapes)

  named_binding-row :
      (wanted : KeyCombo) (table : Text) (row : Row)
      → IsRow row
      → named_binding wanted table
          (printed row)
          (row.table, b' ' ∷ spaces row.key_padding (behind_table row))
        ≡ row_binding wanted table row
  unfolding named_binding binds spaces printed
  named_binding-row wanted table row h = elim (Bool-cases (text_eq row.table table)) [
    | inr t ↦ rw (named_binding, t) refl
    | inl t ↦
        let start =
          trim_start-spaces (suc row.key_padding) (behind_table row)
          ∙ trim_start-token row.quoted row.key (behind_key row) h.keyed h.escapes in
        rw (named_binding, t)
          (ap (λ (s : Text). token_binding wanted (printed row) (split_key_token s)) start
            ∙ ap (token_binding wanted (printed row)) (split-row row h)
            ∙ token_binding-row wanted table row t
            ∙ rw (binds, t) refl)
  ]

  line_binding-row :
      (wanted : KeyCombo) (table : Text) (row : Row)
      → IsRow row
      → line_binding wanted table (printed row) ≡ row_binding wanted table row
  unfolding line_binding command_binding flag_binding printed
  line_binding-row wanted table row h =
      let padded = spaces row.key_padding (behind_table row) in
      let named = split_word-Solid row.table padded b' ' h.solid refl in
      let started =
        trim_start-spaces row.table_padding (behind_flag row)
        ∙ trim_start-append row.table (b' ' ∷ padded) h.solid h.named in
      ap (command_binding wanted table (printed row)) (
        strip_prefix-append (text "bind-key")
          (row.flags ++ (text " -T " ++ spaces row.table_padding (behind_flag row))))
      ∙ ap (flag_binding wanted table (printed row))
          (h.flagged (spaces row.table_padding (behind_flag row)))
      ∙ ap (λ (s : Text). named_binding wanted table (printed row) (split_word s)) started
      ∙ ap (named_binding wanted table (printed row)) named
      ∙ named_binding-row wanted table row h

  lines-empty : lines [] ≡ []
  unfolding lines lines_from keep_line is_empty
  lines-empty = refl

  first_binding-rows :
      (wanted : KeyCombo) (table : Text) (rows : List Row)
      → AreRows rows
      → first_binding wanted table (lines (listing rows)) ≡ find_row wanted table rows
  unfolding first_binding find_row listing
  first_binding-rows wanted table [] h = ap (first_binding wanted table) lines-empty
  first_binding-rows wanted table (row ∷ rows) (h, hs) =
      let first = lines-IsOneLine (printed row) (listing rows) h.one_line in
      let read = line_binding-row wanted table row h in
      elim (Bool-cases (binds wanted table row)) [
        | inl b ↦ rw first (rw (first_binding, find_row, read, b) refl)
        | inr b ↦
            rw first
              (rw (first_binding, find_row, read, b) (first_binding-rows wanted table rows hs))
      ]

  -- A listing of bindings is read: in ASCII lines `bind-key <flags> -T <table> <key> <command>`, whose
  -- flags do not hold ` -T ` and whose columns any number of spaces separates, with keys that are
  -- bare with escapes or within quotes, the binding that is found for a key in a table is that of
  -- the first line with the table and the key.
  pub find_binding-listing :
      (rows : List Row) (key : KeyCombo) (table : Text)
      → AreRows rows
      → IsAscii (listing rows)
      → find_binding (listing rows) key table ≡ find_row (tmux_query_key key) table rows
  unfolding find_binding
  find_binding-listing rows key table h a =
      rw (find_binding, from_utf8-IsAscii (listing rows) a)
        (first_binding-rows (tmux_query_key key) table rows h)
