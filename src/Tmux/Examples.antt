-- ===== src/Tmux/Examples.antt =====
-- src/layers/tmux.rs at concrete keys and listings.
use whykey.Prelude.{
  ℕ, Bool, true, false, Text, List, [], ◌∷◌, none, some, ok, ◌≡◌, ◌≢◌, ◌↔◌, refl, ap, text_eq,
  IsAscii, arith, text, is_whitespace, keep_word, words_from, ◌==◌, ◌||◌, from_utf8, lines, all,
  is_empty, after_text, strip_prefix,
}
use whykey.Key.Combo.{KeyCombo, from_parts}
use whykey.Route.Model.{Outcome}
use whykey.Route.Noted.{bare}
use whykey.Tmux.Keys.{parse_tmux_key, tmux_query_key}
use whykey.Tmux.Listing.{squeeze, find_binding}
use whykey.Tmux.Resolve.{Tables, root, prefix_table, switch_client_table, is_prefix}
use whykey.Tmux.Inspect.{parsed_prefixes, inspect_with_tables}
use whykey.Tmux.Spec.{Run, ends, presses, enters}
use whykey.Tmux.Sequences.{Ends}
use whykey.Tmux.Clients.{
  inspect_with_tables-Ends, inspect_with_tables-Run, inspect_with_tables-back_in_root,
  inspect_with_tables-answered,
}
use whykey.Tmux.Tokens.{key_token, escape, EscapesBare, EscapesQuoted}
use whykey.Tmux.Listed.{
  printed, spaces, binds, Row, AreRows, listing, find_row, find_binding-listing,
}

-- Names of keys, as the program's own tests have them.
caret_upper_b : parse_tmux_key (text "^B") ≡ some (from_parts 5 (text "B"))
unfolding parse_tmux_key
caret_upper_b = refl

page_down : parse_tmux_key (text "M-S-NPage") ≡ some (from_parts 9 (text "PAGE_DOWN"))
unfolding parse_tmux_key
page_down = refl

bogus : parse_tmux_key (text "C-BogusKeyXYZ") ≡ none
unfolding parse_tmux_key
bogus = refl

dash : parse_tmux_key (text "M--") ≡ some (from_parts 8 (text "-"))
unfolding parse_tmux_key
dash = refl

-- The table of the last `switch-client -T`.
enters_resize :
    switch_client_table (text "display x \\; switch-client -T resize ;") ≡ some (text "resize")
unfolding switch_client_table keep_word words_from
enters_resize = refl

abbrev combo : ℕ → Text → KeyCombo
combo modifiers key = record { modifiers = modifiers; key = key; alone = false }

abbrev ctrl_b : KeyCombo
ctrl_b = combo 4 (text "B")

abbrev key_c : KeyCombo
key_c = combo 0 (text "C")

abbrev key_z : KeyCombo
key_z = combo 0 (text "Z")

abbrev server : Tables
server table = ok (text "bind-key    -T prefix c       new-window\n")

abbrev raw : List Text
raw = text "C-b" ∷ []

is_known : Outcome.consumed ≢ Outcome.unknown
is_known e = cc

is_read : Outcome.consumed ≢ Outcome.unavailable
is_read e = cc

inspect_with_tables-Ends_example :
    ((inspect_with_tables none raw (ctrl_b ∷ []) key_c true server).outcome ≡ Outcome.consumed)
    ↔ Ends (parsed_prefixes raw) server true key_c root (ctrl_b ∷ []) Outcome.consumed
inspect_with_tables-Ends_example =
    inspect_with_tables-Ends raw server true key_c none (ctrl_b ∷ []) Outcome.consumed is_known
      is_read

c_consumed :
    (inspect_with_tables none raw (ctrl_b ∷ []) key_c true server).outcome ≡ Outcome.consumed
unfolding inspect_with_tables from_utf8 lines words_from keep_word
c_consumed = refl

is_entered : is_prefix (parsed_prefixes raw) ctrl_b ≡ true
unfolding is_prefix parsed_prefixes
is_entered = refl

root_apart : root ≢ prefix_table
unfolding text text_eq
root_apart e = cc (ap (λ t. text_eq t root) e)

to_prefix : Run (parsed_prefixes raw) server root (ctrl_b ∷ []) prefix_table
to_prefix = presses (enters root_apart is_entered) ends

inspect_with_tables-Run_example :
    bare (inspect_with_tables none raw (ctrl_b ∷ []) key_c true server)
    ≡ bare (inspect_with_tables (some prefix_table) raw [] key_c true server)
inspect_with_tables-Run_example =
    inspect_with_tables-Run raw server true key_c none (ctrl_b ∷ []) [] prefix_table to_prefix

z_is_no_prefix : is_prefix (parsed_prefixes raw) key_z ≡ false
unfolding is_prefix parsed_prefixes
z_is_no_prefix = refl

abbrev list_keys_output : List ℕ
list_keys_output = text "bind-key    -T prefix c       new-window\n"

z_in_prefix : find_binding list_keys_output key_z prefix_table ≡ none
unfolding find_binding
z_in_prefix = refl

z_in_root : find_binding list_keys_output key_z root ≡ none
unfolding find_binding
z_in_root = refl

inspect_with_tables-back_in_root_example :
    bare (inspect_with_tables none raw (ctrl_b ∷ key_z ∷ []) key_c true server)
    ≡ bare (inspect_with_tables none raw [] key_c true server)
inspect_with_tables-back_in_root_example =
    inspect_with_tables-back_in_root raw server true key_c none (ctrl_b ∷ []) [] prefix_table key_z
      to_prefix z_is_no_prefix (_, refl, z_in_prefix) (_, refl, z_in_root)

server_answers : (table : Text) → (output : List ℕ) × (server table ≡ ok output)
server_answers table = (_, refl)

inspect_with_tables-answered_example :
    Ends
      (parsed_prefixes raw)
      server
      true
      key_c
      root
      (ctrl_b ∷ [])
      (inspect_with_tables none raw (ctrl_b ∷ []) key_c true server).outcome
inspect_with_tables-answered_example =
    inspect_with_tables-answered raw server true key_c none (ctrl_b ∷ []) server_answers

-- Two rows: a key with an escape, and one within quotes.
abbrev escaped : ℕ → Bool
escaped c = is_whitespace c || (c == b'\\' || c == b'"')

abbrev rows : List Row
rows =
    (record {
      flags = text " -r";
      table = text "prefix";
      quoted = false;
      key = text "DC";
      command = text "refresh-client -c";
      table_padding = 0;
      key_padding = 0;
      command_padding = 5;
    })
    ∷ (record {
      flags = text " ";
      table = text "root";
      quoted = true;
      key = text "M-{";
      command = text "display-message x";
      table_padding = 0;
      key_padding = 0;
      command_padding = 20;
    })
    ∷ []

abbrev alt_brace : KeyCombo
alt_brace = combo 8 (text "{")

escaped-EscapesBare : EscapesBare escaped
escaped-EscapesBare c h = ground arith

escaped-EscapesQuoted : EscapesQuoted escaped
escaped-EscapesQuoted c h = ground arith

are_rows : AreRows escaped rows
unfolding printed spaces all is_empty is_whitespace key_token escape after_text strip_prefix
are_rows = (
  record {
    flagged = λ s. refl;
    named = refl;
    solid = refl;
    keyed = refl;
    escapes = escaped-EscapesBare;
    one_line = refl;
  },
  (
    record {
      flagged = λ s. refl;
      named = refl;
      solid = refl;
      keyed = refl;
      escapes = escaped-EscapesQuoted;
      one_line = refl;
    },
    tt,
  ),
)

is_ascii : IsAscii (listing escaped rows)
unfolding listing all printed spaces key_token escape is_whitespace
is_ascii = refl

find_binding-listing_example :
    find_binding (listing escaped rows) alt_brace (text "root")
    ≡ find_row escaped (tmux_query_key alt_brace) (text "root") rows
find_binding-listing_example =
    find_binding-listing escaped rows alt_brace (text "root") are_rows is_ascii

-- The lines as tmux has printed them.
brace_found :
    find_row escaped (tmux_query_key alt_brace) (text "root") rows
    ≡ some (record {
      action = text "display-message x";
      description = text "bind-key  -T root \"M-{\"                     display-message x";
    })
unfolding find_row binds tmux_query_key squeeze printed spaces keep_word key_token words_from
    is_whitespace
brace_found = refl

rows_listed :
    listing escaped rows
    ≡ text
        "bind-key -r -T prefix DC      refresh-client -c\nbind-key  -T root \"M-{\"                     display-message x\n"
unfolding listing printed spaces key_token escape is_whitespace
rows_listed = refl
