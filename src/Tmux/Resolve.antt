-- ===== src/Tmux/Resolve.antt =====
-- src/layers/tmux.rs: what becomes of a key, in the client's table behind the keys before it. The
-- tables that tmux answers with are a function, and so are its active table and its prefixes.
use whykey.Prelude.{
  ℕ, Bool, not, ◌&&◌, ◌||◌, Text, List, [], ◌∷◌, ◌++◌, Option, none, some, Result, ok, err, text,
  text_eq, trim, any, split_text, split_whitespace, trim_end_matches, ◌==◌, if◌then◌else◌,
}
use whykey.Key.Combo.{KeyCombo}
use whykey.Tmux.Keys.{tmux_query_key}
use whykey.Tmux.Listing.{Binding, combo_eq, find_binding}

-- The standard output of `list-keys`, or its message.
abbrev pub Tables : Type 0
Tables = Text → Result Text (List ℕ)

pub data Resolution : Type 0 where
  prefix_entered : Resolution
  bound : (table : Text) (binding : Binding) → Resolution
  discarded : (table : Text) → Resolution
  forwarded : Resolution
  table_unavailable : (table message : Text) → Resolution

-- The token behind `-T`.
unfoldable pub table_argument : List Text → Option Text
unfolding text text_eq
table_argument [] = none
table_argument (w ∷ []) = none
table_argument (w ∷ v ∷ ws) =
    let later = table_argument (v ∷ ws) in if text_eq w (text "-T") then some v else later

-- The closure of the `filter_map`, on the words of a command.
unfoldable pub command_table : List Text → Option Text
unfolding table_argument text text_eq
command_table [] = none
command_table (w ∷ ws) =
    if text_eq w (text "switch-client") || text_eq w (text "switchc")
    then table_argument ws
    else none

-- `filter_map(…).last()`
unfoldable pub last_table : List Text → Option Text
unfolding command_table trim trim_end_matches split_whitespace
last_table [] = none
last_table (command ∷ rest) = elim (last_table rest) [
  | some table ↦ some table
  | none ↦
      command_table
        (split_whitespace (trim_end_matches (λ c. c == b';' || c == b'\\') (trim command)))
]

abbrev split_commands : List Text → List Text
split_commands [] = []
split_commands (part ∷ rest) = split_text (text "; ") part ++ split_commands rest

unfoldable pub switch_client_table : Text → Option Text
unfolding last_table split_text text
switch_client_table action = last_table (split_commands (split_text (text " \\; ") action))

abbrev pub root : Text
root = text "root"

abbrev pub prefix_table : Text
prefix_table = text "prefix"

abbrev pub or_root : Option Text → Text
or_root none = root
or_root (some table) = table

unfoldable pub next_table : Resolution → Text
unfolding switch_client_table text
next_table Resolution.prefix_entered = prefix_table
next_table (Resolution.bound table binding) = or_root (switch_client_table binding.action)
next_table _ = root

-- `prefixes.contains(&tmux_query_key(key))`
unfoldable pub is_prefix : List KeyCombo → KeyCombo → Bool
unfolding any combo_eq tmux_query_key
is_prefix prefixes key = any (combo_eq (tmux_query_key key)) prefixes

-- What a table that is read makes of a key, if it is not root and if it is.
abbrev pub retried : Text → Resolution → Resolution
retried table Resolution.forwarded = Resolution.discarded table
retried table resolution = resolution

abbrev pub in_table : Text → Option Binding → Resolution → Resolution
in_table table (some binding) unbound = Resolution.bound table binding
in_table table none unbound = unbound

unfoldable pub look_up : Tables → Text → KeyCombo → Resolution → Resolution
unfolding find_binding
look_up tables table key unbound = elim (tables table) [
  | err message ↦ Resolution.table_unavailable table message
  | ok output ↦ in_table table (find_binding output key table) unbound
]

-- `resolve_key` of the root table: the call that the retry makes.
unfoldable pub resolve_root : List KeyCombo → Tables → KeyCombo → Resolution
unfolding is_prefix look_up text
resolve_root prefixes tables key =
    if is_prefix prefixes key
    then Resolution.prefix_entered
    else look_up tables root key Resolution.forwarded

unfoldable pub resolve_key : List KeyCombo → Tables → Text → KeyCombo → Resolution
unfolding resolve_root is_prefix look_up text text_eq
resolve_key prefixes tables table key =
    if not (text_eq table prefix_table) && is_prefix prefixes key
    then Resolution.prefix_entered
    else if text_eq table root
    then look_up tables table key Resolution.forwarded
    else look_up tables table key (retried table (resolve_root prefixes tables key))
