-- ===== src/Tmux/Inspect.antt =====
-- src/layers/tmux.rs: the finding on a key behind the keys before it, from what the client's tables
-- make of them.
use whykey.Prelude.{
  Bool, true, false, Text, List, [], ◌∷◌, ◌++◌, Option, none, some, text, text_eq, is_empty,
  starts_with, ◌||◌, map, if◌then◌else◌,
}
use whykey.Key.Combo.{KeyCombo, display}
use whykey.Route.Model.{
  LayerId, LayerResult, Outcome, EvidenceTier, BindingEvidence, BindingScope, UncertaintyReason,
  new_result,
}
use whykey.Tmux.Keys.{parse_tmux_key}
use whykey.Tmux.Resolve.{Tables, Resolution, root, or_root, next_table, resolve_key}

abbrev tmux_result : Outcome → Text → List Text → LayerResult
tmux_result outcome summary details =
    new_result (text "tmux") LayerId.multiplexer outcome summary details

unfoldable pub unavailable : Text → LayerResult
unfolding new_result text is_empty
unavailable message = tmux_result Outcome.unavailable (text "could not inspect tmux key bindings") (
    (if is_empty message
      then text "tmux did not return an error message"
      else text "tmux: " ++ message)
    ∷ [])

abbrev action_evidence : Text → Text → Bool → BindingEvidence
action_evidence action table bytes_verified = record {
  dispatcher = none;
  action = some action;
  description = none;
  submap = if text_eq table root then none else some table;
  scope = BindingScope.unknown;
  source = none;
  has_universal_match = false;
  uncertainty = if bytes_verified then none else some UncertaintyReason.unverified_terminal_bytes;
}

abbrev with_binding : BindingEvidence → LayerResult → LayerResult
with_binding evidence result = record result { binding = some evidence }

-- `action == "send-keys" || action.starts_with("send-keys ")`
unfoldable pub sends_keys : Text → Bool
unfolding text text_eq starts_with
sends_keys action = text_eq action (text "send-keys") || starts_with (text "send-keys ") action

abbrev verified_result : Bool → Text → List Text → LayerResult
verified_result true table details =
    tmux_result Outcome.handled_and_passed
      (text "binding in tmux "
        ++ (table ++ text " table remaps the key and forwards generated input"))
      (details ++ text "tmux emits another key sequence downstream" ∷ [])
verified_result false table details =
    tmux_result Outcome.consumed
      (text "binding in tmux " ++ (table ++ text " table consumes the key")) details

abbrev candidate_result : Text → List Text → LayerResult
candidate_result table details =
    tmux_result Outcome.handled_uncertain
      (text "candidate binding matches in tmux "
        ++ (table ++ text " table; delivery is unverified"))
      (details
        ++ text "candidate binding matches in tmux, but terminal byte delivery is unverified" ∷ [])

unfoldable pub result_for_binding : Text → Text → List Text → Bool → LayerResult
unfolding new_result sends_keys text text_eq
result_for_binding action table details bytes_verified =
    with_binding (action_evidence action table bytes_verified) (
      if bytes_verified
      then verified_result (sends_keys action) table details
      else candidate_result table details)

abbrev uncertain_unless : Bool → Outcome → Outcome
uncertain_unless bytes_verified outcome =
    if bytes_verified then outcome else Outcome.handled_uncertain

abbrev in_the_table : Text → Text → Text
in_the_table table rest = text "no binding in the tmux " ++ (table ++ (text " table" ++ rest))

abbrev unread : Text → Text → List Text → List Text
unread table message details =
    details ++ (text "could not read tmux table " ++ (table ++ (text ": " ++ message))) ∷ []

-- The `match` on the resolution of the key itself, in the table behind the keys before it.
unfoldable pub key_result : Text → List Text → Bool → Resolution → LayerResult
unfolding new_result unavailable result_for_binding text text_eq
key_result current details bytes_verified (Resolution.table_unavailable table message) =
    if text_eq table root
    then unavailable message
    else tmux_result Outcome.unknown
        (text "tmux " ++ (table ++ text " table could not be inspected"))
        (unread table message details)
key_result current details bytes_verified Resolution.prefix_entered =
    tmux_result (uncertain_unless bytes_verified Outcome.consumed)
      (text (
        if bytes_verified
        then "tmux prefix key; tmux waits for the next key"
        else "tmux prefix key; terminal byte delivery is unverified"))
      (details ++ text "the configured prefix switches the client to the prefix table" ∷ [])
key_result current details bytes_verified (Resolution.bound table binding) =
    result_for_binding binding.action table
      (details ++ (text "table: " ++ table) ∷ (text "binding: " ++ binding.description) ∷ [])
      bytes_verified
key_result current details bytes_verified (Resolution.discarded table) =
    tmux_result (uncertain_unless bytes_verified Outcome.consumed)
      (in_the_table table (
        text (
          if bytes_verified
          then "; tmux discards the key"
          else "; terminal byte delivery is unverified")))
      (details
        ++ (text "no binding in tmux "
            ++ (table ++ text " table or root; tmux returns to root and drops the key"))
          ∷ [])
key_result current details bytes_verified Resolution.forwarded =
    tmux_result Outcome.pass
      (in_the_table current (
        text (
          if bytes_verified
          then "; forwarded to the pane"
          else "; terminal byte delivery remains unverified")))
      details

abbrev pub step_detail : KeyCombo → Text → Text → Text
step_detail earlier table next =
    text "sequence: "
    ++ (display earlier ++ (text " in table " ++ (table ++ (text " -> table " ++ next))))

abbrev unread_sequence : Text → Text → List Text → LayerResult
unread_sequence table message details =
    tmux_result Outcome.unknown
      (text "tmux key-table state for this sequence could not be inspected")
      (unread table message details)

-- The loop over the keys before, and the key itself behind them.
unfoldable pub walk_keys :
    List KeyCombo → Tables → Bool → KeyCombo → Text → List Text → List KeyCombo → LayerResult
unfolding resolve_key next_table key_result display new_result text
walk_keys prefixes tables bytes_verified key table details [] =
    key_result table details bytes_verified (resolve_key prefixes tables table key)
walk_keys prefixes tables bytes_verified key table details (earlier ∷ rest) =
    elim (resolve_key prefixes tables table earlier) [
      | Resolution.table_unavailable unread_table message ↦
          unread_sequence unread_table message details
      | resolution ↦
          walk_keys prefixes tables bytes_verified key (next_table resolution)
            (details ++ step_detail earlier table (next_table resolution) ∷ []) rest
    ]

unfoldable pub parsed_prefixes : List Text → List KeyCombo
unfolding parse_tmux_key
parsed_prefixes [] = []
parsed_prefixes (raw ∷ rest) = elim (parse_tmux_key raw) [
  | none ↦ parsed_prefixes rest
  | some prefix ↦ prefix ∷ parsed_prefixes rest
]

abbrev active_detail : Option Text → Text
active_detail none = text "active client key table: unknown; assuming root"
active_detail (some table) = text "active client key table: " ++ table

abbrev prefix_detail : Text → Text
prefix_detail raw = text "prefix: " ++ raw

unfoldable pub resolve_with_tables :
    Option Text → List Text → List KeyCombo → KeyCombo → Bool → Tables → LayerResult
unfolding walk_keys parsed_prefixes text
resolve_with_tables active_table raw_prefixes preceding key bytes_verified tables =
    walk_keys (parsed_prefixes raw_prefixes) tables bytes_verified key (or_root active_table)
      (active_detail active_table ∷ map prefix_detail raw_prefixes) preceding

abbrev pub live_unless_unavailable : Outcome → LayerResult → LayerResult
live_unless_unavailable Outcome.unavailable result = result
live_unless_unavailable _ result = record result { tier = some EvidenceTier.live_query }

unfoldable pub inspect_with_tables :
    Option Text → List Text → List KeyCombo → KeyCombo → Bool → Tables → LayerResult
unfolding resolve_with_tables
inspect_with_tables active_table raw_prefixes preceding key bytes_verified tables =
    let result =
      resolve_with_tables active_table raw_prefixes preceding key bytes_verified tables in
    live_unless_unavailable result.outcome result

abbrev pane_detail : Option Text → List Text
pane_detail none = []
pane_detail (some pane) = (text "client pane: " ++ pane) ∷ []

-- `inspect_with_byte_status`, with the pane of the environment and what tmux answers.
unfoldable pub inspect_with_byte_status :
    Option Text → Option Text → List Text → Tables → List KeyCombo → KeyCombo → Bool → LayerResult
unfolding inspect_with_tables text
inspect_with_byte_status pane active_table prefixes tables preceding key bytes_verified =
    let result = inspect_with_tables active_table prefixes preceding key bytes_verified tables in
    record result { details = pane_detail pane ++ result.details }
