-- ===== src/Lib.antt =====
-- whykey, which tells what happens to a key press on its way through the input layers of a
-- Linux desktop: its keys, its route, the keys of the remappers, the bindings of Hyprland, the
-- bytes of terminals, and the deadline of its diagnostics.
--
-- A query is a text, which key.rs parses to a key combination or a sequence of them. The
-- remapper's finding may replace the key. Then the chain of inspection.rs asks the layers one
-- after the other (compositor, terminal, input method, TTY driver, session, application,
-- shell), each with the key and the bytes that the terminal would send, until a finding stops
-- the key or the deadline is over. The findings are the report. In a sequence each step also
-- gets what the steps before delivered to the multiplexer and to the shell.
--
-- Prelude: what the program uses of Rust's standard library. A `str` is the list of its code
--   points, `text` turns a literal into one; `Result` and the tests on numbers are by clauses.
-- Key (src/key.rs): Modifiers (`modifier_mask`), Names (`normalize_key`, `is_known_key`,
--   `abbreviate`), Combo (`KeyCombo`, `parse_combo`, both displays, `parse_alone`), Sequence
--   (`KeySequence`), Distance (`edit_distance`, and a recursive distance), Suggestion
--   (`inventory_candidates`, and the suggestion of `unknown_key_error`). Canonical, Strip,
--   Displays, Parsed, RoundTrip, Alone, Echo, Fuel, SequenceRoundTrip and Suggested hold
--   proofs. An error is a constructor for each message, with the texts that the message echoes.
-- Route (src/layers/model.rs, src/layers/inspection.rs): Model (`Outcome`, `LayerResult`),
--   Accumulator (`RouteAccumulator`, `ContinuationPolicy`), Request (`InspectRequest`,
--   `StepDelivery`, and the adapters), Chain (with its child Inputs:
--   `inspect_default_chain_inner_without_remapper`, a stage for each layer, each the rest of
--   the route behind the one before), Remap (`route_after_remapper`), Stale
--   (`mark_stale_generation_evidence`), Sequence (`inspect_step`, `inspect_sequence`). Spec
--   says what a route is without the accumulator. Stages, Steps, Refinement, Delivery,
--   Remapped, Noted, Sequenced and Outcomes hold proofs.
-- Remapper (src/remapper/keys.rs): Evdev, Keysyms and Printable (the tables), Keys (names,
--   codes and bits), Query (`query_presses`, `downstream_combo`). KeyNames, Masks and Emitted
--   hold proofs.
-- Hyprland (src/layers/hyprland/matching.rs, with the hints of config.rs): Json, Binding, Keys
--   (`BindingKey`), Device (`physical_device_match`), Matching (the candidates,
--   `reachable_matches`, `primary_match`), Flow (`binding_propagation`), Evidence
--   (`binding_evidence`), Inspect (`inspect_json_with_keycode` behind `parse_bindings`,
--   `inspect_alone`). Runs says how a key press may go through the matching bindings: one step
--   for each, an uncertain one may be missed, an auto-consuming dispatcher may fail. States,
--   Propagated, Concluded, Reached, Agreement and Primary hold proofs.
-- Listen (src/listen/protocol.rs): Names (`kitty_key_name`, `csi_tilde_key`), Fields (the
--   fields of a Kitty sequence), Protocol (`decode_key` and its branches), Observed
--   (`decode_bytes`). Sequence writes the full form of a key's sequence in the Kitty
--   keyboard protocol. Events, RoundTrip and Marked hold proofs.
-- Tty (src/layers/terminal.rs): State (`TtyState` from termios), Driver (`classify_byte`,
--   `inspect_input_with_state`), Legacy (`legacy_control_byte`, and the listener's decoder behind
--   it). Rows and Taken hold proofs. The constants of libc and what the terminal answers are arguments.
-- Sexp (src/remapper/sexp.rs): Reader (`parse`, a character at a time: a loop of the program is
--   a Mode). Nesting holds proofs.
-- Tmux (src/layers/tmux.rs): Keys (`parse_tmux_key`, `tmux_query_key`), Listing (`find_binding`),
--   Resolve (`resolve_key`, `switch_client_table`), Inspect (`inspect_with_tables`). Spec says how
--   a client goes through tmux's key tables, and Tokens and Listed write keys and the lines of
--   a listing. Lookups, Resolved, Unread, Sequences, Clients, Tokens, Listed and Fuel hold
--   proofs. What tmux answers is a function from the name of a table.
-- Bindings (src/bindings.rs, src/conflicts.rs): Inventory (the end of `current`, `KeyFilter`,
--   `filter`), Conflicts (`build_conflicts`, `filter`), Grouping (a stable sort and the entries of
--   a BTreeMap). Grouped, Groups, Actions, Reported, Clashes and Ordered hold proofs.
-- Diff (src/diff.rs): Values (what is used of serde_json's values, a record that the definitions
--   take as an argument, and that their equality decides whether they are the same), Compare
--   (`compare`, as compare_documents). Loops, Same and Found hold proofs.
-- Command (src/command.rs): Deadline (`with_deadline`, `query_budget`; a Task says how
--   operations nest their deadlines). Nested holds proofs.
--
-- The adapters that read the system (sockets, configurations, processes) are the record
-- `Adapters`, an argument of the chain: nothing is supposed of what they answer. The clock
-- answers each check of the deadline by name, so a deadline may pass at any check, and a
-- sequence's clock and the generations of the configurations may differ from step to step.
--
-- The inventory of keysyms (src/xkb_keysyms.txt) is an argument, a text, and so is
-- `str::to_lowercase`, which folds letters beyond ASCII.
--
-- serde_json and the parsing of the bindings' JSON are not modelled: a Json is the value that
-- the program matches on. `char::to_uppercase` is a parameter beyond ASCII. Where the program
-- compares two references to bindings, a match holds the place of its binding in the list.
--
-- Modifier masks (u32) and key codes (u16) are numbers; the code only combines their bits and
-- compares them, so there is no wrap-around to write out; a line number (u32) would take 2^32
-- lines to wrap. The loop of `parse_combo` has the
-- length of the text as its fuel, and so has the loop of `parse_tmux_key`: each round takes at
-- least one character off. `to_decimal` has
-- fuel for the digits of the greatest number that is printed. Times are nanoseconds on one clock.
--
-- Not modelled: the wording of messages; the details of Hyprland's findings; the other adapters in src/layers and
-- src/remapper; the devices and sockets of the listener, the probes, the reports and the command
-- line, which are input and output.
pub mod Prelude
pub mod Key
pub mod Route
pub mod Remapper
pub mod Command
pub mod Hyprland
pub mod Listen
pub mod Tty
pub mod Sexp
pub mod Tmux
pub mod Bindings
pub mod Diff
