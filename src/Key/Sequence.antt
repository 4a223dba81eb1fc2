-- ===== src/Key/Sequence.antt =====
-- src/key.rs: `KeySequence`, its parser and its display.
use whykey.Prelude.{
  ℕ, suc, Text, List, [], ◌∷◌, ◌++◌, Result, ok, err, split_whitespace, length, ltb, if◌then◌else◌,
  ◌>>=◌,
}
use whykey.Key.Names.{ParseKeyComboError, abbreviate}
use whykey.Key.Combo.{KeyCombo, parse_query, compact_display}

abbrev pub max_sequence_length : ℕ
max_sequence_length = 64

-- A constructor for each error that the parser builds. An invalid step holds its index, the number
-- of steps, and its token as the message echoes it; the message names the index if there are
-- several steps.
pub data ParseKeySequenceError : Type 0 where
  empty_sequence : ParseKeySequenceError
  too_many_steps : ℕ → ParseKeySequenceError
  invalid_step : ℕ → ℕ → Text → ParseKeyComboError → ParseKeySequenceError

pub record KeySequence : Type 0 where
  pub steps : List KeyCombo

unfoldable pub parse_token : ℕ → ℕ → Text → Result ParseKeySequenceError KeyCombo
parse_token index steps token = elim (parse_query token) [
  | ok combo ↦ ok combo
  | err error ↦ err (invalid_step index steps (abbreviate token) error)
]

-- The `map` over the tokens and the `collect`, which stops at the first error.
unfoldable pub parse_tokens : ℕ → ℕ → List Text → Result ParseKeySequenceError (List KeyCombo)
parse_tokens index steps [] = ok []
parse_tokens index steps (token ∷ tokens) = do
  combo ← parse_token index steps token
  combos ← parse_tokens (suc index) steps tokens
  ok (combo ∷ combos)

unfoldable pub checked_tokens : List Text → Result ParseKeySequenceError KeySequence
checked_tokens [] = err empty_sequence
checked_tokens (token ∷ tokens) =
    if ltb max_sequence_length (length (token ∷ tokens))
    then err (too_many_steps (length (token ∷ tokens)))
    else do
      combos ← parse_tokens 0 (length (token ∷ tokens)) (token ∷ tokens)
      ok (record { steps = combos })

unfoldable pub parse_sequence : Text → Result ParseKeySequenceError KeySequence
parse_sequence input = checked_tokens (split_whitespace input)

-- The steps after the first, each behind a space.
unfoldable pub display_rest : List KeyCombo → Text
unfolding compact_display
display_rest [] = []
display_rest (combo ∷ combos) = 32 ∷ (compact_display combo ++ display_rest combos)

unfoldable pub display_steps : List KeyCombo → Text
unfolding display_rest
display_steps [] = []
display_steps (combo ∷ combos) = compact_display combo ++ display_rest combos

unfoldable pub display_sequence : KeySequence → Text
unfolding display_steps
display_sequence sequence = display_steps sequence.steps
