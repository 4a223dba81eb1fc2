-- ===== src/Tmux/Fuel.antt =====
-- src/layers/tmux.rs: the loop over the modifiers of tmux's names of keys.
use whykey.Prelude.{
  ℕ, zero, suc, ◌≤◌, ◌<◌, Text, [], ◌∷◌, none, some, ◌≡◌, refl, inl, inr, arith, length, is_empty,
  split_once, Option-cases, Bool-cases, bit_or,
}
use whykey.Key.Modifiers.{match_text}
use whykey.Key.Fuel.{split_once-shorter}
use whykey.Tmux.Keys.{prefix_names, strip_caret, split_modifier, next_modifier, take_modifiers}

strip_caret-shorter : (key rest : Text) → strip_caret key ≡ some rest → length rest < length key
unfolding strip_caret
strip_caret-shorter [] rest h = ground arith
strip_caret-shorter (c ∷ []) rest h = ground arith
strip_caret-shorter (c ∷ d ∷ s) rest h = ground arith

split_modifier-shorter :
    (key : Text) (bit : ℕ) (rest : Text)
    → split_modifier key ≡ some (bit, rest)
    → length rest < length key
unfolding split_modifier
split_modifier-shorter key bit rest h = elim (Option-cases (split_once b'-' key)) [
  | inl e ↦ ground arith
  | inr ((prefix, after), e) ↦ elim (Bool-cases (is_empty after)) [
    | inl b ↦ ground arith
    | inr b ↦ elim (Option-cases (match_text prefix_names prefix)) [
      | inl n ↦ ground arith
      | inr (mask, n) ↦ ground (arith, split_once-shorter b'-' key prefix after e)
    ]
  ]
]

next_modifier-shorter :
    (key : Text) (bit : ℕ) (rest : Text)
    → next_modifier key ≡ some (bit, rest)
    → length rest < length key
unfolding next_modifier
next_modifier-shorter key bit rest h = elim (Option-cases (strip_caret key)) [
  | inl e ↦ split_modifier-shorter key bit rest (ground arith)
  | inr (after, e) ↦ ground (arith, strip_caret-shorter key after e)
]

-- With as much fuel as the name has characters, the loop ends by its own test: no modifier is left.
pub take_modifiers-length :
    (fuel modifiers : ℕ) (key : Text)
    → length key ≤ fuel
    → next_modifier (take_modifiers fuel modifiers key).1 ≡ none
unfolding take_modifiers
take_modifiers-length zero modifiers [] h = refl
take_modifiers-length zero modifiers (c ∷ s) h = absurd (omega arith)
take_modifiers-length (suc fuel) modifiers key h = elim (Option-cases (next_modifier key)) [
  | inl e ↦ rw (take_modifiers, e) e
  | inr ((bit, rest), e) ↦
      rw (take_modifiers, e)
        (take_modifiers-length fuel (bit_or modifiers bit) rest
          (omega (arith, next_modifier-shorter key bit rest e, h)))
]
