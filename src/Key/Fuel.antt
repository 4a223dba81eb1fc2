-- ===== src/Key/Fuel.antt =====
-- src/key.rs: the rounds of the loop of `parse_combo`.
use whykey.Prelude.{
  ℕ, zero, suc, ◌≤◌, ◌<◌, ◌⊎◌, Text, [], ◌∷◌, some, Result, ok, split_once, prepend_first, length,
  ◌==◌, ◌≡◌, refl, arith, Option-cases, Bool-cases, inl, inr,
}
use whykey.Key.Names.{ParseKeyComboError}
use whykey.Key.Combo.{strip_modifiers, modifier_round, Round, over, onward}

pub split_once-shorter :
    (c : ℕ) (s raw rest : Text) → split_once c s ≡ some (raw, rest) → length rest < length s
unfolding split_once prepend_first
split_once-shorter c [] raw rest h = ground arith
split_once-shorter c (d ∷ s) raw rest h = elim (Bool-cases (d == c)) [
  | inl t ↦ ground arith
  | inr f ↦ elim (Option-cases (split_once c s)) [
    | inl n ↦ ground arith
    | inr ((raw', rest'), e) ↦ ground (arith, split_once-shorter c s raw' rest' e)
  ]
]

-- The loop without fuel: after finitely many rounds that go on, one that ends it with the result.
pub data Loops : ℕ → ℕ → Text → Result ParseKeyComboError (ℕ × Text) → Type 0 where
  ends :
      {m : ℕ} {s : Text} {result : Result ParseKeyComboError (ℕ × Text)}
      → modifier_round m s ≡ over result
      → Loops 0 m s result
  goes_on :
      {n m taken : ℕ} {s rest : Text} {result : Result ParseKeyComboError (ℕ × Text)}
      → modifier_round m s ≡ onward taken rest
      → Loops n taken rest result
      → Loops (suc n) m s result

-- A round that goes on leaves a shorter text.
modifier_round-shorter :
    (m : ℕ) (s : Text) (taken : ℕ) (rest : Text)
    → modifier_round m s ≡ onward taken rest
    → length rest < length s
unfolding modifier_round
modifier_round-shorter m s taken rest h = elim (Option-cases (split_once b'+' s)) [
  | inl a ↦ ground arith
  | inr ((raw, tail), a) ↦ ground (arith, split_once-shorter b'+' s raw tail a)
]

Round-cases :
    (round : Round)
    → ((result : Result ParseKeyComboError (ℕ × Text)) × (round ≡ over result))
      ⊎ ((taken : ℕ) × (rest : Text) × (round ≡ onward taken rest))
Round-cases (over result) = inl (result, refl)
Round-cases (onward taken rest) = inr (taken, rest, refl)

modifier_round-empty : (m : ℕ) → modifier_round m [] ≡ over (ok (m, []))
unfolding modifier_round split_once
modifier_round-empty m = refl

strip_modifiers-over :
    (fuel m : ℕ) (s : Text) (result : Result ParseKeyComboError (ℕ × Text))
    → modifier_round m s ≡ over result
    → strip_modifiers (suc fuel) m s ≡ result
unfolding strip_modifiers
strip_modifiers-over fuel m s result h = rw (strip_modifiers, h) refl

strip_modifiers-onward :
    (fuel m : ℕ) (s : Text) (taken : ℕ) (rest : Text)
    → modifier_round m s ≡ onward taken rest
    → strip_modifiers (suc fuel) m s ≡ strip_modifiers fuel taken rest
unfolding strip_modifiers
strip_modifiers-onward fuel m s taken rest h = rw (strip_modifiers, h) refl

-- The loop that takes modifiers off a text ends: from every text and mask, after no more rounds that
-- go on than the text has characters, comes one that ends it, and with that many rounds of fuel or
-- more `strip_modifiers` returns the result of that round.
pub strip_modifiers-Loops :
    (fuel m : ℕ) (s : Text)
    → length s ≤ fuel
    → (rounds : ℕ) × (rounds ≤ length s) × Loops rounds m s (strip_modifiers fuel m s)
strip_modifiers-Loops zero m [] h =
    unfold strip_modifiers in (0, omega arith, Loops.ends (modifier_round-empty m))
strip_modifiers-Loops zero m (d ∷ s) h = absurd (omega arith)
strip_modifiers-Loops (suc fuel) m s h = elim (Round-cases (modifier_round m s)) [
  | inl (result, e) ↦ rw (strip_modifiers-over fuel m s result e) (0, omega arith, Loops.ends e)
  | inr (taken, rest, e) ↦
      let shorter = modifier_round-shorter m s taken rest e in
      let (rounds, few, loops) = strip_modifiers-Loops fuel taken rest (omega arith) in
      rw (strip_modifiers-onward fuel m s taken rest e)
        (suc rounds, omega arith, Loops.goes_on e loops)
]
