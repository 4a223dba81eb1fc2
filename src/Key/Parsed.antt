-- ===== src/Key/Parsed.antt =====
-- src/key.rs: what holds of every combination that the parser returns.
use whykey.Prelude.{
  ℕ, zero, suc, ◌<◌, String, Bool, true, false, not, ◌&&◌, ◌⊎◌, Text, some, ok, trim, is_empty,
  split_once, length, all, to_lower, ltb, ◌≡◌, refl, arith, inl, inr, Bool-cases, Option-cases,
  Result-cases, bit_or, all_below, all_below_sound, ltb→lt,
}
use whykey.Key.Modifiers.{match_text-all, modifier_names, modifier_mask}
use whykey.Key.Names.{normalize_key, is_known_key}
use whykey.Key.Canonical.{IsKeyName, normalize_key-IsKeyName}
use whykey.Key.Combo.{KeyCombo, strip_modifiers, modifier_round, main_key, parse_combo}

-- What a successful parse returns.
pub record IsParsed (validate_key : Bool) (c : KeyCombo) : Type 0 where
  pub bounded : c.modifiers < 256
  pub named : IsKeyName c.key
  pub typed : c.alone ≡ false
  pub known : (validate_key && not (is_known_key c.key)) ≡ false

pub main_key-IsKeyName :
    (v : Bool) (input : Text) (m : ℕ) (k : Text)
    → IsKeyName k
    → (v && not (is_known_key k)) ≡ false
    → main_key v input m k ≡ ok (record { modifiers = m; key = k; alone = false })
unfolding main_key
main_key-IsKeyName v input m k h e = rw (h.nonempty, h.no_modifier, h.plain, h.stable, e)

mask_or_bounded : ℕ → Bool
unfolding all_below
mask_or_bounded mask = all_below 256 (λ m. ltb (bit_or m mask) 256)

modifier_names_bounded : all (λ (e : String × ℕ). mask_or_bounded e.1) modifier_names ≡ true
unfolding all mask_or_bounded
modifier_names_bounded = refl

bit_or-bounded :
    (name : Text) (mask m : ℕ) → modifier_mask name ≡ some mask → m < 256 → bit_or m mask < 256
bit_or-bounded name mask m e h = ltb→lt _ _ (
    all_below_sound 256 (λ n. ltb (bit_or n mask) 256) m
      (unfold mask_or_bounded in
        (match_text-all mask_or_bounded modifier_names (to_lower name) mask
          (unfold modifier_mask in e) modifier_names_bounded))
      h)

-- A round that succeeds leaves the modifiers alone, or takes one name.
strip_round-cases :
    (fuel m : ℕ) (s : Text) (m' : ℕ) (r : Text)
    → strip_modifiers (suc fuel) m s ≡ ok (m', r)
    → (m ≡ m')
      ⊎ ((name : Text) × (mask : ℕ) × (rest : Text) × (modifier_mask name ≡ some mask)
          × (strip_modifiers fuel (bit_or m mask) rest ≡ ok (m', r)))
unfolding strip_modifiers modifier_round
strip_round-cases fuel m s m' r e = elim (Option-cases (split_once b'+' s)) [
  | inl a ↦ inl (ground arith)
  | inr ((raw, rest), a) ↦ elim (Option-cases (modifier_mask (trim raw))) [
    | inl b ↦ inl (ground arith)
    | inr (mask, b) ↦ elim (Bool-cases (is_empty (trim raw))) [
      | inl c ↦ inl (ground arith)
      | inr c ↦ inr (trim raw, mask, rest, b, ground arith)
    ]
  ]
]

strip_modifiers-bounded :
    (fuel m : ℕ) (s : Text) (m' : ℕ) (r : Text)
    → m < 256
    → strip_modifiers fuel m s ≡ ok (m', r)
    → m' < 256
strip_modifiers-bounded zero m s m' r h e = unfold strip_modifiers in ground arith
strip_modifiers-bounded (suc fuel) m s m' r h e = elim (strip_round-cases fuel m s m' r e) [
  | inl same ↦ rw (← same) h
  | inr (name, mask, rest, named, e') ↦
      strip_modifiers-bounded fuel (bit_or m mask) rest m' r (bit_or-bounded name mask m named h) e'
]

main_key-IsParsed :
    (v : Bool) (input : Text) (m : ℕ) (r : Text) (c : KeyCombo)
    → m < 256
    → main_key v input m r ≡ ok c
    → IsParsed v c
unfolding main_key
main_key-IsParsed v input m r c h e = elim (Result-cases (normalize_key r)) [
  | inl (x, n) ↦ absurd (ground arith)
  | inr (k, n) ↦
      let named = normalize_key-IsKeyName r k (ground arith) (ground arith) (ground arith) n in
      let same : record { modifiers = m; key = k; alone = false } ≡ c = ground arith in
      rw (← same)
        (record { bounded = h; named = named; typed = refl; known = ground (arith, same) })
]

-- If a text parses to a combination, then its modifiers are a mask of eight bits, it is not flagged
-- as alone, and its key is a key name: no white space, no modifier, no `+` unless it is `+` alone,
-- and the parser's own normal form; if the parser checks the key's name, it is a known one.
pub parse_combo-IsParsed :
    (input : Text) (v : Bool) (c : KeyCombo) → parse_combo input v ≡ ok c → IsParsed v c
unfolding parse_combo
parse_combo-IsParsed input v c h =
    elim (Result-cases (strip_modifiers (length (trim input)) 0 (trim input))) [
      | inl (x, e) ↦ absurd (ground arith)
      | inr ((m, r), e) ↦
          main_key-IsParsed v (trim input) m (trim r) c
            (strip_modifiers-bounded (length (trim input)) 0 (trim input) m r (omega arith) e)
            (ground arith)
    ]
