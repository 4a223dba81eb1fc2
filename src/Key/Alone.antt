-- ===== src/Key/Alone.antt =====
-- src/key.rs: a modifier that is asked about on its own.
use whykey.Prelude.{ℕ, true, List, [], ◌∷◌, ok, text, ◌≡◌, ◌≢◌, ◌⊎◌}
use whykey.Key.Combo.{KeyCombo, is_alone_mask, parse_alone, alone_mask, alone_keysyms, alone_name}

-- What a query for a modifier on its own returns.
pub record IsAlone (c : KeyCombo) : Type 0 where
  pub flag : c.alone ≡ true
  pub unmodified : c.modifiers ≡ 0
  pub bit : is_alone_mask (alone_mask c) ≡ true
  pub keys : alone_keysyms c ≢ []
  pub stable : parse_alone c.key ≡ ok c

abbrev alone_combo : ℕ → KeyCombo
alone_combo mask = record { modifiers = 0; key = text (alone_name mask); alone = true }

abbrev IsOneOf : List ℕ → ℕ → Type 0
IsOneOf [] m = ⊥
IsOneOf (n ∷ ns) m = (m ≡ n) ⊎ IsOneOf ns m
