-- ===== src/Remapper/Masks.antt =====
-- src/remapper/keys.rs: the modifier bits of keys and of masks.
use whykey.Prelude.{
  ℕ, bit_and, bit_or, true, List, [], ◌∷◌, any, some, all_below, all_below_sound, ◌<◌, ◌==◌, ==_iff,
  ◌≡◌, ◌↔◌, refl, arith,
}
use whykey.Remapper.Keys.{all_modifiers, modifier_bit, modifier_codes, modifier_bits}

-- A code is one of the keys that hold a bit exactly when the bit is the one that it contributes.
pub modifier_codes-modifier_bit :
    (code bit : ℕ)
    → (any (λ (c : ℕ). c == code) (modifier_codes bit) ≡ true) ↔ (modifier_bit code ≡ some bit)
unfolding any modifier_codes modifier_bit
modifier_codes-modifier_bit code bit = ground arith

abbrev pub combined : List ℕ → ℕ
combined [] = 0
combined (bit ∷ bits) = bit_or bit (combined bits)

every_mask : all_below 256 (λ (m : ℕ). combined (modifier_bits m) == bit_and m all_modifiers) ≡ true
unfolding all_below modifier_bits
every_mask = refl

-- The bits of a mask of eight bits, combined again, are the mask without the bits that no modifier
-- of the remappers has.
pub combined-modifier_bits :
    (mask : ℕ) → mask < 256 → combined (modifier_bits mask) ≡ bit_and mask all_modifiers
combined-modifier_bits mask h = (==_iff _ _).0 (
    all_below_sound 256 (λ (m : ℕ). combined (modifier_bits m) == bit_and m all_modifiers) mask
      every_mask h)
