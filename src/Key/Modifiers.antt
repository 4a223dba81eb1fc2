-- ===== src/Key/Modifiers.antt =====
-- src/key.rs: the modifier bits and their names.
use whykey.Prelude.{
  ℕ, String, Bool, Text, List, [], ◌∷◌, Option, none, some, text, text_eq, to_lower, if◌then◌else◌,
  all, ◌≡◌, true, arith,
}

abbrev pub shift_mask : ℕ
shift_mask = 1

abbrev pub caps_mask : ℕ
caps_mask = 2

abbrev pub ctrl_mask : ℕ
ctrl_mask = 4

abbrev pub alt_mask : ℕ
alt_mask = 8

abbrev pub mod2_mask : ℕ
mod2_mask = 16

abbrev pub mod3_mask : ℕ
mod3_mask = 32

abbrev pub super_mask : ℕ
super_mask = 64

abbrev pub mod5_mask : ℕ
mod5_mask = 128

-- A `match` on a text whose arms are literals: the first arm that is the text.
unfoldable pub match_text {ℓ} : {A : Type ℓ} → List (String × A) → Text → Option A
unfolding text text_eq
match_text [] s = none
match_text ((name, a) ∷ arms) s = if text_eq s (text name) then some a else match_text arms s

-- What every arm returns, the `match` returns.
pub match_text-all {ℓ} :
    {A : Type ℓ} (p : A → Bool) (arms : List (String × A)) (s : Text) (a : A)
    → match_text arms s ≡ some a
    → all (λ (e : String × A). p e.1) arms ≡ true
    → p a ≡ true
unfolding match_text all
match_text-all p [] s a h t = ground arith
match_text-all p ((n, b) ∷ arms) s a h t = ground (arith, match_text-all p arms s a)

abbrev pub modifier_names : List (String × ℕ)
modifier_names =
    ("ctrl", ctrl_mask)
    ∷ ("control", ctrl_mask)
    ∷ ("ctl", ctrl_mask)
    ∷ ("alt", alt_mask)
    ∷ ("mod1", alt_mask)
    ∷ ("shift", shift_mask)
    ∷ ("super", super_mask)
    ∷ ("meta", super_mask)
    ∷ ("win", super_mask)
    ∷ ("mod4", super_mask)
    ∷ ("caps", caps_mask)
    ∷ ("capslock", caps_mask)
    ∷ ("lock", caps_mask)
    ∷ ("mod2", mod2_mask)
    ∷ ("num", mod2_mask)
    ∷ ("numlock", mod2_mask)
    ∷ ("mod3", mod3_mask)
    ∷ ("hyper", mod3_mask)
    ∷ ("mod5", mod5_mask)
    ∷ ("altgr", mod5_mask)
    ∷ ("iso_level3_shift", mod5_mask)
    ∷ []

-- The bit of a modifier's name or alias.
unfoldable pub modifier_mask : Text → Option ℕ
unfolding match_text to_lower
modifier_mask value = match_text modifier_names (to_lower value)

-- The modifiers in the order in which `compact_display` and `Display` write them.
abbrev pub display_order : List (ℕ × String)
display_order =
    (ctrl_mask, "CTRL")
    ∷ (alt_mask, "ALT")
    ∷ (shift_mask, "SHIFT")
    ∷ (super_mask, "SUPER")
    ∷ (caps_mask, "CAPS")
    ∷ (mod2_mask, "MOD2")
    ∷ (mod3_mask, "MOD3")
    ∷ (mod5_mask, "MOD5")
    ∷ []
