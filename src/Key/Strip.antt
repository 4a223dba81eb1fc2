-- ===== src/Key/Strip.antt =====
-- src/key.rs: the loop that takes modifiers off, on the texts that the two displays write.
use whykey.Prelude.{
  ℕ, zero, suc, ◌≤◌, ◌<◌, String, true, false, ◌⊎◌, Text, List, [], ◌∷◌, ◌++◌, Option, none, some,
  ok, text, trim, is_empty, contains_char, split_once, length, length-append, ◌==◌, if◌then◌else◌,
  ◌≡◌, refl, ap, ◌∙◌, arith, inl, inr, Bool-cases, split_once-none, text_eq_sound, bit_and, bit_or,
}
use whykey.Key.Modifiers.{modifier_mask}
use whykey.Key.Canonical.{IsKeyName}
use whykey.Key.Combo.{strip_modifiers, modifier_round}

-- The separators of a display: before the first name, before the others and the key, and after a
-- name.
pub record Style : Type 0 where
  pub next : Text
  pub trail : Text

abbrev pub compact : Style
compact = record { next = []; trail = [] }

abbrev pub spaced : Style
spaced = record { next = 32 ∷ []; trail = 32 ∷ [] }

-- A display: the names of the modifiers, each with its separators and a `+`, and the key.
unfoldable pub joined : Style → Text → ℕ → List (ℕ × String) → Text → Text
unfolding text
joined style lead modifiers [] key = lead ++ key
joined style lead modifiers ((mask, name) ∷ rest) key =
    if bit_and modifiers mask == 0
    then joined style lead modifiers rest key
    else lead ++ (text name ++ (style.trail ++ b'+' ∷ joined style style.next modifiers rest key))

-- The modifiers that the parser collects from those names, if none appears twice.
unfoldable pub collect : ℕ → ℕ → List (ℕ × String) → Option ℕ
collect acc modifiers [] = some acc
collect acc modifiers ((mask, name) ∷ rest) =
    if bit_and modifiers mask == 0
    then collect acc modifiers rest
    else if bit_and acc mask == 0
    then collect (bit_or acc mask) modifiers rest
    else none

-- What the parser needs of a name and the separators around it.
pub record Readable (lead trail : Text) (mask : ℕ) (name : String) : Type 0 where
  pub cut :
      (rest : Text)
      → split_once b'+' (lead ++ (text name ++ (trail ++ b'+' ∷ rest)))
        ≡ some (lead ++ (text name ++ trail), rest)
  pub trimmed : trim (lead ++ (text name ++ trail)) ≡ text name
  pub full : is_empty (text name) ≡ false
  pub bit : modifier_mask (text name) ≡ some mask

abbrev pub AllReadable : Text → Text → List (ℕ × String) → Type 0
AllReadable lead trail [] = Unit {0}
AllReadable lead trail ((mask, name) ∷ rest) =
    Readable lead trail mask name × AllReadable lead trail rest

-- A key name holds no `+`, or is one.
plus_cases : (k : Text) → IsKeyName k → (contains_char b'+' k ≡ false) ⊎ (k ≡ b'+' ∷ [])
plus_cases k h = elim (Bool-cases (contains_char b'+' k)) [
  | inr e ↦ inl e
  | inl e ↦ inr (text_eq_sound k (b'+' ∷ []) (ground (arith, h.plain)))
]

strip-none :
    (fuel m : ℕ) (s : Text) → split_once b'+' s ≡ none → strip_modifiers fuel m s ≡ ok (m, s)
unfolding strip_modifiers modifier_round
strip-none zero m s h = refl
strip-none (suc fuel) m s h = rw (strip_modifiers, modifier_round, h) refl

strip-plus : (fuel m : ℕ) → strip_modifiers fuel m (b'+' ∷ []) ≡ ok (m, b'+' ∷ [])
unfolding strip_modifiers modifier_round split_once trim is_empty
strip-plus zero m = refl
strip-plus (suc fuel) m = refl

strip-plus_spaced : (fuel m : ℕ) → strip_modifiers fuel m (32 ∷ b'+' ∷ []) ≡ ok (m, 32 ∷ b'+' ∷ [])
unfolding strip_modifiers modifier_round split_once trim is_empty
strip-plus_spaced zero m = refl
strip-plus_spaced (suc fuel) m = refl

-- A key name is left as it is, also after a space.
pub strip-key : (k : Text) → IsKeyName k → (fuel m : ℕ) → strip_modifiers fuel m k ≡ ok (m, k)
strip-key k h fuel m = elim (plus_cases k h) [
  | inl e ↦ strip-none fuel m k (split_once-none b'+' k e)
  | inr e ↦ rw e (strip-plus fuel m)
]

pub strip-key_spaced :
    (k : Text) → IsKeyName k → (fuel m : ℕ) → strip_modifiers fuel m (32 ∷ k) ≡ ok (m, 32 ∷ k)
strip-key_spaced k h fuel m = elim (plus_cases k h) [
  | inl e ↦ strip-none fuel m (32 ∷ k) (split_once-none b'+' (32 ∷ k) (unfold contains_char in e))
  | inr e ↦ rw e (strip-plus_spaced fuel m)
]

-- One round of the loop, on a name that is not yet taken.
strip_round :
    (lead trail : Text) (mask : ℕ) (name : String) (fuel acc : ℕ) (rest : Text)
    → Readable lead trail mask name
    → (bit_and acc mask == 0) ≡ true
    → strip_modifiers (suc fuel) acc (lead ++ (text name ++ (trail ++ b'+' ∷ rest)))
      ≡ strip_modifiers fuel (bit_or acc mask) rest
unfolding strip_modifiers modifier_round
strip_round lead trail mask name fuel acc rest h e =
    rw (strip_modifiers, modifier_round, h.cut rest, h.trimmed, h.full, h.trimmed, h.bit, e)

joined-length :
    (lead name trail rest : Text) → length rest < length (lead ++ (name ++ (trail ++ b'+' ∷ rest)))
joined-length lead name trail rest = omega (
  arith,
  length-append lead (name ++ (trail ++ b'+' ∷ rest)),
  length-append name (trail ++ b'+' ∷ rest),
  length-append trail (b'+' ∷ rest),
)

module _ (style : Style) (k : Text)
    (next_last : (fuel m : ℕ) → strip_modifiers fuel m (style.next ++ k) ≡ ok (m, style.next ++ k))
    (trim_next : trim (style.next ++ k) ≡ k) where
  -- The loop takes every name off, and leaves the key.
  abbrev pub Stripped : Text → ℕ → ℕ → ℕ → Type 0
  Stripped s fuel acc r = (t : Text) × (strip_modifiers fuel acc s ≡ ok (r, t)) × (trim t ≡ k)

  joined-skip :
      (lead : Text) (modifiers mask : ℕ) (name : String) (rest : List (ℕ × String))
      → (bit_and modifiers mask == 0) ≡ true
      → joined style lead modifiers ((mask, name) ∷ rest) k ≡ joined style lead modifiers rest k
  unfolding joined
  joined-skip lead modifiers mask name rest e = rw e

  joined-take :
      (lead : Text) (modifiers mask : ℕ) (name : String) (rest : List (ℕ × String))
      → (bit_and modifiers mask == 0) ≡ false
      → joined style lead modifiers ((mask, name) ∷ rest) k
        ≡ lead ++ (text name ++ (style.trail ++ b'+' ∷ joined style style.next modifiers rest k))
  unfolding joined
  joined-take lead modifiers mask name rest e = rw e

  -- A name that is in the mask.
  strip-joined_take :
      (mask : ℕ) (name : String) (lead tail : Text) (fuel acc r : ℕ)
      → Readable lead style.trail mask name
      → length (lead ++ (text name ++ (style.trail ++ b'+' ∷ tail))) ≤ fuel
      → (bit_and acc mask == 0) ≡ true
      → ((f : ℕ) → length tail ≤ f → Stripped tail f (bit_or acc mask) r)
      → Stripped (lead ++ (text name ++ (style.trail ++ b'+' ∷ tail))) fuel acc r
  strip-joined_take mask name lead tail zero acc r h le e ih =
      absurd (omega (arith, joined-length lead (text name) style.trail tail))
  strip-joined_take mask name lead tail (suc fuel) acc r h le e ih =
      let (t, stripped, trimmed) =
        ih fuel (omega (arith, joined-length lead (text name) style.trail tail)) in
      (t, strip_round lead style.trail mask name fuel acc tail h e ∙ stripped, trimmed)

  collect-done : (acc modifiers r : ℕ) → collect acc modifiers [] ≡ some r → acc ≡ r
  unfolding collect
  collect-done acc modifiers r c = cc

  collect-take :
      (acc modifiers mask : ℕ) (name : String) (rest : List (ℕ × String)) (r : ℕ)
      → (bit_and modifiers mask == 0) ≡ false
      → collect acc modifiers ((mask, name) ∷ rest) ≡ some r
      → ((bit_and acc mask == 0) ≡ true) × (collect (bit_or acc mask) modifiers rest ≡ some r)
  unfolding collect
  collect-take acc modifiers mask name rest r e c = ground arith

  collect-skip :
      (acc modifiers mask : ℕ) (name : String) (rest : List (ℕ × String)) (r : ℕ)
      → (bit_and modifiers mask == 0) ≡ true
      → collect acc modifiers ((mask, name) ∷ rest) ≡ some r
      → collect acc modifiers rest ≡ some r
  unfolding collect
  collect-skip acc modifiers mask name rest r e c = ground arith

  pub strip-joined :
      (order : List (ℕ × String)) (lead : Text) (fuel acc modifiers r : ℕ)
      → AllReadable lead style.trail order
      → AllReadable style.next style.trail order
      → ((fuel m : ℕ) → strip_modifiers fuel m (lead ++ k) ≡ ok (m, lead ++ k))
      → trim (lead ++ k) ≡ k
      → length (joined style lead modifiers order k) ≤ fuel
      → collect acc modifiers order ≡ some r
      → Stripped (joined style lead modifiers order k) fuel acc r
  strip-joined [] lead fuel acc modifiers r h hn last t le c = (
    lead ++ k,
    unfold joined in
        (last fuel acc ∙ ap (λ (n : ℕ). ok (n, lead ++ k)) (collect-done acc modifiers r c)),
    t,
  )
  strip-joined ((mask, name) ∷ rest) lead fuel acc modifiers r h hn last t le c =
      elim (Bool-cases (bit_and modifiers mask == 0)) [
        | inl e ↦ rw (joined-skip lead modifiers mask name rest e) (
            strip-joined rest lead fuel acc modifiers r h.1 hn.1 last t
              (rw (joined-skip lead modifiers mask name rest e) at le)
              (collect-skip acc modifiers mask name rest r e c))
        | inr e ↦
            let (free, c') = collect-take acc modifiers mask name rest r e c in
            rw (joined-take lead modifiers mask name rest e) (
              strip-joined_take mask name lead (joined style style.next modifiers rest k) fuel acc r
                h.0 (rw (joined-take lead modifiers mask name rest e) at le) free
                (λ f le'.
                  strip-joined rest style.next f (bit_or acc mask) modifiers r hn.1 hn.1 next_last
                    trim_next le' c'))
      ]
