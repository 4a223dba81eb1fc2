-- ===== src/Key/Echo.antt =====
-- src/key.rs: how much of the input an error message echoes.
use mathlib.Core.Path.{subst}
use whykey.Prelude.{
  err-injective, sym, ◌∙◌, ℕ, zero, suc, ◌+◌, ◌≤◌, Bool, true, false, Text, List, [], ◌∷◌, map,
  Option, none, some, Result, ok, err, text, trim, length, take, leb, to_lower, is_empty,
  strip_prefix, split, split_once, bit_and, bit_or, ◌==◌, if◌then◌else◌, ◌>>=◌, ◌≡◌, refl, ap,
  arith, inl, inr, Bool-cases, Option-cases,
}
use whykey.Key.Modifiers.{modifier_mask}
use whykey.Key.Names.{
  ParseKeyComboError, empty_combination, repeated_modifier, no_main_key, several_keys,
  whitespace_in_key, invalid_keycode, unknown_key, not_one_modifier, echo_limit, shorten,
  abbreviate, has_whitespace, keycode, normalize_key,
}
use whykey.Key.Combo.{
  modifier_only_error, several_keys_error, max_described_segments, strip_modifiers, modifier_round,
  main_key, parse_combo,
}

-- One character more than the limit, for the ellipsis.
abbrev pub IsShort : Text → Type 0
IsShort s = length s ≤ echo_limit + 1

abbrev pub AllShort : List Text → Type 0
AllShort [] = Unit {0}
AllShort (s ∷ ss) = IsShort s × AllShort ss

abbrev IsShortOption : Option Text → Type 0
IsShortOption none = Unit {0}
IsShortOption (some s) = IsShort s

-- Each text that an error echoes is short, and there are at most four of them.
abbrev pub EchoesLittle : ParseKeyComboError → Type 0
EchoesLittle empty_combination = Unit {0}
EchoesLittle (repeated_modifier s) = IsShort s
EchoesLittle (no_main_key s t) = IsShort s × IsShortOption t
EchoesLittle (several_keys ss counts) = AllShort ss × (length ss ≤ max_described_segments)
EchoesLittle (whitespace_in_key s) = IsShort s
EchoesLittle (invalid_keycode s) = IsShort s
EchoesLittle (unknown_key s) = IsShort s
EchoesLittle (not_one_modifier s) = IsShort s

length-shorten : (n : ℕ) (s : Text) → length (shorten n s) ≤ n + 1
unfolding shorten
length-shorten n [] = omega arith
length-shorten zero (c ∷ s) = omega arith
length-shorten (suc n) (c ∷ s) = omega (arith, length-shorten n s)

abbreviate-IsShort : (s : Text) → IsShort (abbreviate s)
abbreviate-IsShort s = unfold abbreviate in length-shorten echo_limit s

length-to_lower : (s : Text) → length (to_lower s) ≡ length s
unfolding to_lower
length-to_lower [] = refl
length-to_lower (c ∷ s) = ap suc (length-to_lower s)

map-abbreviate-AllShort : (ss : List Text) → AllShort (map abbreviate ss)
map-abbreviate-AllShort [] = tt
map-abbreviate-AllShort (s ∷ ss) = (abbreviate-IsShort s, map-abbreviate-AllShort ss)

length-map-abbreviate : (ss : List Text) → length (map abbreviate ss) ≡ length ss
length-map-abbreviate [] = refl
length-map-abbreviate (s ∷ ss) = ap suc (length-map-abbreviate ss)

length-take_three : (ss : List Text) → length (take 3 ss) ≤ 3
length-take_three [] = omega arith
length-take_three (a ∷ []) = omega arith
length-take_three (a ∷ b ∷ []) = omega arith
length-take_three (a ∷ b ∷ c ∷ ss) = omega arith

echo-if {ℓ} :
    {A : Type ℓ} (P : A → Type 0) (b : Bool) (x y : A) → P x → P y → P (if b then x else y)
echo-if P true x y p q = p
echo-if P false x y p q = q

modifier_only_error-EchoesLittle :
    (input : Text) (m : ℕ) (r : Text) → EchoesLittle (modifier_only_error input m r)
unfolding modifier_only_error
modifier_only_error-EchoesLittle input m r = (
  abbreviate-IsShort input,
  echo-if IsShortOption _ (some (to_lower (abbreviate r))) none
      (rw length-to_lower (abbreviate-IsShort r)) tt,
)

several_keys_error-EchoesLittle : (ss : List Text) → EchoesLittle (several_keys_error ss)
unfolding several_keys_error
several_keys_error-EchoesLittle ss = elim (Bool-cases (leb (length ss) 4)) [
  | inl e ↦ rw e (map-abbreviate-AllShort ss, rw length-map-abbreviate (ground arith))
  | inr e ↦ rw e (
    map-abbreviate-AllShort (take 3 ss),
    rw length-map-abbreviate (omega (arith, length-take_three ss)),
  )
]

-- A result whose error, if it is one, echoes little.
data ErrsShort {ℓ} {A : Type ℓ} (r : Result ParseKeyComboError A) : Type ℓ where
  succeeds : (a : A) → r ≡ ok a → ErrsShort r
  fails : (e : ParseKeyComboError) → r ≡ err e → EchoesLittle e → ErrsShort r

module _ {ℓ} {A : Type ℓ} where
  ErrsShort-ok : (a : A) → ErrsShort (ok a)
  ErrsShort-ok a = succeeds a refl

  ErrsShort-err : (e : ParseKeyComboError) → EchoesLittle e → ErrsShort {A = A} (err e)
  ErrsShort-err e h = fails e refl h

  ErrsShort-if :
      (b : Bool) (x y : Result ParseKeyComboError A)
      → ErrsShort x
      → ErrsShort y
      → ErrsShort (if b then x else y)
  ErrsShort-if true x y hx hy = hx
  ErrsShort-if false x y hx hy = hy

ErrsShort-bind {ℓ κ} :
    {A : Type ℓ} {B : Type κ} (r : Result ParseKeyComboError A)
    (f : A → Result ParseKeyComboError B)
    → ErrsShort r
    → ((a : A) → ErrsShort (f a))
    → ErrsShort (r >>= f)
ErrsShort-bind r f (succeeds a e) k = rw e (k a)
ErrsShort-bind r f (fails x e h) k = rw e (ErrsShort-err x h)

keycode-ErrsShort : (r : Text) → ErrsShort (keycode r)
unfolding keycode
keycode-ErrsShort r = ErrsShort-if _ _ _ (ErrsShort-err _ (abbreviate-IsShort r)) (ErrsShort-ok _)

normalize_key-ErrsShort : (r : Text) → ErrsShort (normalize_key r)
unfolding normalize_key
normalize_key-ErrsShort r =
    ErrsShort-if (has_whitespace r) _ _ (ErrsShort-err _ (abbreviate-IsShort r))
      (elim (Option-cases (strip_prefix (text "code:") (to_lower r))) [
        | inl e ↦ rw e (ErrsShort-ok _)
        | inr (s, e) ↦ rw e (keycode-ErrsShort r)
      ])

strip_modifiers-ErrsShort : (fuel m : ℕ) (s : Text) → ErrsShort (strip_modifiers fuel m s)
unfolding strip_modifiers modifier_round
strip_modifiers-ErrsShort zero m s = ErrsShort-ok _
strip_modifiers-ErrsShort (suc fuel) m s = elim (Option-cases (split_once b'+' s)) [
  | inl a ↦ rw (strip_modifiers, modifier_round, a) (ErrsShort-ok _)
  | inr ((raw, rest), a) ↦ elim (Bool-cases (is_empty (trim raw))) [
    | inl b ↦ rw (strip_modifiers, modifier_round, a, b) (ErrsShort-ok _)
    | inr b ↦ elim (Option-cases (modifier_mask (trim raw))) [
      | inl c ↦ rw (strip_modifiers, modifier_round, a, b, c) (ErrsShort-ok _)
      | inr (mask, c) ↦ elim (Bool-cases (bit_and m mask == 0)) [
        | inl d ↦
            rw (strip_modifiers, modifier_round, a, b, c, d)
              (strip_modifiers-ErrsShort fuel (bit_or m mask) rest)
        | inr d ↦
            rw (strip_modifiers, modifier_round, a, b, c, d)
              (ErrsShort-err _ (abbreviate-IsShort (trim raw)))
      ]
    ]
  ]
]

main_key-ErrsShort : (v : Bool) (input : Text) (m : ℕ) (r : Text) → ErrsShort (main_key v input m r)
unfolding main_key
main_key-ErrsShort v input m r =
    ErrsShort-if _ _ _ (ErrsShort-err _ (modifier_only_error-EchoesLittle input m r)) (
      ErrsShort-if _ _ _
        (ErrsShort-err _ (several_keys_error-EchoesLittle (map trim (split b'+' r))))
        (ErrsShort-bind (normalize_key r) _ (normalize_key-ErrsShort r)
          (λ key. ErrsShort-if _ _ _ (ErrsShort-err _ (abbreviate-IsShort r)) (ErrsShort-ok _))))

parse_combo-ErrsShort : (input : Text) (v : Bool) → ErrsShort (parse_combo input v)
unfolding parse_combo
parse_combo-ErrsShort input v = ErrsShort-if _ _ _ (ErrsShort-err empty_combination tt) (
    ErrsShort-bind (strip_modifiers (length (trim input)) 0 (trim input)) _
      (strip_modifiers-ErrsShort (length (trim input)) 0 (trim input))
      (λ stripped. main_key-ErrsShort v (trim input) stripped.0 (trim stripped.1)))

ErrsShort-error {ℓ} :
    {A : Type ℓ} {r : Result ParseKeyComboError A} (e : ParseKeyComboError)
    → ErrsShort r
    → r ≡ err e
    → EchoesLittle e
ErrsShort-error e (succeeds a p) q = absurd (cc)
ErrsShort-error {r = r} e (fails x p h) q = subst EchoesLittle (err-injective (sym p ∙ q)) h

-- Whatever the input, each text that the error of a failed parse takes from it to echo has at most
-- 65 characters, and an error that lists segments lists at most four.
pub parse_combo-EchoesLittle :
    (input : Text) (v : Bool) (e : ParseKeyComboError)
    → parse_combo input v ≡ err e
    → EchoesLittle e
parse_combo-EchoesLittle input v e h = ErrsShort-error e (parse_combo-ErrsShort input v) h
