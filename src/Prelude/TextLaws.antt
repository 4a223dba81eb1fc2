-- ===== src/Prelude/TextLaws.antt =====
-- Laws of texts.
use Prim.Native.Nat.{ℕ}
use mathlib.Core.Path.{◌≡◌, refl, ap₂}
use mathlib.Core.Bool.{true, false, not}
use mathlib.Core.List.{[], ◌∷◌, ◌++◌}
use mathlib.Core.Option.{none}
use native.Mathlib.Omega.{arith}
use whykey.Prelude.Tests.{&&-true}
use whykey.Prelude.Lists.{all}
use whykey.Prelude.Chars.{
  is_whitespace, char_to_upper_idem, char_to_lower_idem, char_to_lower-char_to_upper,
  char_to_upper-char_to_lower,
}
use whykey.Prelude.Texts.{
  Text, text_eq, to_lower, to_upper, trim_start, trim_end, trim, contains_char, split_once,
  is_empty,
}

pub text_eq_sound : (s t : Text) → text_eq s t ≡ true → s ≡ t
unfolding text_eq
text_eq_sound [] [] h = refl
text_eq_sound [] (d ∷ t) h = ground arith
text_eq_sound (c ∷ s) [] h = ground arith
text_eq_sound (c ∷ s) (d ∷ t) h = ground (arith, text_eq_sound s t)

pub text_eq_refl : (s : Text) → text_eq s s ≡ true
unfolding text_eq
text_eq_refl [] = refl
text_eq_refl (c ∷ s) = ground (arith, text_eq_refl s)

pub to_lower_idem : (s : Text) → to_lower (to_lower s) ≡ to_lower s
unfolding to_lower
to_lower_idem [] = refl
to_lower_idem (c ∷ s) = ap₂ (λ (d : ℕ) (t : Text). d ∷ t) (char_to_lower_idem c) (to_lower_idem s)

pub to_upper_idem : (s : Text) → to_upper (to_upper s) ≡ to_upper s
unfolding to_upper
to_upper_idem [] = refl
to_upper_idem (c ∷ s) = ap₂ (λ (d : ℕ) (t : Text). d ∷ t) (char_to_upper_idem c) (to_upper_idem s)

pub to_lower-to_upper : (s : Text) → to_lower (to_upper s) ≡ to_lower s
unfolding to_lower to_upper
to_lower-to_upper [] = refl
to_lower-to_upper (c ∷ s) =
    ap₂ (λ (d : ℕ) (t : Text). d ∷ t) (char_to_lower-char_to_upper c) (to_lower-to_upper s)

pub to_upper-to_lower : (s : Text) → to_upper (to_lower s) ≡ to_upper s
unfolding to_lower to_upper
to_upper-to_lower [] = refl
to_upper-to_lower (c ∷ s) =
    ap₂ (λ (d : ℕ) (t : Text). d ∷ t) (char_to_upper-char_to_lower c) (to_upper-to_lower s)

-- A text with no whitespace, and one with some character.
abbrev pub Solid : Text → Type 0
Solid s = all (λ c. not (is_whitespace c)) s ≡ true

pub trim_start-Solid : (s : Text) → Solid s → trim_start s ≡ s
unfolding all trim_start
trim_start-Solid [] h = refl
trim_start-Solid (c ∷ s) h = ground arith

pub trim_end-Solid : (s : Text) → Solid s → trim_end s ≡ s
unfolding all trim_end
trim_end-Solid [] h = refl
trim_end-Solid (c ∷ []) h = ground arith
trim_end-Solid (c ∷ d ∷ s) h =
    let rest : Solid (d ∷ s) = unfold all in (&&-true (not (is_whitespace c)) _ h).1 in
    rw (trim_end-Solid (d ∷ s) rest)

pub trim-Solid : (s : Text) → Solid s → trim s ≡ s
unfolding trim
trim-Solid s h = rw (trim_start-Solid s h) (trim_end-Solid s h)

-- A text is left alone at its end if what it ends in is.
pub trim_end-append :
    (s t : Text) → trim_end t ≡ t → is_empty t ≡ false → trim_end (s ++ t) ≡ s ++ t
unfolding trim_end is_empty
trim_end-append s [] h e = ground arith
trim_end-append [] (c ∷ t) h e = h
trim_end-append (d ∷ []) (c ∷ t) h e = rw h
trim_end-append (d ∷ d' ∷ s) (c ∷ t) h e = rw (trim_end-append (d' ∷ s) (c ∷ t) h e)

pub split_once-none : (c : ℕ) (s : Text) → contains_char c s ≡ false → split_once c s ≡ none
unfolding contains_char split_once
split_once-none c [] h = refl
split_once-none c (d ∷ s) h = ground (arith, split_once-none c s)
