-- ===== src/Prelude/NumberLaws.antt =====
-- Laws of numbers in decimal.
use Prim.Native.Nat.{ℕ, zero, suc, ◌+◌, ◌-◌, ◌*◌, ◌/◌, ◌%◌, ◌<◌, ◌≤◌}
use mathlib.Core.Path.{◌≡◌, refl, ap, ◌∙◌}
use mathlib.Core.Bool.{true, false}
use mathlib.Core.Logic.{inl, inr}
use mathlib.Core.List.{[], ◌∷◌, ◌++◌}
use mathlib.Core.Option.{Option, none, some}
use native.Mathlib.Omega.{arith}
use whykey.Prelude.Tests.{ltb, Bool-cases}
use whykey.Prelude.Lists.{all, all-append}
use whykey.Prelude.Chars.{is_ascii_digit}
use whykey.Prelude.Texts.{Text, is_empty, contains_char}
use whykey.Prelude.Numbers.{digits_value, at_most, unsigned_digits, parse_unsigned, to_decimal}
use whykey.Prelude.Utf8.{IsAscii}

-- Less than ten to the power.
abbrev pub power_of_ten : ℕ → ℕ
power_of_ten zero = 1
power_of_ten (suc digits) = 10 * power_of_ten digits

abbrev shifted : ℕ → Option ℕ → Option ℕ
shifted digit none = none
shifted digit (some n) = some (n * 10 + digit)

digits_value-append :
    (digit n : ℕ) (s : Text)
    → digit < 10
    → digits_value n (s ++ (48 + digit) ∷ []) ≡ shifted digit (digits_value n s)
unfolding digits_value
digits_value-append digit n [] h = ground arith
digits_value-append digit n (c ∷ s) h =
    ground (arith, digits_value-append digit (n * 10 + (c - 48)) s h)

digits_value-to_decimal :
    (fuel n : ℕ) → n < power_of_ten fuel → digits_value 0 (to_decimal fuel n) ≡ some n
unfolding to_decimal digits_value
digits_value-to_decimal zero n h = ap some (omega arith)
digits_value-to_decimal (suc fuel) n h = elim (Bool-cases (ltb n 10)) [
  | inl e ↦ rw e (digits_value-append n 0 [] (ground arith) ∙ ap some (omega arith))
  | inr e ↦ rw e (
      digits_value-append (n % 10) 0 (to_decimal fuel (n / 10)) (omega arith)
      ∙ ap (shifted (n % 10)) (digits_value-to_decimal fuel (n / 10) (omega arith))
      ∙ ap some (omega arith))
]

abbrev pub AllDigits : Text → Type 0
AllDigits s = all is_ascii_digit s ≡ true

one_digit-AllDigits : (d : ℕ) → d < 10 → AllDigits ((48 + d) ∷ [])
unfolding all is_ascii_digit
one_digit-AllDigits d h = ground arith

pub to_decimal-AllDigits : (fuel n : ℕ) → AllDigits (to_decimal fuel n)
unfolding to_decimal
to_decimal-AllDigits zero n = unfold all in refl
to_decimal-AllDigits (suc fuel) n = elim (Bool-cases (ltb n 10)) [
  | inl e ↦ rw e (one_digit-AllDigits n (ground arith))
  | inr e ↦ rw e (
      all-append is_ascii_digit (to_decimal fuel (n / 10)) _ (to_decimal-AllDigits fuel (n / 10))
        (one_digit-AllDigits (n % 10) (omega arith)))
]

is_empty-last : (s : Text) (c : ℕ) → is_empty (s ++ c ∷ []) ≡ false
unfolding is_empty
is_empty-last [] c = refl
is_empty-last (d ∷ s) c = refl

pub to_decimal-is_empty : (fuel n : ℕ) → is_empty (to_decimal (suc fuel) n) ≡ false
unfolding to_decimal is_empty
to_decimal-is_empty fuel n = elim (Bool-cases (ltb n 10)) [
  | inl e ↦ rw e refl
  | inr e ↦ rw e (is_empty-last (to_decimal fuel (n / 10)) _)
]

parse_unsigned-AllDigits :
    (greatest : ℕ) (s : Text)
    → is_empty s ≡ false
    → AllDigits s
    → parse_unsigned greatest s ≡ at_most greatest (digits_value 0 s)
unfolding parse_unsigned unsigned_digits all is_ascii_digit is_empty
parse_unsigned-AllDigits greatest [] e h = ground arith
parse_unsigned-AllDigits greatest (c ∷ s) e h = ground arith

-- A number that fits reads back from its digits.
pub parse_unsigned-to_decimal :
    (greatest fuel n : ℕ)
    → n ≤ greatest
    → n < power_of_ten (suc fuel)
    → parse_unsigned greatest (to_decimal (suc fuel) n) ≡ some n
parse_unsigned-to_decimal greatest fuel n fits h =
    parse_unsigned-AllDigits greatest _ (to_decimal-is_empty fuel n)
      (to_decimal-AllDigits (suc fuel) n)
    ∙ ap (at_most greatest) (digits_value-to_decimal (suc fuel) n h)
    ∙ ground arith

pub AllDigits-IsAscii : (s : Text) → AllDigits s → IsAscii s
unfolding all is_ascii_digit
AllDigits-IsAscii [] h = refl
AllDigits-IsAscii (c ∷ s) h = ground (arith, AllDigits-IsAscii s)

pub AllDigits-contains_char :
    (c : ℕ) (s : Text) → is_ascii_digit c ≡ false → AllDigits s → contains_char c s ≡ false
unfolding all is_ascii_digit contains_char
AllDigits-contains_char c [] n h = refl
AllDigits-contains_char c (d ∷ s) n h = ground (arith, AllDigits-contains_char c s)
