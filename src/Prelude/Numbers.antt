-- ===== src/Prelude/Numbers.antt =====
-- Numbers in decimal: `str::parse` of an unsigned integer, and `Display`.
use Prim.Native.Nat.{ℕ, zero, suc, ◌+◌, ◌-◌, ◌*◌, ◌/◌, ◌%◌}
use mathlib.Core.Bool.{true, false}
use mathlib.Core.List.{[], ◌∷◌, ◌++◌}
use mathlib.Core.Option.{Option, none, some}
use whykey.Prelude.Tests.{◌==◌, ltb, leb, if◌then◌else◌}
use whykey.Prelude.Chars.{is_ascii_digit}
use whykey.Prelude.Texts.{Text}

-- The value of the digits behind those whose value is `n`.
unfoldable pub digits_value : ℕ → Text → Option ℕ
unfolding is_ascii_digit
digits_value n [] = some n
digits_value n (c ∷ s) = elim (is_ascii_digit c) [
  | true ↦ digits_value (n * 10 + (c - b'0')) s
  | false ↦ none
]

abbrev pub at_most : ℕ → Option ℕ → Option ℕ
at_most greatest none = none
at_most greatest (some n) = if leb n greatest then some n else none

-- At least one digit, and a value that fits.
unfoldable pub unsigned_digits : ℕ → Text → Option ℕ
unfolding digits_value
unsigned_digits greatest [] = none
unsigned_digits greatest (c ∷ s) = at_most greatest (digits_value 0 (c ∷ s))

-- `str::parse` of an unsigned integer with the greatest value; a leading `+` is taken.
unfoldable pub parse_unsigned : ℕ → Text → Option ℕ
unfolding unsigned_digits
parse_unsigned greatest [] = none
parse_unsigned greatest (c ∷ s) =
    if c == b'+' then unsigned_digits greatest s else unsigned_digits greatest (c ∷ s)

abbrev pub greatest_u32 : ℕ
greatest_u32 = 4294967295

unfoldable pub parse_u32 : Text → Option ℕ
unfolding parse_unsigned
parse_u32 = parse_unsigned greatest_u32

-- The number in decimal, of at most as many digits as the fuel.
unfoldable pub to_decimal : ℕ → ℕ → Text
to_decimal zero n = []
to_decimal (suc fuel) n =
    let higher = to_decimal fuel (n / 10) in
    if ltb n 10 then (b'0' + n) ∷ [] else higher ++ (b'0' + n % 10) ∷ []

-- A digit of `{:x}`
abbrev pub hex_digit : ℕ → ℕ
hex_digit n = if ltb n 10 then b'0' + n else b'a' + (n - 10)
