-- ===== src/Prelude/Chars.antt =====
-- `char` of Rust's standard library, as a code point.
use Prim.Native.Nat.{ℕ, ◌+◌, ◌-◌}
use mathlib.Core.Path.{◌≡◌}
use mathlib.Core.Bool.{Bool, ◌&&◌, ◌||◌}
use native.Mathlib.Omega.{arith}
use whykey.Prelude.Tests.{◌==◌, leb, if◌then◌else◌}

-- `char::is_whitespace`: Unicode's White_Space.
unfoldable pub is_whitespace : ℕ → Bool
is_whitespace c =
    (leb 9 c && leb c 13)
    || c == 32
    || c == 0x85
    || c == 0xa0
    || c == 0x1680
    || (leb 0x2000 c && leb c 0x200a)
    || c == 0x2028
    || c == 0x2029
    || c == 0x202f
    || c == 0x205f
    || c == 0x3000

unfoldable pub is_ascii_lowercase : ℕ → Bool
is_ascii_lowercase c = leb b'a' c && leb c b'z'

unfoldable pub is_ascii_uppercase : ℕ → Bool
is_ascii_uppercase c = leb b'A' c && leb c b'Z'

unfoldable pub is_ascii_digit : ℕ → Bool
is_ascii_digit c = leb b'0' c && leb c b'9'

unfoldable pub is_ascii_alphabetic : ℕ → Bool
unfolding is_ascii_lowercase is_ascii_uppercase
is_ascii_alphabetic c = is_ascii_lowercase c || is_ascii_uppercase c

unfoldable pub is_ascii_alphanumeric : ℕ → Bool
unfolding is_ascii_alphabetic is_ascii_digit
is_ascii_alphanumeric c = is_ascii_alphabetic c || is_ascii_digit c

unfoldable pub char_to_lower : ℕ → ℕ
unfolding is_ascii_uppercase
char_to_lower c = if is_ascii_uppercase c then c + 32 else c

unfoldable pub char_to_upper : ℕ → ℕ
unfolding is_ascii_lowercase
char_to_upper c = if is_ascii_lowercase c then c - 32 else c

pub char_to_upper_idem : (c : ℕ) → char_to_upper (char_to_upper c) ≡ char_to_upper c
unfolding char_to_upper
char_to_upper_idem c = ground arith

pub char_to_lower_idem : (c : ℕ) → char_to_lower (char_to_lower c) ≡ char_to_lower c
unfolding char_to_lower
char_to_lower_idem c = ground arith

pub char_to_lower-char_to_upper : (c : ℕ) → char_to_lower (char_to_upper c) ≡ char_to_lower c
unfolding char_to_lower char_to_upper
char_to_lower-char_to_upper c = ground arith

pub char_to_upper-char_to_lower : (c : ℕ) → char_to_upper (char_to_lower c) ≡ char_to_upper c
unfolding char_to_lower char_to_upper
char_to_upper-char_to_lower c = ground arith

pub is_whitespace-char_to_upper : (c : ℕ) → is_whitespace (char_to_upper c) ≡ is_whitespace c
unfolding is_whitespace char_to_upper
is_whitespace-char_to_upper c = ground arith

-- `+` is no letter, so folding case neither makes nor hides it.
pub plus-char_to_upper : (c : ℕ) → (char_to_upper c == b'+') ≡ (c == b'+')
unfolding char_to_upper
plus-char_to_upper c = ground arith

pub plus-char_to_lower : (c : ℕ) → (char_to_lower c == b'+') ≡ (c == b'+')
unfolding char_to_lower
plus-char_to_lower c = ground arith
