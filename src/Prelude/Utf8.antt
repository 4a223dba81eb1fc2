-- ===== src/Prelude/Utf8.antt =====
-- `std::str::from_utf8`, and the tests of `char`.
use Prim.Native.Nat.{ℕ, zero, suc, ◌+◌, ◌-◌, ◌*◌}
use mathlib.Core.Path.{◌≡◌, refl}
use mathlib.Core.Bool.{Bool, true, ◌&&◌, ◌||◌}
use mathlib.Core.List.{List, [], ◌∷◌}
use mathlib.Core.Option.{Option, none, some}
use native.Mathlib.Omega.{arith}
use whykey.Prelude.Tests.{◌==◌, ltb, leb, if◌then◌else◌}
use whykey.Prelude.Lists.{all}
use whykey.Prelude.Texts.{Text}

-- Within a character: how many bytes are to come, the range of the next one, the value so far.
pub record Utf8 : Type 0 where
  pub missing : ℕ
  pub low : ℕ
  pub high : ℕ
  pub value : ℕ

abbrev pub between_chars : Utf8
between_chars = record { missing = 0; low = 0; high = 0; value = 0 }

abbrev lead : ℕ → ℕ → ℕ → ℕ → Utf8
lead missing low high value = record { missing = missing; low = low; high = high; value = value }

-- The first byte of a character of several bytes.
unfoldable pub lead_byte : ℕ → Option Utf8
lead_byte b =
    if leb 0xc2 b && leb b 0xdf
    then some (lead 1 0x80 0xbf (b - 0xc0))
    else if b == 0xe0
    then some (lead 2 0xa0 0xbf 0)
    else if b == 0xed
    then some (lead 2 0x80 0x9f 0xd)
    else if leb 0xe1 b && leb b 0xef
    then some (lead 2 0x80 0xbf (b - 0xe0))
    else if b == 0xf0
    then some (lead 3 0x90 0xbf 0)
    else if b == 0xf4
    then some (lead 3 0x80 0x8f 4)
    else if leb 0xf1 b && leb b 0xf3
    then some (lead 3 0x80 0xbf (b - 0xf0))
    else none

-- The state behind a byte, with the character that it completes.
abbrev started : Option Utf8 → Option (Utf8 × Option ℕ)
started none = none
started (some state) = some (state, none)

abbrev continued : ℕ → ℕ → Utf8 × Option ℕ
continued zero value = (between_chars, some value)
continued (suc missing) value = (lead (suc missing) 0x80 0xbf value, none)

abbrev utf8_within : ℕ → Utf8 → ℕ → Option (Utf8 × Option ℕ)
utf8_within zero state b = if ltb b 0x80 then some (state, some b) else started (lead_byte b)
utf8_within (suc missing) state b =
    if leb state.low b && leb b state.high
    then some (continued missing (state.value * 64 + (b - 0x80)))
    else none

unfoldable pub utf8_step : Utf8 → ℕ → Option (Utf8 × Option ℕ)
unfolding lead_byte
utf8_step state b = utf8_within state.missing state b

abbrev push_char : Option ℕ → Option Text → Option Text
push_char char none = none
push_char none (some s) = some s
push_char (some c) (some s) = some (c ∷ s)

unfoldable pub utf8_from : Utf8 → List ℕ → Option Text
unfolding utf8_step
utf8_from state [] = if state.missing == 0 then some [] else none
utf8_from state (b ∷ bytes) = elim (utf8_step state b) [
  | none ↦ none
  | some (next, char) ↦ push_char char (utf8_from next bytes)
]

unfoldable pub from_utf8 : List ℕ → Option Text
unfolding utf8_from
from_utf8 = utf8_from between_chars

-- `char::from_u32(c).is_some()`
unfoldable pub is_scalar : ℕ → Bool
is_scalar c = ltb c 0xd800 || (leb 0xe000 c && leb c 0x10ffff)

-- `char::is_control`
unfoldable pub is_control : ℕ → Bool
is_control c = ltb c 32 || (leb 0x7f c && leb c 0x9f)

abbrev pub IsAscii : List ℕ → Type 0
IsAscii s = all (λ c. ltb c 0x80) s ≡ true

pub from_utf8-IsAscii : (s : List ℕ) → IsAscii s → from_utf8 s ≡ some s
unfolding from_utf8 utf8_from utf8_step all
from_utf8-IsAscii [] h = refl
from_utf8-IsAscii (c ∷ s) h = ground (arith, from_utf8-IsAscii s)
