-- ===== src/Prelude/LineLaws.antt =====
-- Laws of lines and patterns.
use Prim.Native.Nat.{ℕ}
use mathlib.Core.Path.{◌≡◌, refl, ap}
use mathlib.Core.Bool.{Bool, true, false, not, ◌&&◌}
use mathlib.Core.List.{[], ◌∷◌, ◌++◌}
use mathlib.Core.Option.{some}
use native.Mathlib.Omega.{arith}
use whykey.Prelude.Tests.{◌==◌, &&-true}
use whykey.Prelude.Lists.{all}
use whykey.Prelude.Chars.{is_whitespace}
use whykey.Prelude.Texts.{Text, is_empty, strip_prefix, trim_start}
use whykey.Prelude.TextLaws.{Solid}
use whykey.Prelude.Lines.{strip_return, keep_line, lines_from, lines, split_word}

-- A text within one line.
abbrev pub is_no_break : ℕ → Bool
is_no_break c = not (c == 10) && not (c == 13)

abbrev pub IsOneLine : Text → Type 0
IsOneLine s = all is_no_break s ≡ true

pub strip_prefix-append : (p s : Text) → strip_prefix p (p ++ s) ≡ some s
unfolding strip_prefix
strip_prefix-append [] s = refl
strip_prefix-append (c ∷ p) s = ground (arith, strip_prefix-append p s)

strip_return-IsOneLine : (s : Text) → IsOneLine s → strip_return s ≡ s
unfolding strip_return all
strip_return-IsOneLine [] h = refl
strip_return-IsOneLine (c ∷ []) h = ground arith
strip_return-IsOneLine (c ∷ d ∷ s) h =
    let rest : IsOneLine (d ∷ s) = unfold all in (&&-true (is_no_break c) _ h).1 in
    ap (λ (t : Text). c ∷ t) (strip_return-IsOneLine (d ∷ s) rest)

lines_from-IsOneLine : (s t : Text) → IsOneLine s → lines_from (s ++ 10 ∷ t) ≡ (s, true, lines t)
unfolding lines_from lines all
lines_from-IsOneLine [] t h = refl
lines_from-IsOneLine (c ∷ s) t h =
    let rest : IsOneLine s = unfold all in (&&-true (is_no_break c) _ h).1 in
    ground (arith, lines_from-IsOneLine s t rest)

-- A line that a line feed ends is the first line.
pub lines-IsOneLine : (s t : Text) → IsOneLine s → lines (s ++ 10 ∷ t) ≡ s ∷ lines t
unfolding lines keep_line
lines-IsOneLine s t h = rw (lines_from-IsOneLine s t h, strip_return-IsOneLine s h) refl

pub split_word-Solid :
    (s t : Text) (c : ℕ) → Solid s → is_whitespace c ≡ true → split_word (s ++ c ∷ t) ≡ (s, c ∷ t)
unfolding split_word all
split_word-Solid [] t c h w = rw w refl
split_word-Solid (d ∷ s) t c h w =
    let rest : Solid s = unfold all in (&&-true (not (is_whitespace d)) _ h).1 in
    ground (arith, split_word-Solid s t c rest w)

pub trim_start-word : (c : ℕ) (s : Text) → is_whitespace c ≡ false → trim_start (c ∷ s) ≡ c ∷ s
unfolding trim_start
trim_start-word c s h = rw h refl

pub trim_start-append : (s t : Text) → Solid s → is_empty s ≡ false → trim_start (s ++ t) ≡ s ++ t
unfolding trim_start all is_empty
trim_start-append [] t h e = ground arith
trim_start-append (c ∷ s) t h e = ground arith
