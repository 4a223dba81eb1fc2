-- ===== src/Prelude/Lines.antt =====
-- `str` of Rust's standard library: lines, patterns of several characters, trimming at the end.
use Prim.Native.Nat.{ℕ, zero, suc, ◌-◌}
use mathlib.Core.Bool.{Bool, true, false, ◌&&◌, ◌||◌}
use mathlib.Core.List.{List, [], ◌∷◌, ◌++◌}
use mathlib.Core.Option.{Option, none, some}
use whykey.Prelude.Tests.{◌==◌, leb, if◌then◌else◌}
use whykey.Prelude.Lists.{length}
use whykey.Prelude.Chars.{is_whitespace}
use whykey.Prelude.Texts.{Text, is_empty, strip_prefix, push_first}

-- `char::is_ascii_punctuation`
unfoldable pub is_ascii_punctuation : ℕ → Bool
is_ascii_punctuation c =
    (leb 33 c && leb c 47)
    || (leb 58 c && leb c 64)
    || (leb 91 c && leb c 96)
    || (leb 123 c && leb c 126)

-- A carriage return in front of a line feed is no part of the line.
unfoldable pub strip_return : Text → Text
strip_return [] = []
strip_return (c ∷ []) = if c == 13 then [] else c ∷ []
strip_return (c ∷ d ∷ s) = c ∷ strip_return (d ∷ s)

-- The line that is being read, whether a line feed ends it, and the lines behind it.
unfoldable pub keep_line : Text × Bool × List Text → List Text
unfolding strip_return is_empty
keep_line (line, true, rest) = strip_return line ∷ rest
keep_line (line, false, rest) = if is_empty line then rest else line ∷ rest

unfoldable pub lines_from : Text → Text × Bool × List Text
unfolding keep_line
lines_from [] = ([], false, [])
lines_from (c ∷ s) =
    let (line, ended, rest) = lines_from s in
    if c == 10 then ([], true, keep_line (line, ended, rest)) else (c ∷ line, ended, rest)

-- `lines()`
unfoldable pub lines : Text → List Text
unfolding lines_from keep_line
lines s = keep_line (lines_from s)

-- What is behind the first place that has the pattern: `&s[s.find(p)? + p.len()..]`
unfoldable pub after_text : Text → Text → Option Text
unfolding strip_prefix
after_text p [] = strip_prefix p []
after_text p (c ∷ s) =
    let later = after_text p s in
    elim (strip_prefix p (c ∷ s)) [ some rest ↦ some rest | none ↦ later ]

-- `split(p)` of a pattern of several characters; the number of them that are left to skip.
unfoldable pub split_skipping : Text → ℕ → Text → List Text
unfolding strip_prefix push_first
split_skipping p skip [] = [] ∷ []
split_skipping p (suc skip) (c ∷ s) = split_skipping p skip s
split_skipping p zero (c ∷ s) = elim (strip_prefix p (c ∷ s)) [
  | some _ ↦ [] ∷ split_skipping p (length p - 1) s
  | none ↦ push_first c (split_skipping p 0 s)
]

unfoldable pub split_text : Text → Text → List Text
unfolding split_skipping
split_text p s = split_skipping p 0 s

unfoldable pub cons_unless : (ℕ → Bool) → ℕ → Text → Text
cons_unless trimmed c [] = if trimmed c then [] else c ∷ []
cons_unless trimmed c (d ∷ s) = c ∷ d ∷ s

-- `trim_end_matches(p)`
unfoldable pub trim_end_matches : (ℕ → Bool) → Text → Text
unfolding cons_unless
trim_end_matches trimmed [] = []
trim_end_matches trimmed (c ∷ s) = cons_unless trimmed c (trim_end_matches trimmed s)

-- `split_at` the first whitespace, or the end.
unfoldable pub split_word : Text → Text × Text
unfolding is_whitespace
split_word [] = ([], [])
split_word (c ∷ s) =
    let (word, rest) = split_word s in if is_whitespace c then ([], c ∷ s) else (c ∷ word, rest)

-- `starts_with(p)`
unfoldable pub starts_with : Text → Text → Bool
unfolding strip_prefix
starts_with p s = elim (strip_prefix p s) [ some _ ↦ true | none ↦ false ]

-- `join(separator)`
unfoldable pub join_with : Text → List Text → Text
join_with separator [] = []
join_with separator (w ∷ []) = w
join_with separator (w ∷ v ∷ ws) = w ++ (separator ++ join_with separator (v ∷ ws))
