-- ===== src/Prelude/Texts.antt =====
-- `str` of Rust's standard library, as the list of its code points.
use Prim.Native.Char.{code}
use Prim.Native.Nat.{ℕ}
use Prim.Native.String.{String}
use mathlib.Core.Bool.{Bool, true, false, ◌&&◌, ◌||◌}
use mathlib.Core.List.{List, [], ◌∷◌, map}
use mathlib.Core.Option.{Option, none, some}
use whykey.Prelude.Tests.{◌==◌, if◌then◌else◌}
use whykey.Prelude.Chars.{is_whitespace, char_to_lower, char_to_upper}

abbrev pub Text : Type 0
Text = List ℕ

-- A literal of the source.
unfoldable pub text : String → Text
text String.[] = []
text (String.◌∷◌ c s) = code c ∷ text s

unfoldable pub text_eq : Text → Text → Bool
text_eq [] [] = true
text_eq [] (d ∷ t) = false
text_eq (c ∷ s) [] = false
text_eq (c ∷ s) (d ∷ t) = c == d && text_eq s t

unfoldable pub is_empty : Text → Bool
is_empty [] = true
is_empty (c ∷ s) = false

unfoldable pub to_lower : Text → Text
unfolding char_to_lower
to_lower = map char_to_lower

unfoldable pub to_upper : Text → Text
unfolding char_to_upper
to_upper = map char_to_upper

unfoldable pub trim_start : Text → Text
unfolding is_whitespace
trim_start [] = []
trim_start (c ∷ s) = if is_whitespace c then trim_start s else c ∷ s

unfoldable pub cons_trimmed : ℕ → Text → Text
unfolding is_whitespace
cons_trimmed c [] = if is_whitespace c then [] else c ∷ []
cons_trimmed c (d ∷ s) = c ∷ d ∷ s

unfoldable pub trim_end : Text → Text
unfolding cons_trimmed
trim_end [] = []
trim_end (c ∷ s) = cons_trimmed c (trim_end s)

unfoldable pub trim : Text → Text
unfolding trim_start trim_end
trim s = trim_end (trim_start s)

-- `contains(c)`
unfoldable pub contains_char : ℕ → Text → Bool
contains_char c [] = false
contains_char c (d ∷ s) = d == c || contains_char c s

unfoldable pub prepend_first : ℕ → Option (Text × Text) → Option (Text × Text)
prepend_first c none = none
prepend_first c (some (before, after)) = some (c ∷ before, after)

-- `split_once(c)`
unfoldable pub split_once : ℕ → Text → Option (Text × Text)
unfolding prepend_first
split_once c [] = none
split_once c (d ∷ s) = if d == c then some ([], s) else prepend_first d (split_once c s)

unfoldable pub push_first : ℕ → List Text → List Text
push_first c [] = (c ∷ []) ∷ []
push_first c (w ∷ ws) = (c ∷ w) ∷ ws

-- `split(c)`
unfoldable pub split : ℕ → Text → List Text
unfolding push_first
split c [] = [] ∷ []
split c (d ∷ s) = if d == c then [] ∷ split c s else push_first d (split c s)

unfoldable pub keep_word : Text → List Text → List Text
keep_word [] ws = ws
keep_word (c ∷ w) ws = (c ∷ w) ∷ ws

-- `split_whitespace()`: the word that is being read, and the words after it.
unfoldable pub words_from : Text → Text × List Text
words_from [] = ([], [])
words_from (c ∷ s) =
    let (w, ws) = words_from s in if is_whitespace c then ([], keep_word w ws) else (c ∷ w, ws)

unfoldable pub split_whitespace : Text → List Text
split_whitespace s = let (w, ws) = words_from s in keep_word w ws

-- `strip_prefix(p)`
unfoldable pub strip_prefix : Text → Text → Option Text
strip_prefix [] s = some s
strip_prefix (c ∷ p) [] = none
strip_prefix (c ∷ p) (d ∷ s) = if c == d then strip_prefix p s else none
