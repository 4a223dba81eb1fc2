-- ===== src/Sexp/Reader.antt =====
-- src/remapper/sexp.rs: the reader, as a machine that takes a character at a time. A loop of the
-- program over some characters is a mode; what `peek` gives is the next character.
use whykey.Prelude.{
  ℕ, ◌+◌, Bool, true, false, ◌&&◌, ◌||◌, Text, text, List, [], ◌∷◌, ◌++◌, Option, none, some,
  Result, ok, err, ◌>>=◌, length, ltb, is_whitespace, ◌==◌, if◌then◌else◌,
}

abbrev pub max_nesting : ℕ
max_nesting = 64

pub data Dialect : Type 0 where
  kanata kmonad : Dialect

mutual
  pub data Sexp : Type 0 where
    atom : Text → ℕ → Sexp
    list : Sexps → ℕ → Sexp

  -- `Vec<Sexp>`
  pub data Sexps : Type 0 where
    nil : Sexps
    cons : Sexp → Sexps → Sexps

-- `push`
unfoldable pub push_item : Sexps → Sexp → Sexps
push_item Sexps.nil item = Sexps.cons item Sexps.nil
push_item (Sexps.cons first items) item = Sexps.cons first (push_item items item)

-- The errors, with the line that the message names.
pub data ReadError : Type 0 where
  unterminated_block_comment unbalanced_open : ReadError
  nesting_too_deep unbalanced_close unterminated_string unexpected_atom : ℕ → ReadError

-- A list that is open, and the line where it starts.
pub record Frame : Type 0 where
  pub items : Sexps
  pub start : ℕ

pub data Mode : Type 0 where
  top line_comment block_open skip_one : Mode
  block_comment : (previous : ℕ) → Mode
  string : Text → Mode
  string_escape : Text → Mode
  token : Text → (escape : Bool) → Mode

-- The innermost open list is the first of the stack.
pub record Reader : Type 0 where
  pub stack : List Frame
  pub line : ℕ
  pub mode : Mode

abbrev pub empty_frame : ℕ → Frame
empty_frame line = record { items = Sexps.nil; start = line }

abbrev pub Stack : Type 0
Stack = List Frame

-- `open`
unfoldable pub open_list : Stack → ℕ → Result ReadError Stack
open_list stack line =
    if ltb max_nesting (length stack)
    then err (nesting_too_deep line)
    else ok (empty_frame line ∷ stack)

abbrev pub push_to : Frame → Sexp → Frame
push_to frame item = record frame { items = push_item frame.items item }

unfoldable pub push_atom : Stack → Text → ℕ → Result ReadError Stack
unfolding push_item
push_atom [] name line = err (unexpected_atom line)
push_atom (frame ∷ stack) name line = ok (push_to frame (Sexp.atom name line) ∷ stack)

-- The arm of the closing parenthesis.
unfoldable pub close_list : Stack → ℕ → Result ReadError Stack
unfolding push_item
close_list (frame ∷ below ∷ stack) line =
    ok (push_to below (Sexp.list frame.items frame.start) ∷ stack)
close_list _ line = err (unbalanced_close line)

abbrev pub is_next : ℕ → Option ℕ → Bool
is_next c none = false
is_next c (some d) = d == c

abbrev pub is_paren : ℕ → Bool
is_paren c = c == b'(' || c == b')'

abbrev pub to_mode : Reader → Mode → Result ReadError Reader
to_mode reader mode = ok (record reader { mode = mode })

-- The reader at the top with another stack.
abbrev pub at_top : ℕ → Stack → Result ReadError Reader
at_top line stack = ok (record { stack = stack; line = line; mode = top })

abbrev pub count_line : ℕ → ℕ → ℕ
count_line c line = if c == b'\n' then line + 1 else line

abbrev pub is_kmonad : Dialect → Bool
is_kmonad Dialect.kanata = false
is_kmonad Dialect.kmonad = true

module _ (dialect : Dialect) where
  -- The `match` of the outer loop on a character, with the next one.
  unfoldable pub top_step : Reader → ℕ → Option ℕ → Result ReadError Reader
  unfolding is_whitespace open_list push_atom close_list text
  top_step reader c next =
      if c == b'\n'
      then at_top (reader.line + 1) reader.stack
      else if is_whitespace c
      then at_top reader.line reader.stack
      else if c == b';' && is_next b';' next
      then to_mode reader line_comment
      else if c == b'#' && is_next b'|' next
      then to_mode reader block_open
      else if c == b'#' && is_kmonad dialect && is_next b'(' next
      then (open_list reader.stack reader.line >>= λ stack.
          (push_atom stack (text "tap-macro") reader.line >>= λ pushed.
          ok (record { stack = pushed; line = reader.line; mode = skip_one })))
      else if c == b'('
      then (open_list reader.stack reader.line >>= at_top reader.line)
      else if c == b')'
      then (close_list reader.stack reader.line >>= at_top reader.line)
      else if c == b'"'
      then to_mode reader (string [])
      else to_mode reader (token (c ∷ []) (is_kmonad dialect && c == b'\\'))

  abbrev pub ends_token : ℕ → Bool
  ends_token c = is_whitespace c || is_paren c || (is_kmonad dialect && c == b'"')

  unfoldable pub token_step : Reader → Text → Bool → ℕ → Option ℕ → Result ReadError Reader
  unfolding top_step is_whitespace push_atom
  token_step reader name escape c next =
      if escape && is_paren c
      then to_mode reader (token (name ++ c ∷ []) false)
      else if ends_token c
      then (push_atom reader.stack name reader.line >>= λ stack.
          top_step (record reader { stack = stack; mode = top }) c next)
      else to_mode reader (token (name ++ c ∷ []) (is_kmonad dialect && c == b'\\'))

  unfoldable pub string_step : Reader → Text → ℕ → Result ReadError Reader
  unfolding push_atom
  string_step reader name c =
      if c == b'"'
      then (push_atom reader.stack name reader.line >>= at_top reader.line)
      else if is_kmonad dialect && c == b'\\'
      then to_mode reader (string_escape name)
      else ok (record reader { line = count_line c reader.line; mode = string (name ++ c ∷ []) })

  abbrev comment_mode : ℕ → ℕ → Mode
  comment_mode previous c = if previous == b'|' && c == b'#' then top else block_comment c

  unfoldable pub mode_step : Reader → Mode → ℕ → Option ℕ → Result ReadError Reader
  unfolding top_step token_step string_step
  mode_step reader top c next = top_step reader c next
  mode_step reader line_comment c next =
      if c == b'\n' then at_top (reader.line + 1) reader.stack else to_mode reader line_comment
  mode_step reader block_open c next = to_mode reader (block_comment b' ')
  mode_step reader skip_one c next = to_mode reader top
  mode_step reader (block_comment previous) c next =
      ok (record reader { line = count_line c reader.line; mode = comment_mode previous c })
  mode_step reader (string name) c next = string_step reader name c
  mode_step reader (string_escape name) c next =
      ok (record reader { line = count_line c reader.line; mode = string (name ++ c ∷ []) })
  mode_step reader (token name escape) c next = token_step reader name escape c next

  abbrev pub peek : Text → Option ℕ
  peek [] = none
  peek (c ∷ s) = some c

  unfoldable pub read : Reader → Text → Result ReadError Reader
  unfolding mode_step
  read reader [] = ok reader
  read reader (c ∷ s) = mode_step reader reader.mode c (peek s) >>= λ next. read next s

-- At the end of the text.
unfoldable pub finish_mode : Mode → Reader → Result ReadError Stack
unfolding push_atom
finish_mode (block_comment previous) reader = err unterminated_block_comment
finish_mode block_open reader = err unterminated_block_comment
finish_mode (string name) reader = err (unterminated_string reader.line)
finish_mode (string_escape name) reader = err (unterminated_string reader.line)
finish_mode (token name escape) reader = push_atom reader.stack name reader.line
finish_mode _ reader = ok reader.stack

unfoldable pub finish_stack : Stack → Result ReadError Sexps
finish_stack (frame ∷ []) = ok frame.items
finish_stack _ = err unbalanced_open

abbrev pub at_start : Reader
at_start = record { stack = empty_frame 0 ∷ []; line = 1; mode = top }

unfoldable pub parse : Text → Dialect → Result ReadError Sexps
unfolding read finish_mode finish_stack
parse content dialect =
    read dialect at_start content >>= λ reader. (finish_mode reader.mode reader >>= finish_stack)
