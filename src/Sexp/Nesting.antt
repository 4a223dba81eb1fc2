-- ===== src/Sexp/Nesting.antt =====
-- src/remapper/sexp.rs: how deep the lists are that the reader returns.
use mathlib.Core.Path.{subst}
use whykey.Prelude.{
  ℕ, suc, ◌+◌, ◌≤◌, Bool, true, false, ◌&&◌, Text, text, [], ◌∷◌, ◌++◌, Option, Result, ok, err,
  ◌>>=◌, length, ltb, ◌≡◌, ◌≢◌, arith, if◌then◌else◌, Bool-cases, inl, inr, is_whitespace, ◌==◌,
}
use whykey.Sexp.Reader.{
  max_nesting, Dialect, Sexp, Sexps, push_item, ReadError, Mode, Stack, Reader, open_list,
  push_atom, close_list, to_mode, at_top, count_line, is_kmonad, is_next, is_paren, ends_token,
  peek, top_step, token_step, string_step, mode_step, read, unexpected_atom, finish_mode,
  finish_stack, at_start, parse, top, line_comment, block_open, skip_one, block_comment, string,
  string_escape, token,
}

abbrev larger : ℕ → ℕ → ℕ
larger a b = if ltb a b then b else a

-- How deep lists are nested in an expression, and in a list of them.
unfoldable mutual
  pub depth : Sexp → ℕ
  depth (Sexp.atom name line) = 0
  depth (Sexp.list items line) = suc (depths items)

  pub depths : Sexps → ℕ
  depths Sexps.nil = 0
  depths (Sexps.cons item items) = larger (depth item) (depths items)

depths-push_item :
    (items : Sexps) (item : Sexp)
    → depths (push_item items item) ≡ larger (depths items) (depth item)
unfolding depths push_item
depths-push_item Sexps.nil item = ground arith
depths-push_item (Sexps.cons first items) item = ground (arith, depths-push_item items item)

-- There is an open list, and each, with the lists outside it, is within the limit.
abbrev IsNested : Stack → Type 0
IsNested [] = ⊥
IsNested (frame ∷ []) = depths frame.items ≤ max_nesting
IsNested (frame ∷ below ∷ stack) =
    (depths frame.items + length (below ∷ stack) ≤ max_nesting) × IsNested (below ∷ stack)

-- Every error but the one for an atom outside all lists.
abbrev IsExpected : ReadError → Type 0
IsExpected (unexpected_atom line) = ⊥
IsExpected _ = Unit

abbrev OnOk {α} : {A : Type α} → (A → Type 0) → Result ReadError A → Type 0
OnOk P (err error) = IsExpected error
OnOk P (ok a) = P a

OnOk->>= {α β} :
    {A : Type α} {B : Type β} (P : A → Type 0) (Q : B → Type 0) (r : Result ReadError A)
    (next : A → Result ReadError B)
    → OnOk P r
    → ((a : A) → P a → OnOk Q (next a))
    → OnOk Q (r >>= next)
OnOk->>= P Q (err error) next h n = h
OnOk->>= P Q (ok a) next h n = n a h

OnOk-if {α} :
    {A : Type α} (P : A → Type 0) (b : Bool) (x y : Result ReadError A)
    → OnOk P x
    → OnOk P y
    → OnOk P (if b then x else y)
OnOk-if P true x y hx hy = hx
OnOk-if P false x y hx hy = hy

open_list-IsNested :
    (stack : Stack) (line : ℕ) → IsNested stack → OnOk IsNested (open_list stack line)
unfolding open_list depths
open_list-IsNested [] line h = absurd h
open_list-IsNested (frame ∷ stack) line h =
    elim (Bool-cases (ltb max_nesting (length (frame ∷ stack)))) [
      | inl e ↦ rw e tt
      | inr e ↦ rw e (ground arith, h)
    ]

push_atom-IsNested :
    (stack : Stack) (name : Text) (line : ℕ)
    → IsNested stack
    → OnOk IsNested (push_atom stack name line)
unfolding push_atom
push_atom-IsNested [] name line h = absurd h
push_atom-IsNested (frame ∷ []) name line h =
    let pushed = depths-push_item frame.items (Sexp.atom name line) in unfold depths in ground arith
push_atom-IsNested (frame ∷ below ∷ stack) name line h =
    let pushed = depths-push_item frame.items (Sexp.atom name line) in
    (unfold depths in ground (arith, h.0), h.1)

close_list-IsNested :
    (stack : Stack) (line : ℕ) → IsNested stack → OnOk IsNested (close_list stack line)
unfolding close_list
close_list-IsNested [] line h = absurd h
close_list-IsNested (frame ∷ []) line h = tt
close_list-IsNested (frame ∷ below ∷ []) line h =
    let pushed = depths-push_item below.items (Sexp.list frame.items frame.start) in
    unfold depths in ground arith
close_list-IsNested (frame ∷ below ∷ outer ∷ stack) line h =
    let pushed = depths-push_item below.items (Sexp.list frame.items frame.start) in
    (unfold depths in ground arith, h.1.1)

-- The same of a reader.
abbrev HasNested : Reader → Type 0
HasNested reader = IsNested reader.stack

module _ (dialect : Dialect) where
  to_mode-HasNested :
      (reader : Reader) (mode : Mode) → HasNested reader → OnOk HasNested (to_mode reader mode)
  to_mode-HasNested reader mode h = h

  at_top-HasNested :
      (line : ℕ) (r : Result ReadError Stack) → OnOk IsNested r → OnOk HasNested (r >>= at_top line)
  at_top-HasNested line r h = OnOk->>= IsNested HasNested r (at_top line) h (λ stack n. n)

  top_step-HasNested :
      (reader : Reader) (c : ℕ) (next : Option ℕ)
      → HasNested reader
      → OnOk HasNested (top_step dialect reader c next)
  unfolding top_step
  top_step-HasNested reader c next h = OnOk-if HasNested (c == b'\n') _ _ h (
      OnOk-if HasNested (is_whitespace c) _ _ h (
        OnOk-if HasNested (c == b';' && is_next b';' next) _ _ h (
          OnOk-if HasNested (c == b'#' && is_next b'|' next) _ _ h (
            OnOk-if HasNested (c == b'#' && is_kmonad dialect && is_next b'(' next) _ _
              (OnOk->>= IsNested HasNested (open_list reader.stack reader.line) _
                (open_list-IsNested reader.stack reader.line h)
                (λ stack n.
                  OnOk->>= IsNested HasNested (push_atom stack (text "tap-macro") reader.line) _
                    (push_atom-IsNested stack (text "tap-macro") reader.line n) (λ pushed m. m)))
              (OnOk-if HasNested (c == b'(') _ _
                (at_top-HasNested reader.line _ (open_list-IsNested reader.stack reader.line h))
                (OnOk-if HasNested (c == b')') _ _
                  (at_top-HasNested reader.line _ (close_list-IsNested reader.stack reader.line h))
                  (OnOk-if HasNested (c == b'"') _ _ h h)))))))

  token_step-HasNested :
      (reader : Reader) (name : Text) (escape : Bool) (c : ℕ) (next : Option ℕ)
      → HasNested reader
      → OnOk HasNested (token_step dialect reader name escape c next)
  unfolding token_step
  token_step-HasNested reader name escape c next h =
      OnOk-if HasNested (escape && is_paren c) (to_mode reader (token (name ++ c ∷ []) false)) _ h (
        OnOk-if HasNested (ends_token dialect c) _
          (to_mode reader (token (name ++ c ∷ []) (is_kmonad dialect && c == b'\\')))
          (OnOk->>= IsNested HasNested (push_atom reader.stack name reader.line) _
            (push_atom-IsNested reader.stack name reader.line h)
            (λ stack n. top_step-HasNested (record reader { stack = stack; mode = top }) c next n))
          h)

  string_step-HasNested :
      (reader : Reader) (name : Text) (c : ℕ)
      → HasNested reader
      → OnOk HasNested (string_step dialect reader name c)
  unfolding string_step
  string_step-HasNested reader name c h =
      OnOk-if HasNested (c == b'"') _ _
        (at_top-HasNested reader.line _ (push_atom-IsNested reader.stack name reader.line h))
        (OnOk-if HasNested (is_kmonad dialect && c == b'\\') (to_mode reader (string_escape name))
          (ok (record reader { line = count_line c reader.line; mode = string (name ++ c ∷ []) })) h
          h)

  mode_step-HasNested :
      (reader : Reader) (mode : Mode) (c : ℕ) (next : Option ℕ)
      → HasNested reader
      → OnOk HasNested (mode_step dialect reader mode c next)
  unfolding mode_step
  mode_step-HasNested reader top c next h = top_step-HasNested reader c next h
  mode_step-HasNested reader line_comment c next h =
      OnOk-if HasNested (c == b'\n') (at_top (reader.line + 1) reader.stack)
        (to_mode reader line_comment) h h
  mode_step-HasNested reader block_open c next h = h
  mode_step-HasNested reader skip_one c next h = h
  mode_step-HasNested reader (block_comment previous) c next h = h
  mode_step-HasNested reader (string name) c next h = string_step-HasNested reader name c h
  mode_step-HasNested reader (string_escape name) c next h = h
  mode_step-HasNested reader (token name escape) c next h =
      token_step-HasNested reader name escape c next h

  -- One more character.
  read_next :
      (r : Result ReadError Reader) (s : Text)
      → ((reader : Reader) → HasNested reader → OnOk HasNested (read dialect reader s))
      → OnOk HasNested r
      → OnOk HasNested (r >>= λ next. read dialect next s)
  read_next r s go h = OnOk->>= HasNested HasNested r (λ next. read dialect next s) h go

  read-HasNested :
      (reader : Reader) (s : Text) → HasNested reader → OnOk HasNested (read dialect reader s)
  unfolding read
  read-HasNested reader [] h = h
  read-HasNested reader (c ∷ s) h =
      read_next (mode_step dialect reader reader.mode c (peek dialect s)) s
        (λ next n. read-HasNested next s n)
        (mode_step-HasNested reader reader.mode c (peek dialect s) h)

finish_mode-IsNested :
    (mode : Mode) (reader : Reader) → HasNested reader → OnOk IsNested (finish_mode mode reader)
unfolding finish_mode
finish_mode-IsNested (block_comment previous) reader h = tt
finish_mode-IsNested block_open reader h = tt
finish_mode-IsNested (string name) reader h = tt
finish_mode-IsNested (string_escape name) reader h = tt
finish_mode-IsNested (token name escape) reader h =
    push_atom-IsNested reader.stack name reader.line h
finish_mode-IsNested top reader h = h
finish_mode-IsNested line_comment reader h = h
finish_mode-IsNested skip_one reader h = h

abbrev IsShallow : Sexps → Type 0
IsShallow items = depths items ≤ max_nesting

finish_stack-IsShallow : (stack : Stack) → IsNested stack → OnOk IsShallow (finish_stack stack)
unfolding finish_stack
finish_stack-IsShallow [] h = absurd h
finish_stack-IsShallow (frame ∷ []) h = h
finish_stack-IsShallow (frame ∷ below ∷ stack) h = tt

parse-IsShallow : (content : Text) (dialect : Dialect) → OnOk IsShallow (parse content dialect)
unfolding parse
parse-IsShallow content dialect =
    OnOk->>= HasNested IsShallow (read dialect at_start content) _
      (read-HasNested dialect at_start content (unfold depths in omega arith))
      (λ reader h.
        OnOk->>= IsNested IsShallow (finish_mode reader.mode reader) finish_stack
          (finish_mode-IsNested reader.mode reader h) finish_stack-IsShallow)

-- What the reader returns from a text nests lists no deeper than the limit of 64.
pub parse-depths :
    (content : Text) (dialect : Dialect) (items : Sexps)
    → parse content dialect ≡ ok items
    → depths items ≤ max_nesting
parse-depths content dialect items h = subst (OnOk IsShallow) h (parse-IsShallow content dialect)

-- Whatever the text, the reader never answers that an atom is unexpected.
pub parse-unexpected_atom :
    (content : Text) (dialect : Dialect) (line : ℕ)
    → parse content dialect ≢ err (unexpected_atom line)
parse-unexpected_atom content dialect line h =
    subst (OnOk IsShallow) h (parse-IsShallow content dialect)
