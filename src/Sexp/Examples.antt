-- ===== src/Sexp/Examples.antt =====
-- The reader of src/remapper/sexp.rs, on a line of a configuration.
use whykey.Prelude.{Text, text, ok, err, ◌≡◌, ◌≢◌, ◌≤◌, refl, is_whitespace}
use whykey.Sexp.Reader.{
  Dialect, Sexp, Sexps, unbalanced_close, unexpected_atom, unterminated_string, max_nesting, parse,
  read, mode_step, top_step, token_step, string_step, open_list, push_atom, close_list, push_item,
  finish_mode, finish_stack,
}
use whykey.Sexp.Nesting.{depths, parse-depths, parse-unexpected_atom}

abbrev source : Text
source = text "(tap a (b)) ;; c"

abbrev items : Sexps
items =
    Sexps.cons
      (Sexp.list
        (Sexps.cons (Sexp.atom (text "tap") 1) (
          Sexps.cons (Sexp.atom (text "a") 1)
            (Sexps.cons (Sexp.list (Sexps.cons (Sexp.atom (text "b") 1) Sexps.nil) 1) Sexps.nil)))
        1)
      Sexps.nil

source_reads : parse source Dialect.kanata ≡ ok items
unfolding parse read mode_step top_step token_step string_step open_list push_atom close_list
    push_item finish_mode finish_stack is_whitespace text
source_reads = refl

parse-depths_example : depths items ≤ max_nesting
parse-depths_example = parse-depths source Dialect.kanata items source_reads

parse-unexpected_atom_example : parse (text "a)") Dialect.kanata ≢ err (unexpected_atom 1)
parse-unexpected_atom_example = parse-unexpected_atom (text "a)") Dialect.kanata 1

unbalanced : parse (text "a)") Dialect.kanata ≡ err (unbalanced_close 1)
unfolding parse read mode_step top_step token_step string_step open_list push_atom close_list
    push_item finish_mode finish_stack is_whitespace text
unbalanced = refl

unterminated : parse (text "(\"a\n") Dialect.kmonad ≡ err (unterminated_string 2)
unfolding parse read mode_step top_step token_step string_step open_list push_atom close_list
    push_item finish_mode finish_stack is_whitespace text
unterminated = refl
