-- ===== src/Key/Distance.antt =====
-- src/key.rs: `edit_distance`, which ranks the suggestions for a misspelt key, one row at a time.
use whykey.Prelude.{
  ℕ, zero, suc, ◌+◌, Text, List, [], ◌∷◌, length, leb, ◌==◌, if◌then◌else◌, ◌≡◌, refl, ap, ◌∙◌,
}

-- `a.min(b)`
abbrev least : ℕ → ℕ → ℕ
least a b = if leb a b then a else b

-- `usize::from(left_character != right_character)`
abbrev differs : ℕ → ℕ → ℕ
differs a b = if a == b then 0 else 1

-- The inner loop, from one column on: the rest of the previous row, that column included, and the
-- current row's value at it. A row has one value more than the text has characters.
unfoldable pub next_cells : ℕ → Text → List ℕ → ℕ → List ℕ
next_cells left [] previous current = []
next_cells left (right ∷ rights) [] current = []
next_cells left (right ∷ rights) (diagonal ∷ []) current = []
next_cells left (right ∷ rights) (diagonal ∷ above ∷ previous) current =
    let value = least (least (diagonal + differs left right) (above + 1)) (current + 1) in
    value ∷ next_cells left rights (above ∷ previous) value

-- The outer loop, from the row's index on.
unfoldable pub edit_rows : ℕ → Text → Text → List ℕ → List ℕ
unfolding next_cells
edit_rows row [] right previous = previous
edit_rows row (character ∷ left) right previous =
    edit_rows (suc row) left right (suc row ∷ next_cells character right previous (suc row))

-- `(first..=first + steps)`
unfoldable pub inclusive_range : ℕ → ℕ → List ℕ
inclusive_range first zero = first ∷ []
inclusive_range first (suc steps) = first ∷ inclusive_range (suc first) steps

-- Indexing; out of range the source would panic, and here it is zero.
unfoldable pub value_at : ℕ → List ℕ → ℕ
value_at index [] = 0
value_at zero (value ∷ values) = value
value_at (suc index) (value ∷ values) = value_at index values

unfoldable pub edit_distance : Text → Text → ℕ
unfolding edit_rows inclusive_range value_at
edit_distance left right =
    value_at (length right) (edit_rows 0 left right (inclusive_range 0 (length right)))

-- The distance by recursion, of two texts read from their ends: the number of characters if one is
-- empty, and otherwise the least of what is left when the last characters are put one in the
-- other's place, or the left one is deleted, or the right one is inserted.
unfoldable pub distance : Text → Text → ℕ
distance [] right = length right
distance (a ∷ left) [] = suc (length left)
distance (a ∷ left) (b ∷ right) =
    least (least (distance left right + differs a b) (distance left (b ∷ right) + 1))
      (distance (a ∷ left) right + 1)

-- The text from its end, in front of another.
unfoldable pub reversed : Text → Text → Text
reversed [] onto = onto
reversed (c ∷ s) onto = reversed s (c ∷ onto)

-- The distances to the prefixes of the right text that are longer than what was read of it.
abbrev row_rest : Text → Text → Text → List ℕ
row_rest left read [] = []
row_rest left read (r ∷ rights) = distance left (r ∷ read) ∷ row_rest left (r ∷ read) rights

next_cells-row_rest :
    (a : ℕ) (left read rights : Text)
    → next_cells a rights
        (distance left read ∷ row_rest left read rights)
        (distance (a ∷ left) read)
      ≡ row_rest (a ∷ left) read rights
unfolding next_cells distance
next_cells-row_rest a left read [] = refl
next_cells-row_rest a left read (r ∷ rights) =
    ap (λ (t : List ℕ). distance (a ∷ left) (r ∷ read) ∷ t)
      (next_cells-row_rest a left (r ∷ read) rights)

edit_rows-row_rest :
    (read left right : Text)
    → edit_rows (length read) left right (distance read [] ∷ row_rest read [] right)
      ≡ distance (reversed left read) [] ∷ row_rest (reversed left read) [] right
unfolding edit_rows reversed distance
edit_rows-row_rest read [] right = refl
edit_rows-row_rest read (c ∷ left) right =
    ap (λ (t : List ℕ). edit_rows (suc (length read)) left right (suc (length read) ∷ t))
      (next_cells-row_rest c read [] right)
    ∙ edit_rows-row_rest (c ∷ read) left right

range-row_rest :
    (read rights : Text)
    → inclusive_range (length read) (length rights) ≡ distance [] read ∷ row_rest [] read rights
unfolding inclusive_range distance
range-row_rest read [] = refl
range-row_rest read (r ∷ rights) =
    ap (λ (t : List ℕ). length read ∷ t) (range-row_rest (r ∷ read) rights)

value_at-row_rest :
    (left read rights : Text)
    → value_at (length rights) (distance left read ∷ row_rest left read rights)
      ≡ distance left (reversed rights read)
unfolding value_at reversed
value_at-row_rest left read [] = refl
value_at-row_rest left read (r ∷ rights) = value_at-row_rest left (r ∷ read) rights

-- The distance that is computed row by row is the one by recursion on the last characters, whatever
-- the two texts.
pub edit_distance-distance :
    (left right : Text) → edit_distance left right ≡ distance (reversed left []) (reversed right [])
edit_distance-distance left right =
    unfold edit_distance in
    (ap (λ (t : List ℕ). value_at (length right) (edit_rows 0 left right t))
        (range-row_rest [] right)
      ∙ ap (λ (t : List ℕ). value_at (length right) t) (edit_rows-row_rest [] left right)
      ∙ value_at-row_rest (reversed left []) [] right)
