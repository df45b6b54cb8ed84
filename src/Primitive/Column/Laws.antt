-- ===== src/Primitive/Column/Laws.antt =====
-- Row sizes as sums.
use midori_db.Prelude.{ℕ, ◌+◌, ◌≤◌, ◌≡◌, refl, List, [], ◌∷◌, ◌++◌, arith}
use native.Mathlib.Nat.{add_assoc}
use midori_db.Primitive.Column.{
  Column, table_calc_column_space, add_spaces, table_calc_row_size, row_header_size,
}

-- The accumulator comes out in front.
add_spaces-add : (a b : ℕ) (cs : List Column) → add_spaces (a + b) cs ≡ a + add_spaces b cs
unfolding add_spaces
add_spaces-add a b [] = refl
add_spaces-add a b (c ∷ cs) = rw add_assoc (add_spaces-add a (b + table_calc_column_space c) cs)

pub add_spaces-append :
    (a : ℕ) (cs : List Column) (c : Column)
    → add_spaces a (cs ++ c ∷ []) ≡ add_spaces a cs + table_calc_column_space c
unfolding add_spaces
add_spaces-append a [] c = refl
add_spaces-append a (d ∷ cs) c = add_spaces-append (a + table_calc_column_space d) cs c

-- A column added at the end makes the row longer by its space.
pub row_size-append :
    (cs : List Column) (c : Column)
    → table_calc_row_size (cs ++ c ∷ []) ≡ table_calc_row_size cs + table_calc_column_space c
unfolding table_calc_row_size
row_size-append cs c = omega (arith, add_spaces-append 0 cs c)

pub row_size_pos : (cs : List Column) → row_header_size ≤ table_calc_row_size cs
unfolding table_calc_row_size
row_size_pos cs = omega arith
