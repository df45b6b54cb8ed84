-- ===== src/Primitive/Row.antt =====
-- Rows in a data block, and the texts on the heap that their varchar columns point to:
-- include/primitive/row.h, and the loops over the columns of a row in src/primitive/row.c.
--
-- The payload `data[]` of a row is the list of its cells, one for each column in order. The byte
-- offset `pos` of a column in the payload, the sum of the spaces of the columns before it, is its
-- place in that list. Cells that are missing at the end are zero bytes.
pub mod Values
pub mod Texts
pub mod Laws
pub mod Kept
use midori_db.Prelude.{
  ℕ, zero, suc, ◌+◌, ◌≡◌, Bool, true, false, List, [], ◌∷◌, ◌++◌, length, take, replicate, Option,
  none, some, ltb, ◌==◌, if◌then◌else◌, Outcome, ok, fault, segfault, ◌>>=◌,
}
use midori_db.Bit.{bit_test}
use midori_db.Heap.{Heap, store, zalloc, load, memcpy, copy_text}
use midori_db.Primitive.Column.{Column, table_check_var_column}

-- The bytes of a fixed column, or the pointer of a variable one. A cell is used in the one way that
-- its column calls for. Pointer 0 is NULL.
pub record Cell : Type 0 where
  pub bytes : List ℕ
  pub pointer : ℕ

abbrev pub zero_cell : Cell
zero_cell = record { bytes = []; pointer = 0 }

-- `struct row` with its flags.
pub record Row : Type 0 where
  pub empty : Bool
  pub deleted : Bool
  pub null_bitmap : List ℕ
  pub cells : List Cell

-- sizeof(row->null_bitmap)
abbrev pub bitmap_size : ℕ
bitmap_size = 16

-- A row slot after `table_datablock_init`.
abbrev pub empty_row : Row
empty_row = record {
  empty = true;
  deleted = false;
  null_bitmap = replicate bitmap_size 0;
  cells = [];
}

abbrev pub first_cell : List Cell → Cell
first_cell [] = zero_cell
first_cell (c ∷ _) = c

abbrev pub other_cells : List Cell → List Cell
other_cells [] = []
other_cells (_ ∷ cs) = cs

-- The varchar branch of the loop of `table_insert_row`: a new text `p`, and a copy of the text that
-- the caller's row points to unless the column is NULL.
unfoldable pub insert_var_cell : ℕ → Heap → Column → ℕ → List ℕ → Cell → Outcome (Heap × Cell)
insert_var_cell p h column column_idx null_bitmap cell = do
  null ← bit_test null_bitmap column_idx bitmap_size
  h' ← if null then ok h else copy_text h p cell.pointer column.precision
  ok (h', record { bytes = []; pointer = p })

unfoldable pub insert_cell : Heap → Column → ℕ → List ℕ → Cell → Outcome (Heap × Cell)
unfolding zalloc insert_var_cell
insert_cell h column column_idx null_bitmap cell =
    let (p, h') = zalloc column.precision h in
    if table_check_var_column column
    then insert_var_cell p h' column column_idx null_bitmap cell
    else ok (h, cell)

unfoldable pub insert_cells :
    Heap → List Column → ℕ → List ℕ → List Cell → Outcome (Heap × List Cell)
unfolding insert_cell
insert_cells h [] column_idx null_bitmap cells = ok (h, [])
insert_cells h (column ∷ columns) column_idx null_bitmap cells = do
  (h', cell) ← insert_cell h column column_idx null_bitmap (first_cell cells)
  (h'', rest) ← insert_cells h' columns (column_idx + 1) null_bitmap (other_cells cells)
  ok (h'', cell ∷ rest)

-- The body of the loop of `table_update_row`: the text of a varchar column is overwritten in place.
unfoldable pub update_cell : Heap → Column → Cell → Cell → Outcome (Heap × Cell)
update_cell h column upd_cell cell =
    if table_check_var_column column
    then (copy_text h upd_cell.pointer cell.pointer column.precision >>= λ h'. ok (h', upd_cell))
    else ok (h, cell)

unfoldable pub update_cells :
    Heap → List Column → List Cell → List Cell → Outcome (Heap × List Cell)
unfolding update_cell
update_cells h [] upd_cells cells = ok (h, [])
update_cells h (column ∷ columns) upd_cells cells = do
  (h', cell) ← update_cell h column (first_cell upd_cells) (first_cell cells)
  (h'', rest) ← update_cells h' columns (other_cells upd_cells) (other_cells cells)
  ok (h'', cell ∷ rest)

-- The pointers of the varchar columns of a row, in order.
unfoldable pub var_pointers : List Column → List Cell → List ℕ
unfolding table_check_var_column
var_pointers [] cells = []
var_pointers (column ∷ columns) cells =
    let rest = var_pointers columns (other_cells cells) in
    if table_check_var_column column then (first_cell cells).pointer ∷ rest else rest

-- `table_free_row_content`: the pointers that it passes to `free`, in order.
unfoldable pub table_free_row_content : List Column → Row → List ℕ
unfolding var_pointers
table_free_row_content columns row = if row.empty then [] else var_pointers columns row.cells
