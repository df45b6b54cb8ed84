-- ===== src/Engine/ExecutorUpdate/Assign.antt =====
-- The assignment of a value to a column of a row: `set_field_to_value` of src/engine/executor_update.c.
use midori_db.Prelude.{
  ℕ, zero, suc, ◌+◌, List, [], ◌∷◌, ◌++◌, take, drop, replicate, Option, none, some, ltb,
  if◌then◌else◌, Outcome, ok, fault, segfault, bug_on, ◌>>=◌,
}
use midori_db.Bit.{bit_set, bit_clear}
use midori_db.Heap.{Heap, store, load, memcpy}
use midori_db.Datastructure.Words.{word_size, word_bytes}
use midori_db.Primitive.Column.{
  varchar, integer, tinyint, double, date, datetime, Column, table_calc_column_space,
}
use midori_db.Primitive.Name.{str_eq}
use midori_db.Primitive.Row.{Cell, zero_cell, Row, bitmap_size}
use midori_db.Engine.ExecutorDelete.Compare.{Platform, parse_date_type, str_at}
use midori_db.Engine.ExecutorDelete.Fields.{Exprval}

-- The loop that stops at the first column of the name: its place and the column.
unfoldable pub find_column : List Column → ℕ → List ℕ → Option (ℕ × Column)
unfolding str_eq
find_column [] idx name = none
find_column (col ∷ columns) idx name =
    let rest = find_column columns (idx + 1) name in
    if str_eq col.name name then some (idx, col) else rest

abbrev pub cell_at : List Cell → ℕ → Cell
cell_at [] idx = zero_cell
cell_at (cell ∷ cells) zero = cell
cell_at (cell ∷ cells) (suc idx) = cell_at cells idx

-- The cells with another one at a place: those that are missing before it are zero bytes.
abbrev pub place_cell : List Cell → ℕ → Cell → List Cell
place_cell [] zero new = new ∷ []
place_cell [] (suc idx) new = zero_cell ∷ place_cell [] idx new
place_cell (cell ∷ cells) zero new = new ∷ cells
place_cell (cell ∷ cells) (suc idx) new = cell ∷ place_cell cells idx new

-- A write of `n` bytes to the cell: in a column with less space it goes over the bytes behind, of
-- which the model says nothing more.
unfoldable pub write_cell : ℕ → Column → Cell → List ℕ → Outcome Cell
unfolding table_calc_column_space
write_cell n column cell bytes =
    if ltb (table_calc_column_space column) n
    then fault segfault
    else ok (record cell { bytes = take n (bytes ++ replicate n 0) ++ drop n cell.bytes })

-- `strncpy(*(char**)cell, str, precision - 1)`: it fills the rest with NULs.
unfoldable pub write_str : Heap → Column → Cell → List ℕ → Outcome Heap
unfolding load memcpy
write_str h column cell str = elim column.precision [
  | zero ↦ fault segfault
  | suc n ↦ do
    text ← load h cell.pointer
    copied ← memcpy text (take n (str ++ replicate n 0)) n
    ok (store h cell.pointer copied)
]

-- The branches on the type of the column, for a value that is not NULL.
unfoldable pub set_cell : Platform → Heap → Column → Cell → Exprval → Outcome (Heap × Cell)
unfolding write_cell write_str str_at parse_date_type word_bytes
set_cell p h column cell value = elim column.kind [
  | double ↦ (write_cell 8 column cell value.bytes >>= λ c. ok (h, c))
  | tinyint ↦ (write_cell 1 column cell value.bytes >>= λ c. ok (h, c))
  | integer ↦ (write_cell 8 column cell value.bytes >>= λ c. ok (h, c))
  | date ↦
      (write_cell 8 column cell
          (word_bytes word_size (parse_date_type p (str_at value.bytes) column.kind))
        >>= λ c. ok (h, c))
  | datetime ↦
      (write_cell 8 column cell
          (word_bytes word_size (parse_date_type p (str_at value.bytes) column.kind))
        >>= λ c. ok (h, c))
  | varchar ↦ (write_str h column cell (str_at value.bytes) >>= λ h'. ok (h', cell))
]

-- The row behind the search for the column.
unfoldable pub set_column : Platform → Heap → Row → ℕ → Column → Exprval → Outcome (Heap × Row)
unfolding bit_clear bit_set set_cell
set_column p h row col_idx column value = do
  cleared ← bit_clear row.null_bitmap col_idx bitmap_size
  if value.value_type.is_null
      then (bit_set cleared col_idx bitmap_size >>= λ set_bitmap.
          ok (h, record row { null_bitmap = set_bitmap }))
      else (set_cell p h column (cell_at row.cells col_idx) value >>= λ (h', cell).
          ok (h', record row { null_bitmap = cleared; cells = place_cell row.cells col_idx cell }))

unfoldable pub set_field_to_value :
    Platform → Heap → List Column → Row → List ℕ → Exprval → Outcome (Heap × Row)
unfolding find_column set_column
set_field_to_value p h columns row field_name value = elim (find_column columns 0 field_name) [
  | none ↦ fault bug_on
  | some (col_idx, column) ↦ set_column p h row col_idx column value
]
