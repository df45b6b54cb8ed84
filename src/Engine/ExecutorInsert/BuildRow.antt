-- ===== src/Engine/ExecutorInsert/BuildRow.antt =====
-- `build_row` of src/engine/executor_insert.c.
use midori_db.Prelude.{
  ℕ, ◌+◌, Bool, false, List, [], ◌∷◌, length, replicate, get_elem?, set, Option, none, some,
  if◌then◌else◌, Outcome, ok, fault, segfault, ◌>>=◌,
}
use midori_db.Bit.{bit_set, bit_clear}
use midori_db.Primitive.Column.{Column}
use midori_db.Primitive.Row.{Cell, zero_cell, Row, bitmap_size}
use midori_db.Engine.Database.{ReturnCode, midoridb_ok}
use midori_db.Engine.ExecutorInsert.Cells.{InsVal, ParseTime, value_cell}

-- `table->columns[column_order[val_pos]]`, and the cell of that column: -1 is no column.
abbrev pub element {ℓ} : {A : Type ℓ} → List A → ℕ → Outcome A
element xs i = elim (get_elem? xs i) [ none ↦ fault segfault | some x ↦ ok x ]

abbrev pub ColumnOrder : Type 0
ColumnOrder = List (Option ℕ)

unfoldable pub column_at : ColumnOrder → ℕ → Outcome ℕ
column_at column_order val_pos =
    element column_order val_pos >>= λ i. elim i [ none ↦ fault segfault | some idx ↦ ok idx ]

-- A value that was read is in the row, and the column is not NULL unless the value is.
unfoldable pub put_cell : Row → ℕ → Bool → Cell → Outcome (ReturnCode × Row)
unfolding bit_clear
put_cell row idx is_null cell = do
  null_bitmap ← (if is_null then ok row.null_bitmap else bit_clear row.null_bitmap idx bitmap_size)
  ok (midoridb_ok, record row { null_bitmap = null_bitmap; cells = set row.cells idx cell })

-- The body of the loop of `build_row` over the values.
unfoldable pub build_value :
    ParseTime → List Column → ColumnOrder → ℕ → Row → InsVal → Outcome (ReturnCode × Row)
unfolding column_at value_cell put_cell
build_value parse_time columns column_order val_pos row val = do
  idx ← column_at column_order val_pos
  column ← element columns idx
  old ← element row.cells idx
  (rc, cell) ← value_cell parse_time column old val
  elim rc [ midoridb_ok ↦ put_cell row idx val.value_type.is_null cell | other ↦ ok (other, row) ]

unfoldable pub build_values :
    ParseTime → List Column → ColumnOrder → ℕ → Row → List InsVal → Outcome (ReturnCode × Row)
unfolding build_value
build_values parse_time columns column_order val_pos row [] = ok (midoridb_ok, row)
build_values parse_time columns column_order val_pos row (val ∷ vals) =
    build_value parse_time columns column_order val_pos row val >>= λ (rc, row'). elim rc [
      | midoridb_ok ↦ build_values parse_time columns column_order (val_pos + 1) row' vals
      | other ↦ ok (other, row')
    ]

-- The loop that sets the null bit of each column from `i` on.
unfoldable pub set_nulls : List Column → ℕ → List ℕ → Outcome (List ℕ)
unfolding bit_set
set_nulls [] i null_bitmap = ok null_bitmap
set_nulls (_ ∷ columns) i null_bitmap =
    bit_set null_bitmap i bitmap_size >>= λ set_bitmap. set_nulls columns (i + 1) set_bitmap

-- `build_row` on a row of zero bytes.
unfoldable pub build_row :
    ParseTime → List Column → List InsVal → ColumnOrder → Outcome (ReturnCode × Row)
unfolding build_values set_nulls
build_row parse_time columns vals column_order = do
  null_bitmap ← set_nulls columns 0 (replicate bitmap_size 0)
  let row : Row = record {
    empty = false;
    deleted = false;
    null_bitmap = null_bitmap;
    cells = replicate (length columns) zero_cell;
  }
  build_values parse_time columns column_order 0 row vals
