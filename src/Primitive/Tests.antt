-- ===== src/Primitive/Tests.antt =====
-- A table of a number and a text with three row slots filled, and runs of the functions of
-- src/primitive on it.
use midori_db.Prelude.{
  ℕ, ◌≡◌, ◌*◌, ◌↔◌, refl, true, false, List, [], ◌∷◌, replicate, some, none, All-replicate, ok,
  Returns, ◌==◌, if◌then◌else◌, arith,
}
use midori_db.Primitive.Column.{
  Column, varchar, integer, table_check_var_column, table_calc_row_size,
}
use midori_db.Primitive.Name.{valid_name}
use midori_db.Primitive.Name.Laws.{IsName, name, small, digit, valid_name_iff}
use midori_db.Heap.{Heap}
use midori_db.Primitive.Row.{Cell, Row, empty_row, insert_cells, table_free_row_content}
use midori_db.Primitive.Row.Laws.{StoredCells, insert_cells-Returns}
use midori_db.Primitive.Row.Values.{IsHeap, Supplied}
use midori_db.Primitive.Table.{Block, Table, block_at, row_at, table_insert_row, table_delete_row}
use midori_db.Primitive.Table.Delete.{Deleted, table_delete_row-Deleted}
use midori_db.Primitive.Table.Insert.{Inserted}
use midori_db.Primitive.Table.Laws.{table_insert_row-Inserted}
use midori_db.Primitive.Table.Valid.{IsFree, IsValid}
use midori_db.Primitive.Vacuum.{
  table_vacuum, fill_blocks, scan_blocks, scan_rows, scan_row, move_row, free_rows,
}
use midori_db.Primitive.History.{
  Steps, after_step, no_step, vacuum, delete, AllDo, IsState, rows_of, Steps-IsState,
}
use midori_db.Primitive.TableColumns.{has_column, table_add_column}
use midori_db.Primitive.TableColumns.Laws.{IsDistinct, table_add_column-IsDistinct}
use midori_db.Primitive.Vacuum.Laws.{Vacuumed, table_vacuum-Vacuumed}

abbrev id_column : Column
id_column = record {
  name = b'i' ∷ b'd' ∷ [];
  kind = integer;
  precision = 8;
  indexed = false;
  nullable = true;
  unique = false;
  auto_inc = false;
  primary_key = false;
  is_count = false;
}

abbrev text_column : Column
text_column = record id_column { name = b't' ∷ []; kind = varchar; precision = 3 }

abbrev bitmap : List ℕ
bitmap = replicate 16 0

abbrev id_cell : ℕ → Cell
id_cell n = record { bytes = n ∷ replicate 7 0; pointer = 0 }

abbrev text_cell : ℕ → Cell
text_cell p = record { bytes = []; pointer = p }

abbrev row_of : ℕ → ℕ → Row
row_of n p = record {
  empty = false;
  deleted = false;
  null_bitmap = bitmap;
  cells = id_cell n ∷ text_cell p ∷ [];
}

abbrev first_block : Block
first_block =
    row_of 1 1 ∷ record (row_of 2 2) { deleted = true } ∷ row_of 3 3 ∷ replicate 99 empty_row

abbrev people : Table
people = record {
  name = b'p' ∷ [];
  columns = id_column ∷ text_column ∷ [];
  blocks = first_block ∷ [];
  free_dtbkl_offset = 120;
}

abbrev heap : Heap
heap = record { texts = λ p. if p == 3 then some (b'x' ∷ b'y' ∷ b'z' ∷ []) else none; next = 3 }

heap-IsHeap : IsHeap heap
heap-IsHeap p lt = ground arith

people_size : table_calc_row_size people.columns ≡ 40
unfolding table_calc_row_size
people_size = refl

people-IsValid : IsValid people
unfolding table_calc_row_size
people-IsValid = record {
  fits = omega arith;
  width = (refl, tt);
  spare = (tt, tt);
  aligned = refl;
  inside = omega arith;
  free = All-replicate IsFree 99 empty_row (refl, refl);
}

people-Supplied : Supplied heap people.columns 0 bitmap (id_cell 9 ∷ text_cell 3 ∷ [])
unfolding table_check_var_column
people-Supplied = (λ v n. absurd (cc v), (λ v n. (b'x' ∷ b'y' ∷ b'z' ∷ [], refl, omega arith), tt))

table_vacuum-Vacuumed_example : Returns (table_vacuum people) (Vacuumed people)
table_vacuum-Vacuumed_example = table_vacuum-Vacuumed people people-IsValid (omega arith)

table_insert_row-Inserted_example :
    Returns
      (table_insert_row true heap people (row_of 9 3) (table_calc_row_size people.columns))
      (Inserted heap people (row_of 9 3))
table_insert_row-Inserted_example =
    table_insert_row-Inserted true heap people (row_of 9 3) heap-IsHeap people-IsValid refl
      (omega arith) people-Supplied (λ _. refl)

table_delete_row-Deleted_example :
    Returns (table_delete_row people 0 80) (Deleted people 2 (row_of 3 3))
unfolding table_calc_row_size
table_delete_row-Deleted_example =
    table_delete_row-Deleted people people-IsValid 0 2 first_block refl (row_of 3 3) refl refl

insert_cells-Returns_example :
    Returns
      (insert_cells heap people.columns 0 bitmap (id_cell 9 ∷ text_cell 3 ∷ []))
      (StoredCells heap people.columns 0 bitmap (id_cell 9 ∷ text_cell 3 ∷ []))
insert_cells-Returns_example =
    insert_cells-Returns heap people.columns 0 bitmap (id_cell 9 ∷ text_cell 3 ∷ []) heap-IsHeap
      refl (omega arith) people-Supplied

is_name : IsName 127 (b'a' ∷ b'1' ∷ [])
is_name =
    name b'a' (b'1' ∷ []) (small (omega arith) (omega arith))
      (digit (omega arith) (omega arith), tt) (omega arith)

valid_name_iff_example : (valid_name (b'a' ∷ b'1' ∷ []) 127 ≡ true) ↔ IsName 127 (b'a' ∷ b'1' ∷ [])
valid_name_iff_example = valid_name_iff 127 (b'a' ∷ b'1' ∷ [])

-- The row deleted in the middle is gone, and its text freed.
vacuum_run :
    table_vacuum people
    ≡ ok (
      true,
      record people {
        blocks = (row_of 1 1 ∷ row_of 3 3 ∷ replicate 100 empty_row) ∷ [];
        free_dtbkl_offset = 80;
      },
      2 ∷ [],
    )
unfolding table_vacuum fill_blocks scan_blocks scan_rows scan_row move_row block_at row_at free_rows
    table_free_row_content
vacuum_run = refl

people-IsState : IsState heap people
people-IsState = record { heap = heap-IsHeap; table = people-IsValid; few = omega arith }

abbrev vacuumed : Table
vacuumed = record people {
  blocks = (row_of 1 1 ∷ row_of 3 3 ∷ replicate 100 empty_row) ∷ [];
  free_dtbkl_offset = 80;
}

abbrev first_gone : Table
first_gone = record vacuumed {
  blocks = (record (row_of 1 1) { deleted = true } ∷ row_of 3 3 ∷ replicate 100 empty_row) ∷ [];
}

delete_run :
    table_delete_row vacuumed 0 (0 * table_calc_row_size vacuumed.columns) ≡ ok (true, first_gone)
unfolding table_delete_row block_at row_at table_calc_row_size
delete_run = refl

two-Steps : Steps heap people heap first_gone
two-Steps = after_step (vacuum (2 ∷ []) (omega arith) vacuum_run) (
    after_step
      (delete 0 0 (row_of 1 1 ∷ row_of 3 3 ∷ replicate 100 empty_row) (row_of 1 1) refl refl refl
        delete_run)
      no_step)

Steps-IsState_example :
    IsState heap first_gone × AllDo two-Steps (rows_of people) (rows_of first_gone)
Steps-IsState_example = Steps-IsState two-Steps people-IsState

-- A column whose name the table has is refused.
again_run : table_add_column true (λ k. true) people text_column ≡ ok (false, people)
unfolding table_add_column
again_run = refl

people-IsDistinct : IsDistinct people.columns
unfolding has_column
people-IsDistinct = (refl, (refl, tt))

table_add_column-IsDistinct_example : IsDistinct people.columns
table_add_column-IsDistinct_example =
    table_add_column-IsDistinct true (λ k. true) people text_column (false, people)
      people-IsDistinct again_run
