-- ===== src/Engine/ExecutorUpdate/Tests.antt =====
-- UPDATE p SET id = 7 WHERE t = 'y' of src/engine/executor_update.c on a row.
use midori_db.Prelude.{
  ℕ, ◌≡◌, refl, true, false, List, [], ◌∷◌, replicate, some, none, ok, Returns, ◌==◌, if◌then◌else◌,
  arith,
}
use midori_db.Heap.{Heap}
use midori_db.Primitive.Column.{Column, varchar, integer}
use midori_db.Primitive.Column.{table_calc_column_space}
use midori_db.Primitive.Row.{Row, empty_row}
use midori_db.Primitive.Table.{Table}
use midori_db.Engine.Database.{midoridb_ok}
use midori_db.Engine.ExecutorDelete.Compare.{Platform, equals_op, str_at, cmp_str_value_to_value}
use midori_db.Engine.ExecutorDelete.Fields.{ValueType, Exprval}
use midori_db.Engine.ExecutorInsert.Start.{no_bits}
use midori_db.Engine.ExecutorUpdate.Assign.{find_column, set_field_to_value}
use midori_db.Engine.ExecutorUpdate.Scan.{
  UpdNode, no_upd_nodes, upd_node_then, upd_cmp, upd_update, upd_assign, should_update_row,
  update_row, scan_update,
}
use midori_db.Engine.ExecutorUpdate.Laws.{Reads, set_field_to_value-Reads}

abbrev id_column : Column
id_column = record {
  name = b'i' ∷ b'd' ∷ [];
  kind = integer;
  precision = 8;
  indexed = false;
  nullable = true;
  unique = false;
  auto_inc = false;
  primary_key = false;
  is_count = false;
}

abbrev columns : List Column
columns = id_column ∷ record id_column { name = b't' ∷ []; kind = varchar; precision = 2 } ∷ []

abbrev row_of : ℕ → ℕ → Row
row_of n p = record {
  empty = false;
  deleted = false;
  null_bitmap = replicate 16 0;
  cells =
      record { bytes = n ∷ replicate 7 0; pointer = 0 } ∷ record { bytes = []; pointer = p } ∷ [];
}

abbrev people : Table
people = record {
  name = b'p' ∷ [];
  columns = columns;
  blocks = (row_of 1 1 ∷ row_of 3 2 ∷ replicate 100 empty_row) ∷ [];
  free_dtbkl_offset = 80;
}

-- The texts "x" and "y".
abbrev heap : Heap
heap = record {
  texts =
      λ p. if p == 1 then some (b'x' ∷ 0 ∷ []) else if p == 2 then some (b'y' ∷ 0 ∷ []) else none;
  next = 2;
}

abbrev platform : Platform
platform = record {
  double_eq = λ a b. a == b;
  double_lt = λ a b. false;
  double_le = λ a b. a == b;
  parse_time = λ str fmt. 0;
}

abbrev no_type : ValueType
no_type = record {
  is_name = false;
  is_intnum = false;
  is_str = false;
  is_approxnum = false;
  is_bool = false;
  is_null = false;
}

abbrev name_of : List ℕ → Exprval
name_of name = record { value_type = record no_type { is_name = true }; bytes = name }

abbrev seven : Exprval
seven = record { value_type = record no_type { is_intnum = true }; bytes = 7 ∷ replicate 7 0 }

abbrev statement : UpdNode
statement = upd_update (
    upd_node_then (upd_assign id_column.name (seven ∷ [])) (
      upd_node_then
        (upd_cmp equals_op (
          name_of (b't' ∷ [])
          ∷ record { value_type = record no_type { is_str = true }; bytes = b'y' ∷ [] }
          ∷ []))
        no_upd_nodes))

second_matches : should_update_row platform heap columns (row_of 3 2) statement ≡ ok true
unfolding should_update_row cmp_str_value_to_value
second_matches = refl

second_updated : update_row platform columns statement heap (row_of 3 2) ≡ ok (heap, row_of 7 2)
unfolding update_row
second_updated = refl

people_updated :
    scan_update platform statement heap people 0
    ≡ ok (
      midoridb_ok,
      (
        heap,
        record people { blocks = (row_of 1 1 ∷ row_of 7 2 ∷ replicate 100 empty_row) ∷ [] },
        1,
      ),
    )
unfolding scan_update cmp_str_value_to_value
people_updated = refl

set_field_to_value-Reads_example :
    Returns
      (set_field_to_value platform heap columns (row_of 3 2) id_column.name seven)
      (Reads platform columns (row_of 3 2) 0 (name_of id_column.name) seven)
unfolding str_at find_column table_calc_column_space
set_field_to_value-Reads_example =
    set_field_to_value-Reads platform heap columns (row_of 3 2) (name_of id_column.name) seven
      (λ _. false) no_bits (omega arith) 0 id_column refl refl (omega arith) (omega arith)
