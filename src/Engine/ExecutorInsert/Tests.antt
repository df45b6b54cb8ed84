-- ===== src/Engine/ExecutorInsert/Tests.antt =====
-- An INSERT of src/engine/executor_insert.c with two lists of values: a number and a text, and NULLs.
use midori_db.Prelude.{
  ◌≡◌, refl, true, false, List, [], ◌∷◌, replicate, some, none, All-replicate, Returns, ◌==◌,
  if◌then◌else◌, arith,
}
use midori_db.Heap.{Heap}
use midori_db.Primitive.Column.{
  Column, varchar, integer, table_check_var_column, table_calc_row_size, table_calc_column_space,
}
use midori_db.Primitive.Row.{empty_row}
use midori_db.Primitive.Row.Values.{IsHeap, Value, null, fixed, text}
use midori_db.Primitive.Table.{Table}
use midori_db.Primitive.Table.Valid.{IsFree, IsValid}
use midori_db.Engine.Database.{midoridb_ok}
use midori_db.Engine.OptimiserInsert.{ValueType}
use midori_db.Engine.ExecutorInsert.Cells.{InsVal, ParseTime}
use midori_db.Engine.ExecutorInsert.Built.{number, nothing, string}
use midori_db.Engine.ExecutorInsert.Run.{ins_values, InsNode, Grants, insert_stmt}
use midori_db.Engine.ExecutorInsert.Statement.{AllRows, InsertedRows, insert_stmt-Inserted}

abbrev id_column : Column
id_column = record {
  name = b'i' ∷ b'd' ∷ [];
  kind = integer;
  precision = 8;
  indexed = false;
  nullable = true;
  unique = false;
  auto_inc = false;
  primary_key = false;
  is_count = false;
}

abbrev text_column : Column
text_column = record id_column { name = b't' ∷ []; kind = varchar; precision = 2 }

abbrev columns : List Column
columns = id_column ∷ text_column ∷ []

abbrev people : Table
people = record {
  name = b'p' ∷ [];
  columns = columns;
  blocks = replicate 102 empty_row ∷ [];
  free_dtbkl_offset = 0;
}

-- The text "x" of the statement.
abbrev heap : Heap
heap = record { texts = λ p. if p == 1 then some (b'x' ∷ 0 ∷ 0 ∷ []) else none; next = 1 }

abbrev no_type : ValueType
no_type = record {
  is_intnum = false;
  is_str = false;
  is_approxnum = false;
  is_bool = false;
  is_null = false;
  is_negation = false;
}

abbrev seven : InsVal
seven = record { value_type = record no_type { is_intnum = true }; bytes = 7 ∷ []; address = 0 }

abbrev x_text : InsVal
x_text = record {
  value_type = record no_type { is_str = true };
  bytes = b'x' ∷ 0 ∷ 0 ∷ [];
  address = 1;
}

abbrev null_val : InsVal
null_val = record { value_type = record no_type { is_null = true }; bytes = []; address = 0 }

-- INSERT INTO p VALUES (7, 'x'), (NULL, NULL)
abbrev node : InsNode
node = record {
  table_name = people.name;
  row_count = 2;
  opt_column_list = false;
  children = ins_values (seven ∷ x_text ∷ []) ∷ ins_values (null_val ∷ null_val ∷ []) ∷ [];
}

abbrev stored : List (List Value)
stored = (fixed (7 ∷ replicate 7 0) ∷ text (some (b'x' ∷ 0 ∷ [])) ∷ []) ∷ (null ∷ null ∷ []) ∷ []

abbrev no_time : ParseTime
no_time str fmt = none

abbrev granted : Grants
granted = record { row = λ i. true; block = λ i. true }

people-IsValid : IsValid people
unfolding table_calc_row_size
people-IsValid = record {
  fits = omega arith;
  width = (refl, tt);
  spare = (tt, tt);
  aligned = refl;
  inside = omega arith;
  free = All-replicate IsFree 102 empty_row (refl, refl);
}

heap-IsHeap : IsHeap heap
heap-IsHeap p lt = ground arith

node-AllRows : AllRows no_time heap columns node.children stored
unfolding table_check_var_column table_calc_column_space
node-AllRows = (
  (
    number refl refl refl,
    (string (b'x' ∷ 0 ∷ 0 ∷ []) refl refl refl refl refl refl (omega arith), tt),
  ),
  ((nothing refl refl, (nothing refl refl, tt)), tt),
)

insert_stmt-Inserted_example : Returns (insert_stmt no_time granted heap people node 0) (λ out.
    (out.0 ≡ midoridb_ok) × (out.3 ≡ 2) × InsertedRows heap people columns stored (out.1) (out.2))
insert_stmt-Inserted_example =
    insert_stmt-Inserted no_time granted columns (omega arith) (λ i. refl) (λ i. refl) node stored
      heap people 0 refl node-AllRows refl heap-IsHeap people-IsValid
