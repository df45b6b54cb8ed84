-- ===== src/Engine/ExecutorDelete/Fields.antt =====
-- The columns that the conditions of a DELETE name, and their comparisons:
-- `cmp_field_to_field`, `cmp_field_to_value` and `cmp_value_to_value` of
-- src/engine/executor_delete.c.
use midori_db.Prelude.{
  ℕ, ◌+◌, Bool, false, ◌||◌, List, [], ◌∷◌, Option, none, some, if◌then◌else◌, Outcome, ok, fault,
  bug_on, ◌>>=◌,
}
use midori_db.Bit.{bit_test}
use midori_db.Heap.{Heap, load}
use midori_db.Primitive.Column.{
  ColumnType, varchar, integer, tinyint, double, date, datetime, Column,
}
use midori_db.Primitive.Name.{str_eq}
use midori_db.Primitive.Row.{Cell, Row, bitmap_size, first_cell, other_cells}
use midori_db.Engine.ExecutorDelete.Compare.{
  ComparisonType, parse_date_type, Platform, cmp_double_value_to_value, cmp_int_value_to_value,
  cmp_time_value_to_value, cmp_bool_value_to_value, cmp_str_value_to_value, int64_at, bool_at,
  str_at, str_in,
}

-- The flags of `value_type`.
pub record ValueType : Type 0 where
  pub is_name : Bool
  pub is_intnum : Bool
  pub is_str : Bool
  pub is_approxnum : Bool
  pub is_bool : Bool
  pub is_null : Bool

-- `struct ast_del_exprval_node`, with the bytes of its union.
pub record Exprval : Type 0 where
  pub value_type : ValueType
  pub bytes : List ℕ

-- A column that a loop over the columns has found: its place, its type, and its cell in the row.
pub record Field : Type 0 where
  pub col_idx : ℕ
  pub kind : ColumnType
  pub cell : Cell

-- The loop that stops at the first column of the name.
unfoldable pub find_field : List Column → ℕ → List Cell → List ℕ → Option Field
unfolding str_eq
find_field [] idx cells name = none
find_field (col ∷ columns) idx cells name =
    let rest = find_field columns (idx + 1) (other_cells cells) name in
    if str_eq col.name name
    then some (record { col_idx = idx; kind = col.kind; cell = first_cell cells })
    else rest

-- The loop of `cmp_field_to_field`: it goes on to the last column, and looks for the second name
-- only in columns that have not the first one.
unfoldable pub find_fields :
    List Column
    → ℕ
    → List Cell
    → List ℕ
    → List ℕ
    → Option Field × Option Field
    → Option Field × Option Field
unfolding str_eq
find_fields [] idx cells name_1 name_2 found = found
find_fields (col ∷ columns) idx cells name_1 name_2 found =
    let here : Field = record { col_idx = idx; kind = col.kind; cell = first_cell cells } in
    find_fields columns (idx + 1) (other_cells cells) name_1 name_2 (
      if str_eq col.name name_1
      then (some here, found.1)
      else if str_eq col.name name_2
      then (found.0, some here)
      else found)

-- A column that was not found has the place -1, which is no bit of the bitmap.
unfoldable pub null_bit : Row → Option Field → Outcome Bool
unfolding bit_test
null_bit row none = fault bug_on
null_bit row (some field) = bit_test row.null_bitmap field.col_idx bitmap_size

-- The string that a varchar cell points to.
unfoldable pub cell_str : Heap → Cell → Outcome (List ℕ)
unfolding load str_in
cell_str h cell = load h cell.pointer >>= λ text. str_in text

-- The comparison of the values of two columns, by the type of the first.
unfoldable pub cmp_cells :
    Platform → Heap → ComparisonType → ColumnType → Cell → Cell → Outcome Bool
unfolding cell_str int64_at bool_at
cmp_cells p h cmp_type double cell_1 cell_2 =
    ok (cmp_double_value_to_value p cmp_type (int64_at cell_1.bytes) (int64_at cell_2.bytes))
cmp_cells p h cmp_type tinyint cell_1 cell_2 =
    ok (cmp_bool_value_to_value cmp_type (bool_at cell_1.bytes) (bool_at cell_2.bytes))
cmp_cells p h cmp_type integer cell_1 cell_2 =
    ok (cmp_int_value_to_value cmp_type (int64_at cell_1.bytes) (int64_at cell_2.bytes))
cmp_cells p h cmp_type date cell_1 cell_2 =
    ok (cmp_time_value_to_value cmp_type (int64_at cell_1.bytes) (int64_at cell_2.bytes))
cmp_cells p h cmp_type datetime cell_1 cell_2 =
    ok (cmp_time_value_to_value cmp_type (int64_at cell_1.bytes) (int64_at cell_2.bytes))
cmp_cells p h cmp_type varchar cell_1 cell_2 = do
  str_1 ← cell_str h cell_1
  str_2 ← cell_str h cell_2
  ok (cmp_str_value_to_value cmp_type str_1 str_2)

abbrev pub cmp_found : Platform → Heap → ComparisonType → Option Field → Option Field → Outcome Bool
cmp_found p h cmp_type (some field_1) (some field_2) =
    cmp_cells p h cmp_type field_1.kind field_1.cell field_2.cell
cmp_found p h cmp_type _ _ = fault bug_on

unfoldable pub cmp_field_to_field :
    Platform → Heap → List Column → Row → ComparisonType → Exprval → Exprval → Outcome Bool
unfolding null_bit find_fields cmp_cells str_at
cmp_field_to_field p h columns row cmp_type val_1 val_2 = do
  let (found_1, found_2) =
      find_fields columns 0 row.cells (str_at val_1.bytes) (str_at val_2.bytes) (none, none)
  is_null_1 ← null_bit row found_1
  is_null_2 ← null_bit row found_2
  if is_null_1 || is_null_2 then ok false else cmp_found p h cmp_type found_1 found_2

-- The comparison of the value of a column with a value of the statement, by the column's type.
unfoldable pub cmp_cell_to_value :
    Platform → Heap → ComparisonType → ColumnType → Cell → Exprval → Outcome Bool
unfolding cell_str int64_at bool_at str_at parse_date_type
cmp_cell_to_value p h cmp_type double cell value =
    ok (cmp_double_value_to_value p cmp_type (int64_at cell.bytes) (int64_at value.bytes))
cmp_cell_to_value p h cmp_type tinyint cell value =
    ok (cmp_bool_value_to_value cmp_type (bool_at cell.bytes) (bool_at value.bytes))
cmp_cell_to_value p h cmp_type integer cell value =
    ok (cmp_int_value_to_value cmp_type (int64_at cell.bytes) (int64_at value.bytes))
cmp_cell_to_value p h cmp_type date cell value = ok (
    cmp_time_value_to_value cmp_type (int64_at cell.bytes)
      (parse_date_type p (str_at value.bytes) date))
cmp_cell_to_value p h cmp_type datetime cell value = ok (
    cmp_time_value_to_value cmp_type (int64_at cell.bytes)
      (parse_date_type p (str_at value.bytes) datetime))
cmp_cell_to_value p h cmp_type varchar cell value = do
  str_1 ← cell_str h cell
  ok (cmp_str_value_to_value cmp_type str_1 (str_at value.bytes))

abbrev pub cmp_found_to_value :
    Platform → Heap → ComparisonType → Option Field → Exprval → Outcome Bool
cmp_found_to_value p h cmp_type none value = fault bug_on
cmp_found_to_value p h cmp_type (some field) value =
    cmp_cell_to_value p h cmp_type field.kind field.cell value

unfoldable pub cmp_field_to_value :
    Platform → Heap → List Column → Row → ComparisonType → Exprval → Exprval → Outcome Bool
unfolding null_bit find_field cmp_cell_to_value str_at
cmp_field_to_value p h columns row cmp_type field value = do
  let found = find_field columns 0 row.cells (str_at field.bytes)
  is_null ← null_bit row found
  if is_null || value.value_type.is_null
      then ok false
      else cmp_found_to_value p h cmp_type found value

unfoldable pub cmp_value_to_value : Platform → ComparisonType → Exprval → Exprval → Outcome Bool
unfolding int64_at bool_at str_at
cmp_value_to_value p cmp_type val_1 val_2 =
    if val_1.value_type.is_approxnum
    then ok (cmp_double_value_to_value p cmp_type (int64_at val_1.bytes) (int64_at val_2.bytes))
    else if val_1.value_type.is_bool
    then ok (cmp_bool_value_to_value cmp_type (bool_at val_1.bytes) (bool_at val_2.bytes))
    else if val_1.value_type.is_intnum
    then ok (cmp_int_value_to_value cmp_type (int64_at val_1.bytes) (int64_at val_2.bytes))
    else if val_1.value_type.is_null
    then ok false
    else if val_1.value_type.is_str
    then ok (cmp_str_value_to_value cmp_type (str_at val_1.bytes) (str_at val_2.bytes))
    else fault bug_on
