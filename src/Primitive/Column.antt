-- ===== src/Primitive/Column.antt =====
-- Columns and the space that they take: include/primitive/column.h, src/primitive/column.c and the
-- size functions of src/primitive/row.c.
pub mod Laws
use midori_db.Prelude.{
  ℕ, ◌+◌, Bool, true, false, List, [], ◌∷◌, Outcome, ok, fault, bug_on, if◌then◌else◌,
}

-- enum COLUMN_TYPE
pub data ColumnType : Type 0 where
  varchar integer tinyint double date datetime : ColumnType

-- `struct column`. The precision is an `int` in the source, of which `table_add_column` refuses the
-- values below 1: it is a number here.
pub record Column : Type 0 where
  pub name : List ℕ
  pub kind : ColumnType
  pub precision : ℕ
  pub indexed : Bool
  pub nullable : Bool
  pub unique : Bool
  pub auto_inc : Bool
  pub primary_key : Bool
  pub is_count : Bool

unfoldable pub check_var_type : ColumnType → Bool
check_var_type varchar = true
check_var_type integer = false
check_var_type tinyint = false
check_var_type double = false
check_var_type date = false
check_var_type datetime = false

unfoldable pub table_check_var_column : Column → Bool
unfolding check_var_type
table_check_var_column column = check_var_type column.kind

-- A variable column stores a pointer, of 8 bytes.
unfoldable pub table_calc_column_space : Column → ℕ
unfolding table_check_var_column
table_calc_column_space column = if table_check_var_column column then 8 else column.precision

unfoldable pub table_calc_column_precision : ColumnType → Outcome ℕ
table_calc_column_precision varchar = fault bug_on
table_calc_column_precision integer = ok 8
table_calc_column_precision tinyint = ok 1
table_calc_column_precision double = ok 8
table_calc_column_precision date = ok 8
table_calc_column_precision datetime = ok 8

-- The loop of `table_calc_row_data_size`, with what it has added up.
unfoldable pub add_spaces : ℕ → List Column → ℕ
unfolding table_calc_column_space
add_spaces size [] = size
add_spaces size (c ∷ cs) = add_spaces (size + table_calc_column_space c) cs

unfoldable pub table_calc_row_data_size : List Column → ℕ
unfolding add_spaces
table_calc_row_data_size columns = add_spaces 0 columns

-- `sizeof(struct row)`: two flags and 16 bytes of bitmap, padded to the 8 that `data` is aligned to.
abbrev pub row_header_size : ℕ
row_header_size = 24

unfoldable pub table_calc_row_size : List Column → ℕ
unfolding table_calc_row_data_size
table_calc_row_size columns = row_header_size + table_calc_row_data_size columns
