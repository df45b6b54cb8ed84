-- ===== src/Engine/ExecutorInsert/Cells.antt =====
-- The cells that src/engine/executor_insert.c makes of the values of an INSERT.
use midori_db.Prelude.{
  ℕ, ◌-◌, ◌^◌, Bool, true, false, ◌||◌, List, [], ◌++◌, take, replicate, Option, none, some, ltb,
  ◌==◌, if◌then◌else◌, Outcome, ok, fault, segfault, bug_on,
}
use midori_db.Datastructure.Words.{word_size, word_bytes, of_bytes}
use midori_db.Primitive.Column.{
  ColumnType, date, datetime, Column, table_check_var_column, table_calc_column_space,
}
use midori_db.Primitive.Row.{Cell}
use midori_db.Engine.Database.{ReturnCode, midoridb_ok, midoridb_error}
use midori_db.Engine.ExecutorDelete.Compare.{date_fmt, datetime_fmt, str_at}
use midori_db.Engine.OptimiserInsert.{ValueType}

-- `struct ast_ins_exprval_node`: the bytes of its union, and their address. A text of the heap
-- stands at it.
pub record InsVal : Type 0 where
  pub value_type : ValueType
  pub bytes : List ℕ
  pub address : ℕ

-- By a string and a format: nothing where `strptime` fails.
abbrev pub ParseTime : Type 0
ParseTime = List ℕ → List ℕ → Option ℕ

-- `parse_date_type`: the return code, and the time if it is MIDORIDB_OK.
unfoldable pub parse_date_type : ParseTime → List ℕ → ColumnType → ReturnCode × ℕ
parse_date_type parse_time str kind = convert (parse_time str (fmt kind))
  where
    fmt : ColumnType → List ℕ
    fmt date = date_fmt
    fmt _ = datetime_fmt

    convert : Option ℕ → ReturnCode × ℕ
    convert none = (midoridb_error, 0)
    convert (some time) = if time == 2 ^ 64 - 1 then (midoridb_error, 0) else (midoridb_ok, time)

-- `memcpy(row_out->data + row_pos, bytes, col_space)`: a varchar column has a pointer there.
unfoldable pub copied_cell : Column → List ℕ → Cell
unfolding table_calc_column_space of_bytes
copied_cell column bytes =
    let copied =
      take (table_calc_column_space column)
        (bytes ++ replicate (table_calc_column_space column) 0) in
    if table_check_var_column column
    then record { bytes = []; pointer = of_bytes copied }
    else record { bytes = copied; pointer = 0 }

abbrev pub is_date : ColumnType → Bool
is_date date = true
is_date datetime = true
is_date _ = false

-- The string branch. The pointer is 8 bytes: in a column with less space it goes over the bytes
-- behind, of which the model says nothing more.
unfoldable pub str_cell : ParseTime → Column → InsVal → Outcome (ReturnCode × Cell)
unfolding parse_date_type copied_cell str_at word_bytes
str_cell parse_time column val =
    if is_date column.kind
    then (let (rc, time) = parse_date_type parse_time (str_at val.bytes) column.kind in
        ok (rc, copied_cell column (word_bytes word_size time)))
    else if table_check_var_column column
    then ok (midoridb_ok, record { bytes = []; pointer = val.address })
    else if ltb (table_calc_column_space column) word_size
    then fault segfault
    else ok (midoridb_ok, copied_cell column (word_bytes word_size val.address))

-- The branches on the type of a value, where `cell` is the cell that the column has so far.
unfoldable pub value_cell : ParseTime → Column → Cell → InsVal → Outcome (ReturnCode × Cell)
unfolding copied_cell str_cell
value_cell parse_time column cell val =
    if val.value_type.is_intnum || (val.value_type.is_approxnum || val.value_type.is_bool)
    then ok (midoridb_ok, copied_cell column val.bytes)
    else if val.value_type.is_null
    then ok (midoridb_ok, cell)
    else if val.value_type.is_str
    then str_cell parse_time column val
    else fault bug_on
