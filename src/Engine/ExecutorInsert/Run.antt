-- ===== src/Engine/ExecutorInsert/Run.antt =====
-- The run of an INSERT: `build_column_order` and `executor_run_insertvals_stmt` of
-- src/engine/executor_insert.c.
use midori_db.Prelude.{
  ℕ, ◌+◌, Bool, true, false, List, [], ◌∷◌, length, replicate, set, Option, none, some, ltb,
  if◌then◌else◌, Outcome, ok, fault, segfault, bug_on, bug_if, ◌>>=◌, ◌>>◌,
}
use midori_db.Heap.{Heap}
use midori_db.Datastructure.Hashtable.{Hashtable}
use midori_db.Primitive.Column.{Column, table_calc_row_size}
use midori_db.Primitive.Name.{table_max_column_name, strn_eq}
use midori_db.Primitive.Table.{Table, table_insert_row}
use midori_db.Primitive.TableColumns.{table_max_columns}
use midori_db.Engine.Database.{ReturnCode, midoridb_ok, midoridb_internal}
use midori_db.Engine.Tables.{Tables, put_table, find_table}
use midori_db.Engine.ExecutorInsert.Cells.{InsVal, ParseTime}
use midori_db.Engine.ExecutorInsert.BuildRow.{ColumnOrder, build_row}

-- The children of the statement: a list of columns, or a list of values.
pub data InsItem : Type 0 where
  inscols : List (List ℕ) → InsItem
  ins_values : List InsVal → InsItem

-- `struct ast_ins_insvals_node`
pub record InsNode : Type 0 where
  pub table_name : List ℕ
  pub row_count : ℕ
  pub opt_column_list : Bool
  pub children : List InsItem

-- The first column of a name.
unfoldable pub first_column : List Column → ℕ → List ℕ → Option ℕ
unfolding strn_eq
first_column [] i name = none
first_column (column ∷ columns) i name =
    let rest = first_column columns (i + 1) name in
    if strn_eq (table_max_column_name + 1) column.name name then some i else rest

-- The loop of `build_column_order` over the listed columns: `idx` is `opt_col_list_idx`. A name that
-- no column has leaves its place as it is.
unfoldable pub order_columns : List Column → ColumnOrder → ℕ → List (List ℕ) → Outcome ColumnOrder
unfolding first_column
order_columns columns column_order idx [] = ok column_order
order_columns columns column_order idx (name ∷ names) = do
  bug_if (ltb (length column_order) (length columns))
  column_order' ← elim (first_column columns 0 name) [
    | none ↦ ok column_order
    | some i ↦
        if ltb idx (length column_order) then ok (set column_order idx (some i)) else fault segfault
  ]
  order_columns columns column_order' (idx + 1) names

-- The first child that is a list of columns.
unfoldable pub find_inscols : List InsItem → Option (List (List ℕ))
find_inscols [] = none
find_inscols (inscols names ∷ children) = some names
find_inscols (ins_values vals ∷ children) = find_inscols children

-- The places from `i` on, each its own column.
unfoldable pub natural_order : ℕ → List Column → ColumnOrder → ColumnOrder
natural_order i [] column_order = column_order
natural_order i (_ ∷ columns) column_order =
    natural_order (i + 1) columns (set column_order i (some i))

unfoldable pub build_column_order : List Column → InsNode → ColumnOrder → Outcome ColumnOrder
unfolding natural_order find_inscols order_columns
build_column_order columns node column_order =
    if node.opt_column_list
    then elim (find_inscols node.children) [
      | none ↦ fault bug_on
      | some names ↦ order_columns columns column_order 0 names
    ]
    else ok (natural_order 0 columns column_order)

-- What the system grants for one list of values: the row, and a block if one is needed.
pub record Grants : Type 0 where
  pub row : ℕ → Bool
  pub block : ℕ → Bool

-- The body of the loop of `executor_run_insertvals_stmt` for a list of values.
unfoldable pub insert_values :
    ParseTime
    → Bool
    → Heap
    → Table
    → ColumnOrder
    → List InsVal
    → Outcome (ReturnCode × Heap × Table)
unfolding build_row table_insert_row table_calc_row_size
insert_values parse_time block_granted h table column_order vals = do
  (rc, row) ← build_row parse_time table.columns vals column_order
  elim rc [
    | midoridb_ok ↦
        (table_insert_row block_granted h table row (table_calc_row_size table.columns)
          >>= λ (inserted, h', table').
              ok (if inserted then midoridb_ok else midoridb_internal, h', table'))
    | other ↦ ok (other, h, table)
  ]

-- How the loop over the children ended: at its end, or at a goto with the return code so far.
pub data LoopEnd : Type 0 where
  loop_done : LoopEnd
  loop_left : ReturnCode → LoopEnd

-- The loop: `i` counts the lists of values. Without memory for the row it ends with the return code
-- as it is, MIDORIDB_OK.
unfoldable pub insert_children :
    ParseTime
    → Grants
    → Heap
    → Table
    → ColumnOrder
    → ℕ
    → List InsItem
    → Outcome (LoopEnd × Heap × Table)
unfolding insert_values
insert_children parse_time grants h table column_order i [] = ok (loop_done, h, table)
insert_children parse_time grants h table column_order i (inscols names ∷ children) =
    insert_children parse_time grants h table column_order i children
insert_children parse_time grants h table column_order i (ins_values vals ∷ children) =
    elim (grants.row i) [
      | false ↦ ok (loop_left midoridb_ok, h, table)
      | true ↦
          insert_values parse_time (grants.block i) h table column_order vals
          >>= λ (rc, h', table'). elim rc [
            | midoridb_ok ↦
                insert_children parse_time grants h' table' column_order (i + 1) children
            | other ↦ ok (loop_left other, h', table')
          ]
    ]

-- The statement on its table: `n_rows_aff` is written only at the end of the loop.
unfoldable pub insert_stmt :
    ParseTime → Grants → Heap → Table → InsNode → ℕ → Outcome (ReturnCode × Heap × Table × ℕ)
unfolding build_column_order insert_children
insert_stmt parse_time grants h table node n_rows_aff =
    build_column_order table.columns node (replicate table_max_columns none) >>= λ column_order.
    insert_children parse_time grants h table column_order 0 node.children
    >>= λ (loop_end, h', table'). ok (elim loop_end [
      | loop_done ↦ (midoridb_ok, h', table', node.row_count)
      | loop_left rc ↦ (rc, h', table', n_rows_aff)
    ])

unfoldable pub executor_run_insertvals_stmt :
    ParseTime
    → Grants
    → Heap
    → Hashtable
    → Tables
    → InsNode
    → ℕ
    → Outcome (ReturnCode × Heap × Tables × ℕ)
unfolding find_table insert_stmt
executor_run_insertvals_stmt parse_time grants h db tables node n_rows_aff =
    find_table db tables node.table_name >>= λ found. elim found [
      | none ↦ ok (midoridb_internal, h, tables, n_rows_aff)
      | some (address, table) ↦
          (insert_stmt parse_time grants h table node n_rows_aff >>= λ (rc, h', table', n).
          ok (rc, h', put_table tables address table', n))
    ]
