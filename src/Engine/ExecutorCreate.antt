-- ===== src/Engine/ExecutorCreate.antt =====
-- src/engine/executor_create.c: CREATE makes a table of the columns and adds it to the database.
--
-- The lock of the database is taken as granted.
pub mod Laws
pub mod Columns
pub mod Created
pub mod Statement
mod Tests
use midori_db.Prelude.{
  ℕ, zero, suc, ◌+◌, ◌%◌, ◌^◌, ltb, Bool, true, false, ◌&&◌, List, [], ◌∷◌, take, Option, none,
  some, if◌then◌else◌, Outcome, ok, ◌>>=◌,
}
use midori_db.Datastructure.Hashtable.{Hashtable}
use midori_db.Primitive.Column.{Column}
use midori_db.Primitive.Name.{table_max_column_name, strn_eq}
use midori_db.Primitive.Table.{Table, table_init}
use midori_db.Primitive.TableColumns.{table_add_column}
use midori_db.Engine.Database.{
  ReturnCode, midoridb_ok, midoridb_internal, database_table_exists, database_table_add,
}
use midori_db.Engine.Tables.{Tables, put_table}
use midori_db.Parser.AstCreate.{ColumnDef, IndexDef, CreateItem, columndef, indexdef, CreateNode}

-- The change of a column that an index names.
unfoldable pub index_column : IndexDef → Column → Column
index_column def column =
    let indexed : Column = record column { indexed = def.is_index } in
    if def.is_pk
    then record indexed { primary_key = true; nullable = false; unique = true }
    else indexed

-- The loop over the columns of the table for one column of the index.
unfoldable pub index_columns : IndexDef → List ℕ → List Column → List Column
unfolding index_column strn_eq
index_columns def name [] = []
index_columns def name (column ∷ columns) =
    (if strn_eq (table_max_column_name + 1) column.name name
      then index_column def column
      else column)
    ∷ index_columns def name columns

-- The loop of `add_index` over the columns of the index.
unfoldable pub add_index : IndexDef → List (List ℕ) → List Column → List Column
unfolding index_columns
add_index def [] columns = columns
add_index def (name ∷ names) columns = add_index def names (index_columns def name columns)

-- `column.precision = def->precision`: an `int` of a `size_t`. A negative one is 0 here, which
-- `table_add_column` refuses as it refuses a negative one.
unfoldable pub int_precision : ℕ → ℕ
int_precision precision = let low = precision % 2 ^ 32 in if ltb low (2 ^ 31) then low else 0

-- The column that `add_column` hands to `table_add_column`.
unfoldable pub new_column : ColumnDef → Column
unfolding int_precision
new_column def = record {
  name = take table_max_column_name def.name;
  kind = def.kind;
  precision = int_precision def.precision;
  indexed = false;
  nullable = def.attr_null;
  unique = def.attr_uniq_key;
  auto_inc = def.attr_auto_inc;
  primary_key = def.attr_prim_key;
  is_count = false;
}

-- What the system grants to a run: the three requests of the table, and the two of its entry in the
-- database. A table without rows asks for nothing when a column is added.
pub record Grants : Type 0 where
  pub table : ℕ → Bool
  pub entry : Bool
  pub resize : Bool

-- The loop over the children of the statement: false at the first column that is refused.
unfoldable pub create_items : Table → List CreateItem → Outcome (Bool × Table)
unfolding new_column table_add_column add_index
create_items table [] = ok (true, table)
create_items table (indexdef def ∷ items) =
    create_items (record table { columns = add_index def def.index_columns table.columns }) items
create_items table (columndef def ∷ items) =
    table_add_column true (λ _. true) table (new_column def) >>= λ (added, table'). elim added [
      | true ↦ create_items table' items
      | false ↦ ok (false, table')
    ]

-- The statement behind the test for IF NOT EXISTS. `address` is that of the new table.
unfoldable pub create_table :
    Grants → ℕ → Hashtable → Tables → CreateNode → Outcome (ReturnCode × Hashtable × Tables)
unfolding table_init create_items database_table_add
create_table grants address db tables node = elim (table_init grants.table node.table_name) [
  | none ↦ ok (midoridb_internal, db, tables)
  | some start ↦ create_items start node.children >>= λ (created, table). elim created [
    | false ↦ ok (midoridb_internal, db, tables)
    | true ↦
        (database_table_add grants.entry grants.resize db table.name address >>= λ (rc, db').
        ok (rc, db', put_table tables address table))
  ]
]

unfoldable pub executor_run_create_stmt :
    Grants → ℕ → Hashtable → Tables → CreateNode → Outcome (ReturnCode × Hashtable × Tables)
unfolding database_table_exists create_table
executor_run_create_stmt grants address db tables node =
    (if node.if_not_exists then database_table_exists db node.table_name else ok false) >>= λ early.
    elim early [
      | true ↦ ok (midoridb_ok, db, tables)
      | false ↦ create_table grants address db tables node
    ]
