-- ===== src/Engine/ExecutorCreate/Tests.antt =====
-- CREATE TABLE p (id, t, INDEX (id)) on an empty database, and an index before its column.
use midori_db.Prelude.{ℕ, ◌≡◌, refl, true, false, List, [], ◌∷◌, none, replicate, Returns, arith}
use midori_db.Primitive.Column.{integer, table_calc_column_space}
use midori_db.Primitive.Name.{str_eq, strn_eq, table_validate_name, table_validate_column_name}
use midori_db.Datastructure.Hashtable.{
  Hashtable, hashtable_init, lookup, bucket_at, hashtable_str_hash,
}
use midori_db.Datastructure.Hashtable.StringMap.{IsStringMap}
use midori_db.Datastructure.Hashtable.StringMap.Laws.{hashtable_init-IsStringMap}
use midori_db.Engine.Tables.{Tables}
use midori_db.Parser.AstCreate.{ColumnDef, IndexDef, columndef, indexdef, CreateNode}
use midori_db.Engine.ExecutorCreate.{
  Grants, index_column, index_columns, add_index, new_column, executor_run_create_stmt,
}
use midori_db.Engine.ExecutorCreate.Statement.{Created, executor_run_create_stmt-Created}

abbrev column_of : List ℕ → ColumnDef
column_of name = record {
  name = name;
  kind = integer;
  precision = 8;
  attr_null = true;
  attr_not_null = false;
  attr_uniq_key = false;
  attr_auto_inc = false;
  attr_prim_key = false;
}

abbrev on_id : IndexDef
on_id = record { is_pk = true; is_index = true; index_columns = (b'i' ∷ b'd' ∷ []) ∷ [] }

abbrev create : CreateNode
create = record {
  table_name = b'p' ∷ [];
  if_not_exists = true;
  children =
      columndef (column_of (b'i' ∷ b'd' ∷ []))
      ∷ indexdef on_id
      ∷ columndef (column_of (b't' ∷ []))
      ∷ [];
}

abbrev no_database : Hashtable
no_database = record { count = 0; capacity = 16; array = replicate 16 [] }

no_database-IsStringMap : IsStringMap no_database
unfolding hashtable_init
no_database-IsStringMap = (hashtable_init-IsStringMap no_database refl).0

abbrev no_tables : Tables
no_tables address = none

abbrev granted : Grants
granted = record { table = λ i. true; entry = true; resize = true }

-- The index marks its column only when the column is there.
on_id_behind :
    add_index on_id on_id.index_columns (new_column (column_of (b'i' ∷ b'd' ∷ [])) ∷ [])
    ≡ record (new_column (column_of (b'i' ∷ b'd' ∷ []))) {
      indexed = true;
      primary_key = true;
      nullable = false;
      unique = true;
    }
      ∷ []
unfolding add_index index_columns index_column strn_eq new_column
on_id_behind = refl

on_id_before : add_index on_id on_id.index_columns [] ≡ []
unfolding add_index index_columns
on_id_before = refl

executor_run_create_stmt-Created_example :
    Returns
      (executor_run_create_stmt granted 64 no_database no_tables create)
      (Created no_database no_tables 64 create)
unfolding str_eq table_validate_name table_validate_column_name new_column table_calc_column_space
    lookup bucket_at hashtable_str_hash
executor_run_create_stmt-Created_example =
    executor_run_create_stmt-Created no_database no_tables no_database-IsStringMap create refl refl
      refl refl (omega arith, omega arith, omega arith, (omega arith, omega arith, omega arith, tt))
      (omega arith) granted (λ i. refl) refl 64 (omega arith) (omega arith)
