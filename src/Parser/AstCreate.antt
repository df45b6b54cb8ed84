-- ===== src/Parser/AstCreate.antt =====
-- The nodes of a CREATE in include/parser/ast.h. A name is the bytes before its NUL.
use midori_db.Prelude.{ℕ, Bool, List}
use midori_db.Primitive.Column.{ColumnType}

-- `struct ast_crt_column_def_node`
pub record ColumnDef : Type 0 where
  pub name : List ℕ
  pub kind : ColumnType
  pub precision : ℕ
  pub attr_null : Bool
  pub attr_not_null : Bool
  pub attr_uniq_key : Bool
  pub attr_auto_inc : Bool
  pub attr_prim_key : Bool

-- `struct ast_crt_index_def_node` with the names of its columns.
pub record IndexDef : Type 0 where
  pub is_pk : Bool
  pub is_index : Bool
  pub index_columns : List (List ℕ)

-- The children of the statement.
pub data CreateItem : Type 0 where
  columndef : ColumnDef → CreateItem
  indexdef : IndexDef → CreateItem

-- `struct ast_crt_create_node`
pub record CreateNode : Type 0 where
  pub table_name : List ℕ
  pub if_not_exists : Bool
  pub children : List CreateItem
