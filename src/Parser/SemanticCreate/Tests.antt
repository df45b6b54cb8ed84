-- ===== src/Parser/SemanticCreate/Tests.antt =====
-- CREATE TABLE p (id, t, INDEX (id)) and the same with a column twice.
use midori_db.Prelude.{ℕ, ◌≡◌, refl, true, false, List, [], ◌∷◌, replicate, ok}
use midori_db.Primitive.Column.{integer}
use midori_db.Primitive.Name.{table_validate_name, table_validate_column_name, str_eq}
use midori_db.Datastructure.Hashtable.{Hashtable, bucket_at, hashtable_str_hash}
use midori_db.Engine.Database.{database_table_exists}
use midori_db.Parser.AstCreate.{ColumnDef, columndef, indexdef, CreateNode}
use midori_db.Parser.SemanticCreate.{Grants, semantic_analyse_create_stmt}
use midori_db.Parser.SemanticCreate.Accepts.{accepts}
use midori_db.Parser.SemanticCreate.Laws.{semantic_analyse_create_stmt-accepts}

abbrev column_of : List ℕ → ColumnDef
column_of name = record {
  name = name;
  kind = integer;
  precision = 8;
  attr_null = true;
  attr_not_null = false;
  attr_uniq_key = false;
  attr_auto_inc = false;
  attr_prim_key = false;
}

abbrev create : CreateNode
create = record {
  table_name = b'p' ∷ [];
  if_not_exists = false;
  children =
      columndef (column_of (b'i' ∷ b'd' ∷ []))
      ∷ indexdef
          (record { is_pk = false; is_index = true; index_columns = (b'i' ∷ b'd' ∷ []) ∷ [] })
      ∷ columndef (column_of (b't' ∷ []))
      ∷ [];
}

abbrev twice : CreateNode
twice = record create {
  children = columndef (column_of (b't' ∷ [])) ∷ columndef (column_of (b't' ∷ [])) ∷ [];
}

abbrev no_tables : Hashtable
no_tables = record { count = 0; capacity = 16; array = replicate 16 [] }

abbrev granted : Grants
granted = record { table = true; entry = λ i. true; resize = λ i. true }

twice_refused : accepts false twice ≡ false
unfolding str_eq table_validate_name table_validate_column_name
twice_refused = refl

semantic_analyse_create_stmt-accepts_example :
    semantic_analyse_create_stmt granted no_tables create ≡ ok true
unfolding database_table_exists bucket_at hashtable_str_hash str_eq table_validate_name
    table_validate_column_name
semantic_analyse_create_stmt-accepts_example =
    semantic_analyse_create_stmt-accepts granted refl (λ i. refl) create refl no_tables false refl
