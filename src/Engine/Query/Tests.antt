-- ===== src/Engine/Query/Tests.antt =====
-- CREATE TABLE p (id) of src/engine/query.c on an empty database, and a query that does not parse.
use midori_db.Prelude.{
  ℕ, ◌≡◌, refl, true, false, List, [], ◌∷◌, Option, none, some, replicate, ok, Returns, arith,
}
use midori_db.Primitive.Column.{integer, table_calc_column_space}
use midori_db.Primitive.Name.{str_eq, table_validate_name, table_validate_column_name}
use midori_db.Datastructure.Hashtable.{
  Hashtable, hashtable_init, lookup, bucket_at, hashtable_str_hash,
}
use midori_db.Datastructure.Hashtable.StringMap.{IsStringMap}
use midori_db.Datastructure.Hashtable.StringMap.Laws.{hashtable_init-IsStringMap}
use midori_db.Parser.AstCreate.{columndef, CreateNode}
use midori_db.Engine.Database.{midoridb_internal}
use midori_db.Engine.ExecutorCreate.{new_column}
use midori_db.Engine.Query.{
  World, Statement, stmt_create, stmt_select, st_error, Phases, query_execute,
}
use midori_db.Engine.Query.Create.{Answered, query_execute-Answered}

abbrev create : CreateNode
create = record {
  table_name = b'p' ∷ [];
  if_not_exists = false;
  children =
      columndef (record {
        name = b'i' ∷ b'd' ∷ [];
        kind = integer;
        precision = 8;
        attr_null = true;
        attr_not_null = false;
        attr_uniq_key = false;
        attr_auto_inc = false;
        attr_prim_key = false;
      })
      ∷ [];
}

abbrev empty_database : Hashtable
empty_database = record { count = 0; capacity = 16; array = replicate 16 [] }

empty_database-IsStringMap : IsStringMap empty_database
unfolding hashtable_init
empty_database-IsStringMap = (hashtable_init-IsStringMap empty_database refl).0

abbrev world : World
world = record {
  heap = record { texts = λ p. none; next = 0 };
  db = empty_database;
  tables = λ a. none;
}

-- The phases outside the model refuse.
abbrev phases : Phases ℕ
phases = record {
  semantic_insert = λ w node. ok (false, stmt_select 0);
  semantic_delete = λ w name node. ok (false, stmt_select 0);
  semantic_update = λ w name node. ok (false, stmt_select 0);
  semantic_select = λ w node. ok (false, stmt_select node);
  optimiser_insert = λ w node. ok (midoridb_internal, stmt_select 0);
  optimiser_select = λ w node. ok (midoridb_internal, stmt_select node);
  executor_select = λ w node. ok (midoridb_internal, w);
  semantic_grants = record { table = true; entry = λ i. true; resize = λ i. true };
  create_grants = record { table = λ i. true; entry = true; resize = true };
  insert_grants = record { row = λ n. true; block = λ i. true };
  address = 64;
  parse_time = λ str fmt. none;
  platform = record {
    double_eq = λ a b. false;
    double_lt = λ a b. false;
    double_le = λ a b. false;
    parse_time = λ str fmt. 0;
  };
}

-- Every query but the empty one is the CREATE.
abbrev parse : List ℕ → Option (Statement ℕ)
parse [] = none
parse (c ∷ query) = some (stmt_create create)

no_query : query_execute phases true true parse world [] ≡ ok (some st_error, world)
unfolding query_execute
no_query = refl

query_execute-Answered_example :
    Returns (query_execute phases true true parse world (b'c' ∷ [])) (Answered world 64 create true)
unfolding lookup bucket_at hashtable_str_hash str_eq table_validate_name table_validate_column_name
    new_column table_calc_column_space
query_execute-Answered_example =
    query_execute-Answered ℕ phases world empty_database-IsStringMap create refl refl refl
      (omega arith, omega arith, omega arith, tt) (omega arith) refl (λ i. refl) (λ i. refl) refl
      (omega arith) (omega arith) parse (b'c' ∷ []) refl
