-- ===== src/Engine/Query/Create.antt =====
-- A CREATE through the phases of src/engine/query.c.
use midori_db.Prelude.{
  ℕ, ◌^◌, ◌<◌, ◌≤◌, ◌≡◌, refl, ap, Bool, true, false, ◌&&◌, ◌||◌, List, [], length, Option, none,
  some, if◌then◌else◌, ok, Returns, bind-Returns, arith,
}
use midori_db.Primitive.Name.{table_validate_name}
use midori_db.Parser.AstCreate.{CreateNode}
use midori_db.Parser.SemanticCreate.{semantic_analyse_create_stmt}
use midori_db.Parser.SemanticCreate.Accepts.{
  is_string, item_strings, valid_columns, valid_indexes, names_of, accepts,
}
use midori_db.Parser.SemanticCreate.Laws.{semantic_analyse_create_stmt-accepts}
use midori_db.Datastructure.Hashtable.StringMap.{IsStringMap, value_of}
use midori_db.Engine.Database.{ReturnCode, midoridb_ok, name_key}
use midori_db.Engine.ExecutorCreate.{executor_run_create_stmt}
use midori_db.Engine.ExecutorCreate.Laws.{defined, WellSized}
use midori_db.Engine.ExecutorCreate.Statement.{
  Created, database_table_exists-new, executor_run_create_stmt-Created,
}
use midori_db.Engine.Query.{
  is_ok, World, Statement, stmt_create, Status, st_ok_executed, st_error, Phases, semantic_analyse,
  optimiser_run, executor_run, run_phases, query_execute,
}

-- The output and the state after a CREATE that is accepted, or not.
abbrev pub Answered : World → ℕ → CreateNode → Bool → Option Status × World → Type 0
Answered w address node true out =
    (out.0 ≡ some st_ok_executed)
    × Created w.db w.tables address node (midoridb_ok, out.1.db, out.1.tables)
Answered w address node false out = (out.0 ≡ some st_error) × (out.1 ≡ w)

accepts-parts :
    (name if_not_exists columns indexes : Bool)
    → (name && ((if_not_exists || true) && (columns && indexes))) ≡ true
    → (name ≡ true) × (columns ≡ true)
accepts-parts name if_not_exists columns indexes e = (ground (arith, e), ground (arith, e))

module _ (S : Type 0) (ph : Phases S) (w : World) (is_map : IsStringMap w.db) (node : CreateNode)
    (text : is_string node.table_name ≡ true) (strings : item_strings node.children ≡ true)
    (new : value_of w.db (name_key node.table_name) ≡ none) (sized : WellSized node.children)
    (few : length (defined node.children) ≤ 128) (table_granted : ph.semantic_grants.table ≡ true)
    (puts_granted : (i : ℕ) → ph.semantic_grants.entry i ≡ true)
    (granted : (i : ℕ) → ph.create_grants.table i ≡ true)
    (entry_granted : ph.create_grants.entry ≡ true) (address_pos : 0 < ph.address)
    (address_small : ph.address < 2 ^ 64) where
  checked : semantic_analyse_create_stmt ph.semantic_grants w.db node ≡ ok (accepts false node)
  checked =
      semantic_analyse_create_stmt-accepts ph.semantic_grants table_granted puts_granted node
        strings w.db false (database_table_exists-new w.db node.table_name new)

  abbrev Made : ReturnCode × World → Type 0
  Made out = Created w.db w.tables ph.address node (out.0, out.1.db, out.1.tables)

  run_phases-Answered :
      (b : Bool)
      → accepts false node ≡ b
      → Returns
          (run_phases ph w (stmt_create node))
          (λ out. Answered w ph.address node b (some (out.0), out.1))
  unfolding run_phases semantic_analyse optimiser_run executor_run
  run_phases-Answered false e =
      rw (run_phases, semantic_analyse, checked, e) ((st_error, w), refl, (refl, refl))
  run_phases-Answered true e =
      let (valid, columns) =
        accepts-parts (table_validate_name node.table_name) node.if_not_exists
          (valid_columns [] node.children) (valid_indexes (names_of [] node.children) node.children)
          e in
      rw (run_phases, semantic_analyse, checked, e)
        (bind-Returns _ _
          (bind-Returns {Q = Made}
            (executor_run_create_stmt ph.create_grants ph.address w.db w.tables node) _
            (executor_run_create_stmt-Created w.db w.tables is_map node valid text new columns sized
              few ph.create_grants granted entry_granted ph.address address_pos address_small)
            (λ out made. (_, refl, made)))
          (λ out made. (
            _,
            refl,
            (
              ap (λ rc. some (if is_ok rc then st_ok_executed else st_error)) made.returned,
              record {
                table = made.table;
                returned = refl;
                map = made.map;
                found = made.found;
                get = made.get;
                placed = made.placed;
                named = made.named;
                columns = made.columns;
                no_rows = made.no_rows;
                valid = made.valid;
              },
            ),
          )))

  -- With an output, and a query that parses as a CREATE whose names are C strings, of a table that
  -- the database does not have, with at most 128 columns of 1 to 8 bytes, the memory that the check
  -- and the run need, and an address of 64 bits for the table: the query returns. If the check accepts
  -- the statement, its status is ST_OK_EXECUTED, and the database has by the name the table at the
  -- address, and by any other name what it had. The table is valid, has the name and no rows, and its
  -- columns are those that are defined, with their attributes. If the check refuses the statement, the
  -- status is ST_ERROR and nothing changes.
  pub query_execute-Answered :
      (parse : List ℕ → Option (Statement S)) (query : List ℕ)
      → parse query ≡ some (stmt_create node)
      → Returns
          (query_execute ph true true parse w query)
          (Answered w ph.address node (accepts false node))
  unfolding query_execute
  query_execute-Answered parse query parsed =
      rw (query_execute, parsed)
        (bind-Returns _ _ (run_phases-Answered (accepts false node) refl)
          (λ out answered. (_, refl, answered)))
