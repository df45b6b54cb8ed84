-- ===== src/Engine/Query.antt =====
-- The phases of a query: `query_execute` of src/engine/query.c, and the choice of the function for
-- each kind of statement in src/parser/semantic.c, src/engine/optimiser.c and src/engine/executor.c.
pub mod Create
mod Tests
use midori_db.Prelude.{
  ℕ, Bool, true, false, List, Option, none, some, if◌then◌else◌, Outcome, ok, fault, bug_on, ◌>>=◌,
}
use midori_db.Heap.{Heap}
use midori_db.Datastructure.Hashtable.{Hashtable}
use midori_db.Parser.AstCreate.{CreateNode}
use midori_db.Parser.SemanticCreate
use midori_db.Parser.SemanticCreate.{semantic_analyse_create_stmt}
use midori_db.Engine.Database.{
  ReturnCode, midoridb_ok, midoridb_error, midoridb_internal, midoridb_nomem,
}
use midori_db.Engine.Tables.{Tables}
use midori_db.Engine.ExecutorCreate
use midori_db.Engine.ExecutorCreate.{executor_run_create_stmt}
use midori_db.Engine.ExecutorDelete.Compare.{Platform}
use midori_db.Engine.ExecutorDelete.Eval.{DelNode}
use midori_db.Engine.ExecutorDelete.Scan.{executor_run_deleteone_stmt}
use midori_db.Engine.ExecutorInsert.Cells.{ParseTime}
use midori_db.Engine.ExecutorInsert.Run
use midori_db.Engine.ExecutorInsert.Run.{InsNode, executor_run_insertvals_stmt}
use midori_db.Engine.ExecutorUpdate.Scan.{UpdNode, executor_run_update_stmt}

-- What the statements change: the texts, the database, and its tables.
pub record World : Type 0 where
  pub heap : Heap
  pub db : Hashtable
  pub tables : Tables

-- The root of a tree. A DELETE and an UPDATE have the name of a table, and `stmt_other` is a node of
-- any other type.
pub data Statement (S : Type 0) : Type 0 where
  stmt_create : CreateNode → Statement S
  stmt_insert : InsNode → Statement S
  stmt_delete : List ℕ → DelNode → Statement S
  stmt_update : List ℕ → UpdNode → Statement S
  stmt_select : S → Statement S
  stmt_other : Statement S

-- enum query_output_status
pub data Status : Type 0 where
  st_ok_with_results st_ok_executed st_error : Status

-- The phases that are no part of the model, which may change their node, what the system grants to
-- those that are, and the address of a new table.
pub record Phases (S : Type 0) : Type 0 where
  pub semantic_insert : World → InsNode → Outcome (Bool × Statement S)
  pub semantic_delete : World → List ℕ → DelNode → Outcome (Bool × Statement S)
  pub semantic_update : World → List ℕ → UpdNode → Outcome (Bool × Statement S)
  pub semantic_select : World → S → Outcome (Bool × Statement S)
  pub optimiser_insert : World → InsNode → Outcome (ReturnCode × Statement S)
  pub optimiser_select : World → S → Outcome (ReturnCode × Statement S)
  pub executor_select : World → S → Outcome (ReturnCode × World)
  pub semantic_grants : SemanticCreate.Grants
  pub create_grants : ExecutorCreate.Grants
  pub insert_grants : Run.Grants
  pub address : ℕ
  pub parse_time : ParseTime
  pub platform : Platform

abbrev is_ok : ReturnCode → Bool
is_ok midoridb_ok = true
is_ok midoridb_error = false
is_ok midoridb_internal = false
is_ok midoridb_nomem = false

abbrev end_status : {S : Type 0} → Statement S → Status
end_status (stmt_select node) = st_ok_with_results
end_status _ = st_ok_executed

unfoldable pub semantic_analyse :
    {S : Type 0} → Phases S → World → Statement S → Outcome (Bool × Statement S)
unfolding semantic_analyse_create_stmt
semantic_analyse ph w (stmt_create node) =
    semantic_analyse_create_stmt ph.semantic_grants w.db node >>= λ valid.
    ok (valid, stmt_create node)
semantic_analyse ph w (stmt_insert node) = ph.semantic_insert w node
semantic_analyse ph w (stmt_delete name node) = ph.semantic_delete w name node
semantic_analyse ph w (stmt_update name node) = ph.semantic_update w name node
semantic_analyse ph w (stmt_select node) = ph.semantic_select w node
semantic_analyse ph w stmt_other = fault bug_on

unfoldable pub optimiser_run :
    {S : Type 0} → Phases S → World → Statement S → Outcome (ReturnCode × Statement S)
optimiser_run ph w (stmt_create node) = ok (midoridb_ok, stmt_create node)
optimiser_run ph w (stmt_insert node) = ph.optimiser_insert w node
optimiser_run ph w (stmt_delete name node) = ok (midoridb_ok, stmt_delete name node)
optimiser_run ph w (stmt_update name node) = ok (midoridb_ok, stmt_update name node)
optimiser_run ph w (stmt_select node) = ph.optimiser_select w node
optimiser_run ph w stmt_other = fault bug_on

unfoldable pub executor_run :
    {S : Type 0} → Phases S → World → Statement S → Outcome (ReturnCode × World)
unfolding executor_run_create_stmt executor_run_insertvals_stmt executor_run_deleteone_stmt
    executor_run_update_stmt
executor_run ph w (stmt_create node) =
    executor_run_create_stmt ph.create_grants ph.address w.db w.tables node >>= λ (rc, db, tables).
    ok (rc, record w { db = db; tables = tables })
executor_run ph w (stmt_insert node) =
    executor_run_insertvals_stmt ph.parse_time ph.insert_grants w.heap w.db w.tables node 0
    >>= λ (rc, h, tables, n). ok (rc, record w { heap = h; tables = tables })
executor_run ph w (stmt_delete name node) =
    executor_run_deleteone_stmt ph.platform w.heap w.db w.tables name node 0 >>= λ (rc, tables, n).
    ok (rc, record w { tables = tables })
executor_run ph w (stmt_update name node) =
    executor_run_update_stmt ph.platform w.heap w.db w.tables name node 0 >>= λ (rc, h, tables, n).
    ok (rc, record w { heap = h; tables = tables })
executor_run ph w (stmt_select node) = ph.executor_select w node
executor_run ph w stmt_other = fault bug_on

-- The three phases on a tree.
unfoldable pub run_phases : {S : Type 0} → Phases S → World → Statement S → Outcome (Status × World)
unfolding semantic_analyse optimiser_run executor_run
run_phases ph w node = semantic_analyse ph w node >>= λ (valid, checked). elim valid [
  | false ↦ ok (st_error, w)
  | true ↦ optimiser_run ph w checked >>= λ (rc, optimised). elim (is_ok rc) [
    | false ↦ ok (st_error, w)
    | true ↦
        (executor_run ph w optimised >>= λ (rc', w').
        ok (if is_ok rc' then end_status optimised else st_error, w'))
  ]
]

-- No output if its memory is not granted. `parse` is `syntax_parse` and then `ast_build_tree`, and
-- `queue_granted` what the system says to `queue_init`.
unfoldable pub query_execute :
    {S : Type 0}
    → Phases S
    → Bool
    → Bool
    → (List ℕ → Option (Statement S))
    → World
    → List ℕ
    → Outcome (Option Status × World)
unfolding run_phases
query_execute ph output_granted queue_granted parse w query =
    if output_granted
    then (if queue_granted
        then elim (parse query) [
          | none ↦ ok (some st_error, w)
          | some node ↦ (run_phases ph w node >>= λ (status, w'). ok (some status, w'))
        ]
        else ok (some st_error, w))
    else ok (none, w)
