-- ===== src/Engine/ExecutorUpdate/Scan.antt =====
-- The run of an UPDATE: `should_update_row`, `update_row`, `scan_update` and
-- `executor_run_update_stmt` of src/engine/executor_update.c.
use midori_db.Prelude.{
  ℕ, zero, suc, ◌+◌, ◌*◌, Bool, true, false, ◌&&◌, not, List, [], ◌∷◌, length, Option, none, some,
  if◌then◌else◌, Outcome, ok, fault, bug_on, ◌>>=◌,
}
use midori_db.Heap.{Heap}
use midori_db.Datastructure.Hashtable.{Hashtable}
use midori_db.Primitive.Column.{Column, table_calc_row_size}
use midori_db.Primitive.Row.{Row}
use midori_db.Primitive.Table.{Table, slots, block_at, row_at, put_row}
use midori_db.Engine.Database.{ReturnCode, midoridb_ok, midoridb_internal}
use midori_db.Engine.Tables.{Tables, put_table, find_table}
use midori_db.Engine.ExecutorDelete.Compare.{ComparisonType, Platform}
use midori_db.Engine.ExecutorDelete.Fields.{Exprval}
use midori_db.Engine.ExecutorDelete.Eval.{
  LogopType, last_val, eval_cmp, eval_isxnull, eval_isxin, gate,
}
use midori_db.Engine.ExecutorUpdate.Assign.{set_field_to_value}

-- The nodes of an UPDATE. The children of the first three and of an assignment are values.
mutual
  pub data UpdNode : Type 0 where
    upd_cmp : ComparisonType → List Exprval → UpdNode
    upd_isxnull : Bool → List Exprval → UpdNode
    upd_isxin : Bool → List Exprval → UpdNode
    upd_logop : LogopType → UpdNodes → UpdNode
    upd_update : UpdNodes → UpdNode
    upd_assign : List ℕ → List Exprval → UpdNode
    upd_exprval : Exprval → UpdNode

  pub data UpdNodes : Type 0 where
    no_upd_nodes : UpdNodes
    upd_node_then : UpdNode → UpdNodes → UpdNodes

-- The child of an UPDATE is evaluated only if those before it hold, and an assignment does.
unfoldable mutual
  unfolding eval_cmp eval_isxnull eval_isxin gate

  pub should_update_row : Platform → Heap → List Column → Row → UpdNode → Outcome Bool
  should_update_row p h columns row (upd_cmp cmp_type vals) = eval_cmp p h columns row cmp_type vals
  should_update_row p h columns row (upd_isxnull is_negation vals) =
      eval_isxnull columns row is_negation vals
  should_update_row p h columns row (upd_isxin is_negation vals) =
      eval_isxin p h columns row is_negation vals
  should_update_row p h columns row (upd_logop logop_type nodes) =
      update_gate p h columns row logop_type none nodes
  should_update_row p h columns row (upd_update nodes) = update_all p h columns row true nodes
  should_update_row p h columns row (upd_assign field_name vals) = ok true
  should_update_row p h columns row (upd_exprval val) = fault bug_on

  -- The loop over the children of an operator, with the result so far: none before the first.
  pub update_gate :
      Platform → Heap → List Column → Row → LogopType → Option Bool → UpdNodes → Outcome Bool
  update_gate p h columns row logop_type none no_upd_nodes = ok true
  update_gate p h columns row logop_type (some ret) no_upd_nodes = ok ret
  update_gate p h columns row logop_type none (upd_node_then node nodes) = do
    eval ← should_update_row p h columns row node
    update_gate p h columns row logop_type (some eval) nodes
  update_gate p h columns row logop_type (some ret) (upd_node_then node nodes) = do
    eval ← should_update_row p h columns row node
    update_gate p h columns row logop_type (some (gate logop_type ret eval)) nodes

  -- The loop over the children of the statement.
  pub update_all : Platform → Heap → List Column → Row → Bool → UpdNodes → Outcome Bool
  update_all p h columns row ret no_upd_nodes = ok ret
  update_all p h columns row true (upd_node_then node nodes) = do
    eval ← should_update_row p h columns row node
    update_all p h columns row eval nodes
  update_all p h columns row false (upd_node_then node nodes) =
      update_all p h columns row false nodes

-- All the assignments below a node. The values have no children.
unfoldable mutual
  unfolding set_field_to_value

  pub update_row : Platform → List Column → UpdNode → Heap → Row → Outcome (Heap × Row)
  update_row p columns (upd_cmp cmp_type vals) h row = ok (h, row)
  update_row p columns (upd_isxnull is_negation vals) h row = ok (h, row)
  update_row p columns (upd_isxin is_negation vals) h row = ok (h, row)
  update_row p columns (upd_logop logop_type nodes) h row = update_rows p columns nodes h row
  update_row p columns (upd_update nodes) h row = update_rows p columns nodes h row
  update_row p columns (upd_exprval val) h row = ok (h, row)
  update_row p columns (upd_assign field_name []) h row = fault bug_on
  update_row p columns (upd_assign field_name (val ∷ vals)) h row =
      set_field_to_value p h columns row field_name (last_val val vals)

  -- The loop over the children.
  pub update_rows : Platform → List Column → UpdNodes → Heap → Row → Outcome (Heap × Row)
  update_rows p columns no_upd_nodes h row = ok (h, row)
  update_rows p columns (upd_node_then node nodes) h row =
      update_row p columns node h row >>= λ (h', row'). update_rows p columns nodes h' row'

-- The heap, the table, and `n_rows_aff` of the output.
abbrev pub Updates : Type 0
Updates = Heap × Table × ℕ

-- The body of the inner loop, at slot `i` of block `k`.
unfoldable pub update_slot : Platform → UpdNode → Heap → Table → ℕ → ℕ → ℕ → Outcome Updates
unfolding block_at row_at should_update_row update_row table_calc_row_size
update_slot p node h table k i n_rows_aff = do
  let row_size = table_calc_row_size table.columns
  block ← block_at table.blocks k
  row ← row_at block (row_size * i) row_size
  match ←
      (if not row.deleted && not row.empty
        then should_update_row p h table.columns row node
        else ok false)
  if match
      then (update_row p table.columns node h row >>= λ (h', row').
          ok (h', record table { blocks = put_row table.blocks k block i row' }, n_rows_aff + 1))
      else ok (h, table, n_rows_aff)

-- The inner loop from slot `i` on: `rounds` are the slots that are left.
unfoldable pub update_slots : Platform → UpdNode → ℕ → Heap → Table → ℕ → ℕ → ℕ → Outcome Updates
unfolding update_slot
update_slots p node zero h table k i n_rows_aff = ok (h, table, n_rows_aff)
update_slots p node (suc rounds) h table k i n_rows_aff =
    update_slot p node h table k i n_rows_aff >>= λ (h', table', n).
    update_slots p node rounds h' table' k (i + 1) n

-- The outer loop from block `k` on: `rounds` are the blocks that are left.
unfoldable pub update_blocks : Platform → UpdNode → ℕ → Heap → Table → ℕ → ℕ → Outcome Updates
unfolding update_slots table_calc_row_size
update_blocks p node zero h table k n_rows_aff = ok (h, table, n_rows_aff)
update_blocks p node (suc rounds) h table k n_rows_aff =
    update_slots p node (slots (table_calc_row_size table.columns)) h table k 0 n_rows_aff
    >>= λ (h', table', n). update_blocks p node rounds h' table' (k + 1) n

-- It always returns MIDORIDB_OK.
unfoldable pub scan_update : Platform → UpdNode → Heap → Table → ℕ → Outcome (ReturnCode × Updates)
unfolding update_blocks
scan_update p node h table n_rows_aff =
    update_blocks p node (length table.blocks) h table 0 n_rows_aff >>= λ updates.
    ok (midoridb_ok, updates)

-- `db` is the hash table of the database.
unfoldable pub executor_run_update_stmt :
    Platform
    → Heap
    → Hashtable
    → Tables
    → List ℕ
    → UpdNode
    → ℕ
    → Outcome (ReturnCode × Heap × Tables × ℕ)
unfolding find_table scan_update
executor_run_update_stmt p h db tables table_name node n_rows_aff =
    find_table db tables table_name >>= λ found. elim found [
      | none ↦ ok (midoridb_internal, h, tables, n_rows_aff)
      | some (address, table) ↦
          (scan_update p node h table n_rows_aff >>= λ (rc, updates).
          ok (rc, updates.0, put_table tables address (updates.1), updates.2))
    ]
