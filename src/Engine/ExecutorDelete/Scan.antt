-- ===== src/Engine/ExecutorDelete/Scan.antt =====
-- The run of a DELETE: `scan_delete` and `executor_run_deleteone_stmt` of
-- src/engine/executor_delete.c.
use midori_db.Prelude.{
  ℕ, zero, suc, ◌+◌, ◌*◌, Bool, true, false, ◌&&◌, not, List, length, none, some, if◌then◌else◌,
  Outcome, ok, ◌>>=◌,
}
use midori_db.Heap.{Heap}
use midori_db.Datastructure.Hashtable.{Hashtable}
use midori_db.Primitive.Column.{table_calc_row_size}
use midori_db.Primitive.Row.{Row}
use midori_db.Primitive.Table.{Table, slots, block_at, row_at, table_delete_row}
use midori_db.Engine.Database.{ReturnCode, midoridb_ok, midoridb_internal}
use midori_db.Engine.Tables.{Tables, put_table, find_table}
use midori_db.Engine.ExecutorDelete.Compare.{Platform}
use midori_db.Engine.ExecutorDelete.Eval.{DelNode, eval_delete_row}

-- The return code, the table, and `n_rows_aff` of the output.
abbrev pub Scan : Type 0
Scan = ReturnCode × Table × ℕ

-- The condition of the loop: the row is one that the table holds, and the statement's condition
-- evaluates to true on it.
unfoldable pub matches : Platform → Heap → Table → Row → DelNode → Outcome Bool
unfolding eval_delete_row
matches p h table row node =
    if not row.deleted && not row.empty
    then eval_delete_row p h table.columns row node
    else ok false

unfoldable pub delete_match : Table → ℕ → ℕ → ℕ → Bool → Outcome Scan
unfolding table_delete_row
delete_match table k offset n_rows_aff false = ok (midoridb_ok, table, n_rows_aff)
delete_match table k offset n_rows_aff true = do
  (deleted, table') ← table_delete_row table k offset
  ok (
    if deleted then midoridb_ok else midoridb_internal,
    table',
    if deleted then n_rows_aff + 1 else n_rows_aff,
  )

-- The body of the inner loop, at slot `i` of block `k`.
unfoldable pub scan_slot : Platform → Heap → DelNode → Table → ℕ → ℕ → ℕ → Outcome Scan
unfolding block_at row_at matches delete_match table_calc_row_size
scan_slot p h node table k i n_rows_aff = do
  let row_size = table_calc_row_size table.columns
  block ← block_at table.blocks k
  row ← row_at block (row_size * i) row_size
  match ← matches p h table row node
  delete_match table k (i * row_size) n_rows_aff match

-- The inner loop from slot `i` on: `rounds` are the slots that are left.
unfoldable pub scan_slots : Platform → Heap → DelNode → ℕ → Table → ℕ → ℕ → ℕ → Outcome Scan
unfolding scan_slot
scan_slots p h node zero table k i n_rows_aff = ok (midoridb_ok, table, n_rows_aff)
scan_slots p h node (suc rounds) table k i n_rows_aff =
    scan_slot p h node table k i n_rows_aff >>= λ (rc, table', n). elim rc [
      | midoridb_ok ↦ scan_slots p h node rounds table' k (i + 1) n
      | other ↦ ok (other, table', n)
    ]

-- The outer loop from block `k` on: `rounds` are the blocks that are left.
unfoldable pub scan_blocks : Platform → Heap → DelNode → ℕ → Table → ℕ → ℕ → Outcome Scan
unfolding scan_slots table_calc_row_size
scan_blocks p h node zero table k n_rows_aff = ok (midoridb_ok, table, n_rows_aff)
scan_blocks p h node (suc rounds) table k n_rows_aff =
    scan_slots p h node (slots (table_calc_row_size table.columns)) table k 0 n_rows_aff
    >>= λ (rc, table', n). elim rc [
      | midoridb_ok ↦ scan_blocks p h node rounds table' (k + 1) n
      | other ↦ ok (other, table', n)
    ]

unfoldable pub scan_delete : Platform → Heap → DelNode → Table → ℕ → Outcome Scan
unfolding scan_blocks
scan_delete p h node table n_rows_aff =
    scan_blocks p h node (length table.blocks) table 0 n_rows_aff

-- `db` is the hash table of the database.
unfoldable pub executor_run_deleteone_stmt :
    Platform → Heap → Hashtable → Tables → List ℕ → DelNode → ℕ → Outcome (ReturnCode × Tables × ℕ)
unfolding find_table scan_delete
executor_run_deleteone_stmt p h db tables table_name node n_rows_aff =
    find_table db tables table_name >>= λ found. elim found [
      | none ↦ ok (midoridb_internal, tables, n_rows_aff)
      | some (address, table) ↦
          (scan_delete p h node table n_rows_aff >>= λ (rc, table', n).
          ok (rc, put_table tables address table', n))
    ]
