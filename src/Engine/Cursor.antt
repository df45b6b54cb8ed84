-- ===== src/Engine/Cursor.antt =====
-- `query_cur_step` of src/engine/query.c: the cursor over the rows of a result.
pub mod Laws
use midori_db.Prelude.{
  ℕ, zero, suc, ◌+◌, ◌*◌, ◌/◌, Bool, true, false, List, [], ◌∷◌, length, get_elem?, Option, none,
  some, ltb, ◌==◌, if◌then◌else◌, Outcome, ok, bug_if, ◌>>=◌, ◌>>◌,
}
use midori_db.Primitive.Column.{table_calc_row_size}
use midori_db.Primitive.Row.{Row}
use midori_db.Primitive.Table.{Block, Table, page_size, block_at}

-- `struct result_set`. A block is its place in the list of the table's, and the head of the list has
-- the place behind the last.
pub record ResultSet : Type 0 where
  pub table : Table
  pub cursor_blk : Option ℕ
  pub cursor_offset : ℕ

-- MIDORIDB_OK and MIDORIDB_ROW
pub data StepResult : Type 0 where
  midoridb_ok midoridb_row : StepResult

-- Where the cursor goes, or nowhere behind the last block.
pub data Position : Type 0 where
  at_row : ℕ → ℕ → Position
  at_end : ℕ → Position

unfoldable pub next_position : ResultSet → ℕ → Position
next_position res row_size = elim res.cursor_blk [
  | none ↦ at_row 0 0
  | some blk ↦
      if ltb page_size (res.cursor_offset + row_size)
      then (if blk + 1 == length res.table.blocks then at_end (blk + 1) else at_row (blk + 1) 0)
      else at_row blk (res.cursor_offset + row_size)
]

-- `tail blk` is what the bytes behind the last slot of a block read as: nothing writes them.
unfoldable pub cursor_row : (ℕ → Row) → Table → ℕ → ℕ → ℕ → Outcome Row
cursor_row tail table blk offset row_size = block_at table.blocks blk >>= λ block.
    ok (elim (get_elem? block (offset / row_size)) [ some row ↦ row | none ↦ tail blk ])

unfoldable pub step_to : (ℕ → Row) → ResultSet → ℕ → ℕ → ℕ → Outcome (StepResult × ResultSet)
step_to tail res blk offset row_size = do
  row ← cursor_row tail res.table blk offset row_size
  bug_if row.deleted
  ok (
    if row.empty then midoridb_ok else midoridb_row,
    record res { cursor_blk = some blk; cursor_offset = offset },
  )

unfoldable pub query_cur_step : (ℕ → Row) → ResultSet → Outcome (StepResult × ResultSet)
query_cur_step tail res =
    let row_size = table_calc_row_size res.table.columns in
    elim (next_position res row_size) [
      | at_row blk offset ↦ step_to tail res blk offset row_size
      | at_end blk ↦ ok (midoridb_ok, record res { cursor_blk = some blk; cursor_offset = 0 })
    ]
