-- ===== src/Primitive/TableColumns.antt =====
-- The functions of src/primitive/column.c that add a column to a table or remove one. Rows that stand
-- in its blocks are moved, since their size changes.
pub mod Laws
use midori_db.Prelude.{
  ℕ, ◌+◌, ◌-◌, ◌*◌, ◌/◌, Bool, true, false, ◌||◌, not, List, [], ◌∷◌, ◌++◌, length, take, drop,
  replicate, get_elem?, Option, none, some, ltb, leb, ◌==◌, if◌then◌else◌, Outcome, ok, fault,
  segfault, ◌>>=◌,
}
use midori_db.Primitive.Column.{
  Column, table_calc_column_space, table_calc_row_size, table_check_var_column,
}
use midori_db.Primitive.Name.{str_eq, strn_eq, table_max_column_name}
use midori_db.Primitive.Row.{Row, empty_row, first_cell}
use midori_db.Primitive.Table.{
  Block, Table, page_size, slots, is_empty, put_row, table_datablock_init,
}

-- TABLE_MAX_COLUMNS
abbrev pub table_max_columns : ℕ
table_max_columns = 128

-- The rows that the loops over the slots of a block visit: they end at the first empty one.
unfoldable pub until_empty : Block → List Row
until_empty [] = []
until_empty (row ∷ block) = let rest = until_empty block in if row.empty then [] else row ∷ rest

-- The blocks behind `new_head`, the last of which is `new_entry`, and `blk_offset`.
pub record Moved : Type 0 where
  pub blocks : List Block
  pub blk_offset : ℕ

-- A block for the next row. Request `k` of `datablock_alloc` is granted if `grants k` is true.
unfoldable pub next_block : (ℕ → Bool) → ℕ → Moved → Option Moved
next_block grants row_nxt_size m =
    if is_empty m.blocks || leb page_size (m.blk_offset + row_nxt_size)
    then (if grants (length m.blocks)
        then some (record {
          blocks = m.blocks ++ table_datablock_init [] 0 row_nxt_size ∷ [];
          blk_offset = 0;
        })
        else none)
    else some m

-- The copy of a row to `blk_offset` of the last block: the cells of the new column are zero bytes. A
-- block has no slot for a row that is wider than it: the source copies what the row has, of which the
-- model says nothing more.
unfoldable pub copy_row : ℕ → Moved → Row → Outcome Moved
copy_row row_nxt_size m row = elim (get_elem? m.blocks (length m.blocks - 1)) [
  | none ↦ fault segfault
  | some block ↦ elim (get_elem? block (m.blk_offset / row_nxt_size)) [
    | none ↦ fault segfault
    | some _ ↦ ok (record {
      blocks = put_row m.blocks (length m.blocks - 1) block (m.blk_offset / row_nxt_size) row;
      blk_offset = m.blk_offset + row_nxt_size;
    })
  ]
]

-- The two loops of `datablock_add_column`, over the rows that they visit. No result stands for a
-- block that is not granted.
unfoldable pub move_rows : (ℕ → Bool) → ℕ → Moved → List Row → Outcome (Option Moved)
move_rows grants row_nxt_size m [] = ok (some m)
move_rows grants row_nxt_size m (row ∷ rows) = elim (next_block grants row_nxt_size m) [
  | none ↦ ok none
  | some m' ↦ copy_row row_nxt_size m' row >>= λ m''. move_rows grants row_nxt_size m'' rows
]

unfoldable pub visited : List Block → List Row
unfolding until_empty
visited [] = []
visited (block ∷ blocks) = until_empty block ++ visited blocks

-- `head_granted` says whether `datablock_init` gets its memory. A failure frees the new blocks.
unfoldable pub datablock_add_column : Bool → (ℕ → Bool) → Table → ℕ → ℕ → Outcome (Bool × Table)
datablock_add_column head_granted grants table row_cur_size row_nxt_size =
    if row_cur_size == row_nxt_size || not head_granted
    then ok (false, table)
    else (move_rows grants row_nxt_size (record { blocks = []; blk_offset = 0 })
          (visited table.blocks)
        >>= λ moved. ok (elim moved [
          | none ↦ (false, table)
          | some m ↦ (true, record table { blocks = m.blocks; free_dtbkl_offset = m.blk_offset })
        ]))

unfoldable pub has_column : List Column → List ℕ → Bool
unfolding str_eq
has_column [] name = false
has_column (column ∷ columns) name = str_eq column.name name || has_column columns name

-- A column that was added stays in the table when the rows cannot be moved.
unfoldable pub table_add_column : Bool → (ℕ → Bool) → Table → Column → Outcome (Bool × Table)
unfolding has_column
table_add_column head_granted grants table column =
    if ltb column.precision 1
      || (ltb table_max_columns (length table.columns + 1) || has_column table.columns column.name)
    then ok (false, table)
    else let added : Table = record table { columns = table.columns ++ column ∷ [] } in
      if is_empty table.blocks
      then ok (true, added)
      else datablock_add_column head_granted grants added (table_calc_row_size table.columns)
          (table_calc_row_size added.columns)

-- The bytes of column `col_idx` are cut out of a row. The bits of the columns behind it stay.
abbrev pub without_cell : ℕ → Row → Row
without_cell col_idx row = record row {
  cells = take col_idx row.cells ++ drop (col_idx + 1) row.cells;
}

unfoldable pub cut_rows : ℕ → List Row → List Row
cut_rows col_idx [] = []
cut_rows col_idx (row ∷ rows) = without_cell col_idx row ∷ cut_rows col_idx rows

-- The pointers that the loop passes to `free` if the column is a variable one.
unfoldable pub cut_pointers : ℕ → List Row → List ℕ
cut_pointers col_idx [] = []
cut_pointers col_idx (row ∷ rows) =
    (first_cell (drop col_idx row.cells)).pointer ∷ cut_pointers col_idx rows

unfoldable pub cut_blocks : ℕ → ℕ → List Block → List Block
unfolding cut_rows until_empty
cut_blocks col_idx row_new_size [] = []
cut_blocks col_idx row_new_size (block ∷ blocks) =
    (cut_rows col_idx (until_empty block)
      ++ replicate (slots row_new_size - length (until_empty block)) empty_row)
    ∷ cut_blocks col_idx row_new_size blocks

-- `blk_offset` behind the loop: the rows of the last block that were visited.
unfoldable pub last_offset : ℕ → List Block → ℕ
unfolding until_empty
last_offset row_new_size [] = 0
last_offset row_new_size (block ∷ blocks) =
    if is_empty blocks
    then length (until_empty block) * row_new_size
    else last_offset row_new_size blocks

-- The table after it, and the pointers that are freed.
unfoldable pub datablock_rem_column : Table → ℕ → Column → Table × List ℕ
datablock_rem_column table col_idx column =
    let row_new_size = table_calc_row_size table.columns - table_calc_column_space column in
    (
      record table {
        blocks = cut_blocks col_idx row_new_size table.blocks;
        free_dtbkl_offset = last_offset row_new_size table.blocks;
      },
      if table_check_var_column column then cut_pointers col_idx (visited table.blocks) else [],
    )

-- The place of the first column with the name, and that column.
unfoldable pub find_column : ℕ → List Column → List ℕ → Option (ℕ × Column)
unfolding strn_eq
find_column pos [] name = none
find_column pos (column ∷ columns) name =
    let rest = find_column (pos + 1) columns name in
    if strn_eq table_max_column_name column.name name then some (pos, column) else rest

unfoldable pub without_column : ℕ → Table → Table
without_column pos table = record table {
  columns = take pos table.columns ++ drop (pos + 1) table.columns;
}

unfoldable pub table_rem_column : Table → Column → Bool × Table × List ℕ
table_rem_column table column = elim (find_column 0 table.columns column.name) [
  | none ↦ (false, table, [])
  | some found ↦
      if is_empty table.blocks
      then (true, without_column found.0 table, [])
      else let (table', freed) = datablock_rem_column table found.0 found.1 in
        (true, without_column found.0 table', freed)
]
