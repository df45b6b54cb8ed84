-- ===== src/Primitive/Table.antt =====
-- Tables and their data blocks: include/primitive/table.h, src/primitive/table.c, datablock.c, the
-- row functions of row.c, and the column functions of column.c.
--
-- A data block is the list of its row slots: `(struct row*)&block->data[i * row_size]` is slot `i`,
-- and there are DATABLOCK_PAGE_SIZE / row_size of them. The list of the blocks stands for the
-- circular list behind `datablock_head`, first block first.
pub mod Slots
pub mod Offsets
pub mod Access
pub mod Valid
pub mod Insert
pub mod Grow
pub mod Laws
pub mod Delete
use Prim.Native.Nat.{min}
use midori_db.Prelude.{
  ℕ, zero, suc, ◌+◌, ◌-◌, ◌*◌, ◌/◌, ◌%◌, Bool, true, false, ◌&&◌, ◌||◌, not, List, [], ◌∷◌, ◌++◌,
  length, take, replicate, get_elem?, set, Option, none, some, ltb, leb, ◌==◌, if◌then◌else◌,
  Outcome, ok, fault, segfault, bug_if, ◌>>=◌, ◌>>◌,
}
use midori_db.Primitive.Column.{Column, table_calc_row_size}
use midori_db.Primitive.Name.{table_validate_name}
use midori_db.Heap.{Heap}
use midori_db.Primitive.Row.{
  Cell, Row, empty_row, insert_cells, update_cells, table_free_row_content,
}

-- DATABLOCK_PAGE_SIZE
abbrev pub page_size : ℕ
page_size = 4096

abbrev pub Block : Type 0
Block = List Row

-- `struct table`. `column_count` is the length of `columns`.
pub record Table : Type 0 where
  pub name : List ℕ
  pub columns : List Column
  pub blocks : List Block
  pub free_dtbkl_offset : ℕ

abbrev pub is_empty {ℓ} : {A : Type ℓ} → List A → Bool
is_empty [] = true
is_empty (_ ∷ _) = false

abbrev pub slots : ℕ → ℕ
slots row_size = page_size / row_size

-- `table_init`, where `grants` says which of its three requests (the table, the head of the list of
-- blocks and the mutex) the system meets.
unfoldable pub table_init : (ℕ → Bool) → List ℕ → Option Table
unfolding table_validate_name
table_init grants name =
    if grants 0 && (table_validate_name name && (grants 1 && grants 2))
    then some (record { name = name; columns = []; blocks = []; free_dtbkl_offset = 0 })
    else none

-- The slots before `offset` stay, the others become empty.
unfoldable pub table_datablock_init : Block → ℕ → ℕ → Block
table_datablock_init block offset row_size =
    take (offset / row_size) block ++ replicate (slots row_size - offset / row_size) empty_row

-- The block at place `k` of the list, and the last one.
unfoldable pub block_at : List Block → ℕ → Outcome Block
block_at blocks k = elim (get_elem? blocks k) [ some b ↦ ok b | none ↦ fault segfault ]

-- `(struct row*)&block->data[offset]`. An offset inside a slot or behind the last one reads memory
-- that is no row, of which the model says nothing more.
unfoldable pub row_at : Block → ℕ → ℕ → Outcome Row
row_at block offset row_size =
    if offset % row_size == 0
    then elim (get_elem? block (offset / row_size)) [ some r ↦ ok r | none ↦ fault segfault ]
    else fault segfault

abbrev pub put_row : List Block → ℕ → Block → ℕ → Row → List Block
put_row blocks k block i row = set blocks k (set block i row)

-- The part of `table_insert_row` after the choice of the block, the last of the list: the slot at
-- the free offset is taken and filled.
unfoldable pub fill_row : Heap → Table → Row → ℕ → Outcome (Bool × Heap × Table)
unfolding block_at row_at insert_cells
fill_row h table row len = do
  let k = length table.blocks - 1
  block ← block_at table.blocks k
  new_row ← row_at block table.free_dtbkl_offset len
  bug_if (new_row.deleted || not new_row.empty)
  (h', cells) ← insert_cells h table.columns 0 row.null_bitmap row.cells
  let filled : Row = record {
    empty = false;
    deleted = false;
    null_bitmap = row.null_bitmap;
    cells = cells;
  }
  ok (
    true,
    h',
    record table {
      blocks = put_row table.blocks k block (table.free_dtbkl_offset / len) filled;
      free_dtbkl_offset = table.free_dtbkl_offset + len;
    },
  )

abbrev pub should_alloc : Table → ℕ → Bool
should_alloc table len = is_empty table.blocks || leb page_size (table.free_dtbkl_offset + len)

-- `granted` says whether `datablock_alloc` gets its memory, if it is called.
unfoldable pub table_insert_row : Bool → Heap → Table → Row → ℕ → Outcome (Bool × Heap × Table)
unfolding table_calc_row_size fill_row table_datablock_init
table_insert_row granted h table row len =
    if len == 0 || not (len == table_calc_row_size table.columns)
    then ok (false, h, table)
    else if should_alloc table len
    then (if granted
        then fill_row h
            (record table {
              blocks = table.blocks ++ table_datablock_init [] 0 len ∷ [];
              free_dtbkl_offset = 0;
            })
            row len
        else ok (false, h, table))
    else fill_row h table row len

-- The block is given by its place in the list.
unfoldable pub table_delete_row : Table → ℕ → ℕ → Outcome (Bool × Table)
table_delete_row table blk offset = if leb page_size offset then ok (false, table) else do
  let row_size = table_calc_row_size table.columns
  block ← block_at table.blocks blk
  row ← row_at block offset row_size
  bug_if (row.deleted || row.empty)
  ok (
    true,
    record table {
      blocks = put_row table.blocks blk block (offset / row_size) (record row { deleted = true });
    },
  )

unfoldable pub table_update_row : Heap → Table → ℕ → ℕ → Row → ℕ → Outcome (Bool × Heap × Table)
table_update_row h table blk offset row len =
    if leb page_size offset || not (len == table_calc_row_size table.columns)
    then ok (false, h, table)
    else do
      block ← block_at table.blocks blk
      upd_row ← row_at block offset len
      bug_if (upd_row.deleted || upd_row.empty)
      (h', cells) ← update_cells h table.columns upd_row.cells row.cells
      let updated : Row = record upd_row { null_bitmap = row.null_bitmap; cells = cells }
      ok (true, h', record table { blocks = put_row table.blocks blk block (offset / len) updated })
