-- ===== src/Primitive/Vacuum.antt =====
-- src/primitive/vacuum.c: `table_vacuum` moves the rows that a table holds to the front of its
-- blocks, in order, and frees the blocks that are left over.
pub mod Invariant
pub mod Scan
pub mod Fill
pub mod Ending
pub mod Gap
pub mod Laws
use midori_db.Prelude.{
  ℕ, zero, suc, ◌+◌, ◌-◌, ◌*◌, ◌/◌, Bool, true, false, ◌&&◌, ◌||◌, not, List, [], ◌∷◌, ◌++◌, length,
  take, drop, get_elem?, set, Option, none, some, ltb, leb, ◌==◌, if◌then◌else◌, Outcome, ok, fault,
  segfault, ◌>>=◌, ◌>>◌,
}
use midori_db.Primitive.Column.{Column, table_calc_row_size}
use midori_db.Primitive.Row.{Row, empty_row, table_free_row_content}
use midori_db.Primitive.Table.{
  Block, Table, page_size, slots, block_at, row_at, put_row, table_datablock_init,
}

-- The variables of the loops. `freed` has the pointers passed to `free`, in order.
pub record State : Type 0 where
  pub blocks : List Block
  pub freed : List ℕ
  pub dst_blk_offset : ℕ
  pub src_blk_offset : ℕ
  pub src_blk_idx : ℕ
  pub dst_full : Bool

-- What ends a round of the loop over the rows of a block.
pub data Round : Type 0 where
  next : State → Round
  stop : State → Round

-- `memzero(row, row_size)` and the flags set after it.
abbrev pub cleared_row : Row
cleared_row = empty_row

-- The contents of the slots of a block from slot `i` on.
unfoldable pub free_rows : List Column → List Row → List ℕ
unfolding table_free_row_content
free_rows columns [] = []
free_rows columns (r ∷ rs) = table_free_row_content columns r ++ free_rows columns rs

unfoldable pub free_blocks : List Column → List Block → List ℕ
unfolding free_rows
free_blocks columns [] = []
free_blocks columns (b ∷ bs) = free_rows columns b ++ free_blocks columns bs

module _ (columns : List Column) (row_size : ℕ) where
  -- A live row, at slot `i` of block `src`, that has to move to the destination block `dst`.
  unfoldable pub move_row : State → ℕ → ℕ → ℕ → Row → Outcome State
  unfolding block_at row_at table_free_row_content
  move_row st dst src i row = do
    dst_entry ← block_at st.blocks dst
    old ← row_at dst_entry st.dst_blk_offset row_size
    let moved = put_row st.blocks dst dst_entry (st.dst_blk_offset / row_size) row
    src_entry ← block_at moved src
    ok (record st {
      blocks = put_row moved src src_entry i cleared_row;
      freed = st.freed ++ table_free_row_content columns old;
      dst_blk_offset = st.dst_blk_offset + row_size;
      src_blk_offset = st.src_blk_offset + row_size;
    })

  -- The body of the loop over the rows of the block `src`. The `continue` of a row that is in place
  -- leaves `src_blk_offset` alone.
  unfoldable pub scan_row : State → ℕ → ℕ → ℕ → Outcome Round
  scan_row st dst src i = do
    src_entry ← block_at st.blocks src
    row ← row_at src_entry (i * row_size) row_size
    if not row.deleted && not row.empty
        then (if leb page_size (st.dst_blk_offset + row_size)
            then ok (stop (record st { dst_full = true }))
            else if dst == src && st.dst_blk_offset == i * row_size
            then ok (next (record st { dst_blk_offset = st.dst_blk_offset + row_size }))
            else (move_row st dst src i row >>= λ st'. ok (next st')))
        else ok (next (record st { src_blk_offset = st.src_blk_offset + row_size }))

  -- `for (i = src_blk_offset / row_size; i < slots; i++)`, with the number of rounds left.
  unfoldable pub scan_rows : ℕ → State → ℕ → ℕ → ℕ → Outcome State
  scan_rows zero st dst src i = ok st
  scan_rows (suc rounds) st dst src i =
      scan_row st dst src i
      >>= elim [ next st' ↦ scan_rows rounds st' dst src (i + 1) | stop st' ↦ ok st' ]

  -- The inner `list_for_each`, from the block at place `src` on, with `rounds` blocks to go.
  unfoldable pub scan_blocks : ℕ → State → ℕ → ℕ → ℕ → Outcome State
  scan_blocks zero st dst src tmp_cnt = ok st
  scan_blocks (suc rounds) st dst src tmp_cnt =
      let skipped = scan_blocks rounds st dst (src + 1) (tmp_cnt + 1) in
      let scanned =
        scan_rows (slots row_size - st.src_blk_offset / row_size) st dst src
          (st.src_blk_offset / row_size)
        >>= λ st'. elim st'.dst_full [
          | true ↦ ok st'
          | false ↦
              scan_blocks rounds
                (record st' { src_blk_idx = st'.src_blk_idx + 1; src_blk_offset = 0 }) dst (src + 1)
                (tmp_cnt + 1)
        ] in
      if ltb tmp_cnt st.src_blk_idx then skipped else scanned

  -- The outer `list_for_each`, from the block at place `dst` on. The result has the place of the
  -- last `dst_entry` (none before the first) and `dst_blk_idx`.
  unfoldable pub fill_blocks : ℕ → State → ℕ → Option ℕ → ℕ → Outcome (State × Option ℕ × ℕ)
  fill_blocks zero st dst dst_entry dst_blk_idx = ok (st, dst_entry, dst_blk_idx)
  fill_blocks (suc rounds) st dst dst_entry dst_blk_idx =
      scan_blocks (length st.blocks) (record st { dst_blk_offset = 0; dst_full = false }) dst 0 0
      >>= λ st'. elim st'.dst_full [
        | true ↦ fill_blocks rounds st' (dst + 1) (some dst) (dst_blk_idx + 1)
        | false ↦ ok (st', some dst, dst_blk_idx + 1)
      ]

-- The table and the pointers freed. With no block `dst_entry` is NULL, and the first row of its
-- block is read through it, unless a row is wider than a block, so that no row is read.
unfoldable pub table_vacuum : Table → Outcome (Bool × Table × List ℕ)
unfolding free_blocks block_at table_datablock_init table_calc_row_size
table_vacuum table = do
  let row_size = table_calc_row_size table.columns
  let start : State = record {
    blocks = table.blocks;
    freed = [];
    dst_blk_offset = 0;
    src_blk_offset = 0;
    src_blk_idx = 0;
    dst_full = false;
  }
  (st, dst_entry, dst_blk_idx) ←
      fill_blocks table.columns row_size (length table.blocks) start 0 none 0
  elim dst_entry [
    | none ↦
        if slots row_size == 0
        then ok (true, record table { free_dtbkl_offset = st.dst_blk_offset }, st.freed)
        else fault segfault
    | some dst ↦ do
      last ← block_at st.blocks dst
      let kept =
          take dst_blk_idx
            (set st.blocks dst (table_datablock_init last st.dst_blk_offset row_size))
      let tail = drop (st.dst_blk_offset / row_size) last
      ok (
        true,
        record table { blocks = kept; free_dtbkl_offset = st.dst_blk_offset },
        st.freed
            ++ (free_rows table.columns tail
                ++ free_blocks table.columns (drop dst_blk_idx st.blocks)),
      )
  ]
