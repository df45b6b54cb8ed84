-- ===== src/Primitive/Table/Access.antt =====
-- Blocks and rows that are where the code looks for them.
use midori_db.Prelude.{ℕ, ◌*◌, ◌/◌, ◌<◌, ◌≡◌, ap, ◌∙◌, List, get_elem?, some, ok}
use midori_db.Primitive.Row.{Row}
use midori_db.Primitive.Table.{Block, block_at, row_at}
use midori_db.Primitive.Table.Offsets.{div_at, mod_at}

pub block_at_lem :
    (bs : List Block) (k : ℕ) (b : Block) → get_elem? bs k ≡ some b → block_at bs k ≡ ok b
unfolding block_at
block_at_lem bs k b e = rw (e, block_at)

module _ (row_size : ℕ) (pos : 0 < row_size) where
  pub row_at_lem :
      (b : Block) (i : ℕ) (r : Row)
      → get_elem? b i ≡ some r
      → row_at b (i * row_size) row_size ≡ ok r
  unfolding row_at
  row_at_lem b i r e = rw (mod_at row_size pos i, div_at row_size pos i, e)

  pub row_at_aligned :
      (b : Block) (offset : ℕ) (r : Row)
      → offset ≡ offset / row_size * row_size
      → get_elem? b (offset / row_size) ≡ some r
      → row_at b offset row_size ≡ ok r
  row_at_aligned b offset r aligned e =
      ap (λ o. row_at b o row_size) aligned ∙ row_at_lem b (offset / row_size) r e
