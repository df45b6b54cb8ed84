-- ===== src/Primitive/Table/Valid.antt =====
-- The tables that the functions of src/primitive build: whole blocks, filled from the front.
use midori_db.Prelude.{ℕ, ◌+◌, ◌-◌, ◌*◌, ◌/◌, ◌<◌, ◌≡◌, true, false, List, length, drop, All}
use midori_db.Primitive.Column.{table_calc_row_size}
use midori_db.Primitive.Row.{Row}
use midori_db.Primitive.Table.{Block, Table, page_size, slots}
use midori_db.Primitive.Table.Offsets.{usable}
use midori_db.Primitive.Table.Slots.{all_rows, Width}

-- A slot that was never filled, or that was cleared.
abbrev pub IsFree : Row → Type 0
IsFree r = (r.empty ≡ true) × (r.deleted ≡ false)

-- No row stands in a slot that the code does not fill.
abbrev pub Spare : ℕ → List Block → Type 0
Spare m = All (λ b. All IsFree (drop m b))

abbrev pub row_size_of : Table → ℕ
row_size_of t = table_calc_row_size t.columns

-- The slot, counted over all the blocks, at the free offset of the last block.
abbrev pub free_slot : Table → ℕ
free_slot t = (length t.blocks - 1) * slots (row_size_of t) + t.free_dtbkl_offset / row_size_of t

pub record IsValid (t : Table) : Type 0 where
  pub fits : row_size_of t < page_size
  pub width : Width (slots (row_size_of t)) t.blocks
  pub spare : Spare (usable (row_size_of t)) t.blocks
  pub aligned : t.free_dtbkl_offset ≡ t.free_dtbkl_offset / row_size_of t * row_size_of t
  pub inside : t.free_dtbkl_offset < page_size
  pub free : All IsFree (drop (free_slot t) (all_rows t.blocks))
