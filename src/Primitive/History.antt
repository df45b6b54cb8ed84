-- ===== src/Primitive/History.antt =====
-- Histories of a table: the insertions, deletions and vacuums of src/primitive, one after the other,
-- against a list of rows.
use midori_db.Prelude.{
  ℕ, suc, ◌+◌, ◌*◌, ◌<◌, ◌≤◌, ◌≡◌, refl, sym, ap, ◌∙◌, Bool, true, List, [], ◌∷◌, ◌++◌, length,
  take, drop, get_elem?, some, Outcome, ok, arith,
}
use mathlib.Core.Path.{subst}
use midori_db.Heap.{Heap}
use midori_db.Primitive.Row.{Row, bitmap_size}
use midori_db.Primitive.Row.Values.{IsHeap, Supplied, values}
use midori_db.Primitive.Table.{
  Block, Table, slots, should_alloc, table_insert_row, table_delete_row,
}
use midori_db.Primitive.Table.Delete.{Deleted, table_delete_row-Deleted}
use midori_db.Primitive.Table.Insert.{Inserted}
use midori_db.Primitive.Table.Laws.{table_insert_row-Inserted}
use midori_db.Primitive.Table.Slots.{all_rows, is_live, live}
use midori_db.Primitive.Table.Valid.{IsValid, row_size_of}
use midori_db.Primitive.Vacuum.{table_vacuum}
use midori_db.Primitive.Vacuum.Laws.{Vacuumed, table_vacuum-Vacuumed}

-- One call that returns true: a row that the caller supplies, a row that the table holds, or a table
-- that has a block.
pub data Step : Heap → Table → Heap → Table → Type 0 where
  insert :
      {h h' : Heap} {t t' : Table} (granted : Bool) (row : Row)
      → length row.null_bitmap ≡ bitmap_size
      → Supplied h t.columns 0 row.null_bitmap row.cells
      → (should_alloc t (row_size_of t) ≡ true → granted ≡ true)
      → table_insert_row granted h t row (row_size_of t) ≡ ok (true, h', t')
      → Step h t h' t'
  delete :
      {h : Heap} {t t' : Table} (k i : ℕ) (b : Block) (row : Row)
      → get_elem? t.blocks k ≡ some b
      → get_elem? b i ≡ some row
      → is_live row ≡ true
      → table_delete_row t k (i * row_size_of t) ≡ ok (true, t')
      → Step h t h t'
  vacuum :
      {h : Heap} {t t' : Table} (freed : List ℕ)
      → 0 < length t.blocks
      → table_vacuum t ≡ ok (true, t', freed)
      → Step h t h t'

pub data Steps : Heap → Table → Heap → Table → Type 0 where
  no_step : {h : Heap} {t : Table} → Steps h t h t
  after_step :
      {h h' h'' : Heap} {t t' t'' : Table}
      → Step h t h' t'
      → Steps h' t' h'' t''
      → Steps h t h'' t''

-- A state between two calls.
pub record IsState (h : Heap) (t : Table) : Type 0 where
  pub heap : IsHeap h
  pub table : IsValid t
  pub few : length t.columns ≤ 128

-- The rows of a table.
abbrev pub rows_of : Table → List Row
rows_of t = live (all_rows t.blocks)

-- What one call makes of a list of rows: an insertion puts a row with the null bits and values of the
-- caller's behind the others, a deletion takes out its row, the one that as many rows of the table
-- stand before as before its slot, and a vacuum does nothing.
abbrev pub Does : {h h' : Heap} {t t' : Table} → Step h t h' t' → List Row → List Row → Type 0
Does {h} {h'} {t} {t'} (insert granted row _ _ _ _) before after =
    (new : Row) × (after ≡ before ++ new ∷ [])
    × (new.null_bitmap ≡ row.null_bitmap)
    × (values h' t.columns 0 row.null_bitmap new.cells
        ≡ values h t.columns 0 row.null_bitmap row.cells)
Does {h} {h'} {t} {t'} (delete k i b row _ _ _ _) before after =
    (a : List Row) × (c : List Row) × (before ≡ a ++ row ∷ c)
    × (after ≡ a ++ c)
    × (length a ≡ length (live (take (k * slots (row_size_of t) + i) (all_rows t.blocks))))
Does (vacuum _ _ _) before after = after ≡ before

-- The same for calls one after the other.
abbrev pub AllDo : {h h' : Heap} {t t' : Table} → Steps h t h' t' → List Row → List Row → Type 0
AllDo no_step before after = after ≡ before
AllDo (after_step step steps) before after =
    (mid : List Row) × Does step before mid × AllDo steps mid after

same_result : {A : Type 0} {o : Outcome A} {a b : A} → o ≡ ok a → o ≡ ok b → a ≡ b
same_result {A} {o} {a} {b} e f = let both : ok a ≡ ok b = sym e ∙ f in cc both

pub Step-IsState :
    {h h' : Heap} {t t' : Table} (step : Step h t h' t')
    → IsState h t
    → IsState h' t' × Does step (rows_of t) (rows_of t')
Step-IsState {h} {h'} {t} {t'} (insert granted row len supplied grants run) is =
    let (r, ran, d) =
      table_insert_row-Inserted granted h t row is.heap is.table len is.few supplied grants in
    let d' = subst (Inserted h t row) (same_result ran run) d in
    (
      record {
        heap = d'.extends.heap;
        table = d'.valid;
        few = omega (arith, is.few, ap length d'.columns);
      },
      (d'.new, d'.rows, d'.bitmap, d'.same),
    )
Step-IsState {h} {h'} {t} {t'} (delete k i b row at_k at_i alive run) is =
    let (r, ran, d) = table_delete_row-Deleted t is.table k i b at_k row at_i alive in
    let p = k * slots (row_size_of t) + i in
    let d' = subst (Deleted t p row) (same_result ran run) d in
    (
      record {
        heap = is.heap;
        table = d'.valid;
        few = omega (arith, is.few, ap length d'.columns);
      },
      (
        live (take p (all_rows t.blocks)),
        live (drop (suc p) (all_rows t.blocks)),
        d'.before_rows,
        d'.after_rows,
        refl,
      ),
    )
Step-IsState {h} {h'} {t} {t'} (vacuum freed some_block run) is =
    let (r, ran, d) = table_vacuum-Vacuumed t is.table some_block in
    let d' = subst (Vacuumed t) (same_result ran run) d in
    (
      record {
        heap = is.heap;
        table = d'.valid;
        few = omega (arith, is.few, ap length d'.columns);
      },
      d'.same_rows,
    )

-- Whatever calls are made one after the other and return true, each an insertion of a row with its
-- bitmap and its texts and the memory for a block that it needs, a deletion of a row that the table
-- holds, or a vacuum of a table with a block, from a valid table of at most 128 columns on a heap
-- whose use is known: the table stays valid, and its rows are what these calls make of a list of
-- rows, where an insertion puts a row with the null bits and values of the caller's behind the
-- others, a deletion takes out the row of its slot, and a vacuum does nothing.
pub Steps-IsState :
    {h h' : Heap} {t t' : Table} (steps : Steps h t h' t')
    → IsState h t
    → IsState h' t' × AllDo steps (rows_of t) (rows_of t')
Steps-IsState no_step is = (is, refl)
Steps-IsState (after_step {h} {h'} {h''} {t} {t'} {t''} step steps) is =
    let (is', one) = Step-IsState step is in
    let (is'', more) = Steps-IsState steps is' in (is'', (rows_of t', one, more))
