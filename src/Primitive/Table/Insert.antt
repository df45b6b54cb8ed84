-- ===== src/Primitive/Table/Insert.antt =====
-- `table_insert_row` appends the row to those that the table holds.
use midori_db.Prelude.{
  ℕ, zero, suc, ◌+◌, ◌-◌, ◌*◌, ◌/◌, ◌<◌, ◌≤◌, ◌≡◌, refl, sym, ap, ◌∙◌, Bool, true, false, not, ◌||◌,
  List, [], ◌∷◌, ◌++◌, length, drop, get_elem?, get_elem?-some, get_elem?-drop, set, length-set,
  some, All, All-get, All-set, drop-set_lt, ok, Returns, arith,
}
use mathlib.Core.Path.{subst}
use native.Mathlib.Nat.{add-suc}
use midori_db.Primitive.Column.Laws.{row_size_pos}
use midori_db.Heap.{Heap}
use midori_db.Primitive.Row.{Cell, Row, bitmap_size, insert_cells, var_pointers}
use midori_db.Primitive.Row.Values.{IsHeap, Supplied, Extends, values}
use midori_db.Primitive.Row.Laws.{StoredCells, insert_cells-Returns}
use midori_db.Primitive.Table.{Block, Table, page_size, slots, put_row, fill_row}
use midori_db.Primitive.Table.Access.{block_at_lem, row_at_aligned}
use midori_db.Primitive.Table.Offsets.{usable, fits-usable, usable-le-slots, div_at}
use midori_db.Primitive.Table.Slots.{
  all_rows, is_live, live, length-all_rows, get-all_rows, all_rows-put, Width-put,
}
use midori_db.Primitive.Table.Valid.{IsFree, IsValid, row_size_of, free_slot}

-- A row in the first of the free slots at the end.
live_of_free : (rows : List Row) → All IsFree rows → live rows ≡ []
unfolding live
live_of_free [] h = refl
live_of_free (r ∷ rows) h = ground (arith, h.0, live_of_free rows h.1)

live-set :
    (rows : List Row) (p : ℕ) (r : Row)
    → p < length rows
    → All IsFree (drop p rows)
    → is_live r ≡ true
    → live (set rows p r) ≡ live rows ++ r ∷ []
unfolding live
live-set [] p r lt free alive = absurd (omega arith)
live-set (x ∷ rows) zero r lt free alive =
    rw (live_of_free rows free.1, alive) (ground (arith, free.0))
live-set (x ∷ rows) (suc p) r lt free alive =
    ground (arith, live-set rows p r (omega arith) free alive)

IsFree-set :
    (rows : List Row) (p : ℕ) (r : Row)
    → All IsFree (drop p rows)
    → All IsFree (drop (suc p) (set rows p r))
IsFree-set [] p r h = tt
IsFree-set (x ∷ rows) zero r h = h.1
IsFree-set (x ∷ rows) (suc p) r h = IsFree-set rows p r h

-- A table `r.2` and heap after a row of the caller was inserted into `t`: `new` is the row stored.
pub record Inserted (h : Heap) (t : Table) (row : Row) (r : Bool × Heap × Table) : Type 0 where
  pub new : Row
  pub returns : r.0 ≡ true
  pub rows : live (all_rows r.2.blocks) ≡ live (all_rows t.blocks) ++ new ∷ []
  pub bitmap : new.null_bitmap ≡ row.null_bitmap
  pub same :
      values r.1 t.columns 0 row.null_bitmap new.cells
      ≡ values h t.columns 0 row.null_bitmap row.cells
  pub fresh : All (λ p. (h.next < p) × (p ≤ r.1.next)) (var_pointers t.columns new.cells)
  pub extends : Extends h r.1
  pub valid : IsValid r.2
  pub columns : r.2.columns ≡ t.columns

module _ (h : Heap) (t : Table) (row : Row) (well : IsHeap h) (valid : IsValid t)
    (bitmap_len : length row.null_bitmap ≡ bitmap_size) (few : length t.columns ≤ 128)
    (supplied : Supplied h t.columns 0 row.null_bitmap row.cells) where
  abbrev rs : ℕ
  rs = row_size_of t

  pos : 0 < rs
  pos = omega (arith, row_size_pos t.columns)

  abbrev m : ℕ
  m = slots rs

  abbrev i : ℕ
  i = t.free_dtbkl_offset / rs

  module _ (k : ℕ) (last : length t.blocks ≡ suc k) (room : t.free_dtbkl_offset + rs < page_size)
      (b : Block) (at_k : get_elem? t.blocks k ≡ some b) (old : Row)
      (at_i : get_elem? b i ≡ some old) (h' : Heap) (cells : List Cell)
      (run : insert_cells h t.columns 0 row.null_bitmap row.cells ≡ ok (h', cells))
      (stored : StoredCells h t.columns 0 row.null_bitmap row.cells (h', cells)) where
    new : Row
    new = record { empty = false; deleted = false; null_bitmap = row.null_bitmap; cells = cells }

    t' : Table
    t' = record t {
      blocks = put_row t.blocks k b i new;
      free_dtbkl_offset = t.free_dtbkl_offset + rs;
    }

    i_lt : i < usable rs
    i_lt = fits-usable rs pos i (omega (arith, valid.aligned, room))

    before : suc k - 1 ≡ k
    before = omega arith

    at_slot : free_slot t ≡ k * m + i
    at_slot = ap (λ l. (l - 1) * m + i) last ∙ ap (λ l. l * m + i) before

    now : all_rows t'.blocks ≡ set (all_rows t.blocks) (k * m + i) new
    unfolding t'
    now =
        all_rows-put m t.blocks k i b new valid.width at_k
          (omega (arith, i_lt, usable-le-slots rs pos))

    in_range : k * m + i < length (all_rows t.blocks)
    in_range = omega (
      arith,
      length-all_rows m t.blocks valid.width,
      ap (λ l. l * m) last,
      i_lt,
      usable-le-slots rs pos,
    )

    free : All IsFree (drop (k * m + i) (all_rows t.blocks))
    free = subst (λ p. All IsFree (drop p (all_rows t.blocks))) at_slot valid.free

    old-IsFree : IsFree old
    old-IsFree = All-get IsFree (drop (k * m + i) (all_rows t.blocks)) 0 free (
        get_elem?-drop (k * m + i) 0 (k * m + i) (all_rows t.blocks) (omega arith)
        ∙ get-all_rows m t.blocks k i b valid.width at_k
            (omega (arith, i_lt, usable-le-slots rs pos))
        ∙ at_i)

    fill_eq : fill_row h t row rs ≡ ok (true, h', t')
    unfolding fill_row new t'
    fill_eq =
        let place : length t.blocks - 1 ≡ k = omega (arith, last) in
        let unused : (old.deleted || not old.empty) ≡ false =
          ground (arith, old-IsFree.0, old-IsFree.1) in
        rw (place, block_at_lem t.blocks k b at_k)
          (rw (row_at_aligned rs pos b t.free_dtbkl_offset old valid.aligned at_i, unused, run))

    moved_on : (t.free_dtbkl_offset + rs) / rs ≡ suc i
    moved_on = ap (λ o. o / rs) (omega (arith, valid.aligned)) ∙ div_at rs pos (suc i)

    t'-IsValid : IsValid t'
    unfolding t'
    t'-IsValid = record {
      fits = valid.fits;
      width = Width-put m t.blocks k i b new valid.width at_k;
      spare =
          All-set (λ b. All IsFree (drop (usable rs) b)) t.blocks k (set b i new) valid.spare
            (subst (All IsFree) (sym (drop-set_lt (usable rs) i new b i_lt))
              (All-get (λ b. All IsFree (drop (usable rs) b)) t.blocks k valid.spare at_k));
      aligned = omega (arith, valid.aligned, ap (λ q. q * rs) moved_on);
      inside = room;
      free =
          let at : free_slot (record t {
            blocks = put_row t.blocks k b i new;
            free_dtbkl_offset = t.free_dtbkl_offset + rs;
          })
              ≡ suc (k * m + i) =
            ap (λ l. (l - 1) * m + (t.free_dtbkl_offset + rs) / rs)
              (length-set t.blocks k (set b i new) ∙ last)
            ∙ ap (λ l. l * m + (t.free_dtbkl_offset + rs) / rs) before
            ∙ ap (λ j. k * m + j) moved_on
            ∙ add-suc (k * m) i in
          subst (λ p. All IsFree (drop p (all_rows (put_row t.blocks k b i new)))) (sym at)
            (subst (λ f. All IsFree (drop (suc (k * m + i)) f)) (sym now)
              (IsFree-set (all_rows t.blocks) (k * m + i) new free));
    }

    filled-Inserted : Returns (fill_row h t row rs) (Inserted h t row)
    unfolding t' new
    filled-Inserted = (
      (true, h', t'),
      fill_eq,
      record {
        new = new;
        returns = refl;
        rows = ap live now ∙ live-set (all_rows t.blocks) (k * m + i) new in_range free refl;
        bitmap = refl;
        same = stored.same;
        fresh = stored.fresh;
        extends = stored.extends;
        valid = t'-IsValid;
        columns = refl;
      },
    )

  -- The last block is there, and has its slot.
  pub fill-Inserted :
      0 < length t.blocks
      → t.free_dtbkl_offset + rs < page_size
      → Returns (fill_row h t row rs) (Inserted h t row)
  fill-Inserted some_block room =
      let k = length t.blocks - 1 in
      let i_lt = fits-usable rs pos i (omega (arith, valid.aligned, room)) in
      let (b, at_k) = get_elem?-some t.blocks k (omega arith) in
      let wide = All-get (λ b. length b ≡ m) t.blocks k valid.width at_k in
      let (old, at_i) = get_elem?-some b i (omega (arith, i_lt, usable-le-slots rs pos)) in
      let ((h', cells), run, stored) =
        insert_cells-Returns h t.columns 0 row.null_bitmap row.cells well bitmap_len (omega arith)
          supplied in
      filled-Inserted k (omega arith) room b at_k old at_i h' cells run stored
