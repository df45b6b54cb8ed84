-- ===== src/Primitive/Table/Laws.antt =====
-- `table_insert_row` of src/primitive/row.c, on every path.
use midori_db.Prelude.{
  ◌<◌, ◌≤◌, ◌≡◌, ap, ◌∙◌, Bool, true, false, not, ◌||◌, List, [], ◌∷◌, ◌++◌, length, length-append,
  ◌==◌, Bool-cases, inl, inr, Returns, arith,
}
use midori_db.Primitive.Column.{table_calc_row_size}
use midori_db.Primitive.Column.Laws.{row_size_pos}
use midori_db.Heap.{Heap}
use midori_db.Primitive.Row.{Row, bitmap_size}
use midori_db.Primitive.Row.Values.{IsHeap, Supplied}
use midori_db.Primitive.Table.{
  Table, is_empty, should_alloc, fill_row, table_insert_row, table_datablock_init,
}
use midori_db.Primitive.Table.Grow.{grown, grown-live, grown-IsValid}
use midori_db.Primitive.Table.Insert.{Inserted, fill-Inserted}
use midori_db.Primitive.Table.Valid.{IsValid, row_size_of}

not_empty {ℓ} : {A : Type ℓ} (xs : List A) → is_empty xs ≡ false → 0 < length xs
not_empty [] e = absurd (cc e)
not_empty (x ∷ xs) e = omega arith

right_size :
    (t : Table)
    → (row_size_of t == 0 || not (row_size_of t == table_calc_row_size t.columns)) ≡ false
right_size t = ground (arith, row_size_pos t.columns)

module _ (granted : Bool) (h : Heap) (t : Table) (row : Row) where
  no_alloc :
      should_alloc t (row_size_of t) ≡ false
      → table_insert_row granted h t row (row_size_of t) ≡ fill_row h t row (row_size_of t)
  unfolding table_insert_row
  no_alloc e = rw (right_size t, e)

  alloc :
      should_alloc t (row_size_of t) ≡ true
      → granted ≡ true
      → table_insert_row granted h t row (row_size_of t) ≡ fill_row h (grown t) row (row_size_of t)
  unfolding table_insert_row
  alloc e g = rw (right_size t, e, g)

  from_grown :
      IsValid t → (r : Bool × Heap × Table) → Inserted h (grown t) row r → Inserted h t row r
  from_grown valid r d = record {
    new = d.new;
    returns = d.returns;
    rows = d.rows ∙ ap (λ rows. rows ++ d.new ∷ []) (grown-live t valid);
    bitmap = d.bitmap;
    same = d.same;
    fresh = d.fresh;
    extends = d.extends;
    valid = d.valid;
    columns = d.columns;
  }

  -- A row of its true length, whose bitmap has its size and whose texts are there and long
  -- enough, is inserted into a valid table of at most 128 columns, if a block that is needed is
  -- granted: the call returns true, the table is valid, and its rows are those before with one
  -- behind them that has the null bits and values of the caller's row, with new copies of its
  -- texts.
  pub table_insert_row-Inserted :
      IsHeap h
      → IsValid t
      → length row.null_bitmap ≡ bitmap_size
      → length t.columns ≤ 128
      → Supplied h t.columns 0 row.null_bitmap row.cells
      → (should_alloc t (row_size_of t) ≡ true → granted ≡ true)
      → Returns (table_insert_row granted h t row (row_size_of t)) (Inserted h t row)
  table_insert_row-Inserted well valid bitmap_len few supplied grants =
      elim (Bool-cases (should_alloc t (row_size_of t))) [
        | inl e ↦
            let (r, run, d) =
              fill-Inserted h (grown t) row well (grown-IsValid t valid) bitmap_len few supplied
                (omega
                  (arith, length-append t.blocks (table_datablock_init [] 0 (row_size_of t) ∷ [])))
                (omega (arith, valid.fits)) in
            (r, alloc e (grants e) ∙ run, from_grown valid r d)
        | inr e ↦
            let (r, run, d) =
              fill-Inserted h t row well valid bitmap_len few supplied
                (not_empty t.blocks (ground (arith, e))) (ground (arith, e)) in
            (r, no_alloc e ∙ run, d)
      ]
