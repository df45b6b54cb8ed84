-- ===== src/Engine/ExecutorInsert/Laws.antt =====
-- An INSERT of src/engine/executor_insert.c without a list of columns appends its rows to the table.
use midori_db.Prelude.{
  ◌<◌, ◌≤◌, ◌≡◌, refl, sym, ap, ◌∙◌, Bool, true, false, List, [], ◌∷◌, ◌++◌, length, replicate, All,
  All-map, none, ok, Returns, arith,
}
use mathlib.Core.Path.{subst}
use midori_db.Heap.{Heap}
use midori_db.Primitive.Column.{Column}
use midori_db.Primitive.Row.{zero_cell, Row, bitmap_size, var_pointers}
use midori_db.Primitive.Row.Values.{Value, values, Supplied, IsHeap, Extends}
use midori_db.Primitive.Table.{Table}
use midori_db.Primitive.Table.Insert.{Inserted}
use midori_db.Primitive.Table.Laws.{table_insert_row-Inserted}
use midori_db.Primitive.Table.Slots.{all_rows, live}
use midori_db.Primitive.Table.Valid.{IsValid}
use midori_db.Engine.Database.{ReturnCode, midoridb_ok}
use midori_db.Engine.ExecutorInsert.Cells.{InsVal, ParseTime}
use midori_db.Engine.ExecutorInsert.BuildRow.{ColumnOrder, build_row}
use midori_db.Engine.ExecutorInsert.Start.{no_bits, set_nulls-Nulls, natural_order-column_at}
use midori_db.Engine.ExecutorInsert.Rows.{AllStorable, build_values-Built}
use midori_db.Engine.ExecutorInsert.Run.{natural_order, insert_values}

-- The order of the columns where the statement lists none.
abbrev pub natural : List Column → ColumnOrder
natural columns = natural_order 0 columns (replicate 128 none)

-- A row with the values `vs`.
pub record BuiltRow (h : Heap) (columns : List Column) (vs : List Value) (out : ReturnCode × Row)
    : Type 0 where
  pub returns : out.0 ≡ midoridb_ok
  pub size : length out.1.null_bitmap ≡ bitmap_size
  pub stored : values h columns 0 out.1.null_bitmap out.1.cells ≡ vs
  pub supplied : Supplied h columns 0 out.1.null_bitmap out.1.cells

module _ (parse_time : ParseTime) (h : Heap) (columns : List Column) (vals : List InsVal)
    (vs : List Value) (few : length columns ≤ 128)
    (storable : AllStorable parse_time h columns vals vs) where
  pub build_row-Built :
      Returns (build_row parse_time columns vals (natural columns)) (BuiltRow h columns vs)
  unfolding build_row
  build_row-Built =
      let (bm, run, nulls) =
        set_nulls-Nulls columns 0 (replicate 16 0) (λ _. false) no_bits (omega (arith, few)) in
      let start : Row = record {
        empty = false;
        deleted = false;
        null_bitmap = bm;
        cells = replicate (length columns) zero_cell;
      } in
      let (out, runs, built) =
        build_values-Built parse_time h columns (natural columns)
          (λ k lt. natural_order-column_at columns k few lt) few [] columns vals vs start [] 0
          nulls.bits_now refl refl refl refl nulls.bitmap
          (λ j le lt. nulls.null j le (omega (arith, lt))) storable in
      (
        out,
        rw run runs,
        record {
          returns = built.returns;
          size = built.bitmap.size;
          stored = ap (values h columns 0 out.1.null_bitmap) built.cells ∙ built.stored;
          supplied =
              subst (Supplied h columns 0 out.1.null_bitmap) (sym built.cells) built.supplied;
        },
      )

  -- The table and heap after one list of values.
  pub record InsertedValues (t : Table) (out : ReturnCode × Heap × Table) : Type 0 where
    pub returns : out.0 ≡ midoridb_ok
    pub new : Row
    pub rows : live (all_rows out.2.blocks) ≡ live (all_rows t.blocks) ++ new ∷ []
    pub stored : values out.1 columns 0 new.null_bitmap new.cells ≡ vs
    pub below : All (λ p. p ≤ out.1.next) (var_pointers columns new.cells)
    pub extends : Extends h out.1
    pub valid : IsValid out.2
    pub columns_same : out.2.columns ≡ columns

  from_Inserted :
      (t : Table) (row : Row) (r : Bool × Heap × Table)
      → t.columns ≡ columns
      → values h columns 0 row.null_bitmap row.cells ≡ vs
      → Inserted h t row r
      → InsertedValues t (midoridb_ok, r.1, r.2)
  from_Inserted t row r same stored d = record {
    returns = refl;
    new = d.new;
    rows = d.rows;
    stored =
        ap (λ bm. values (r.1) columns 0 bm d.new.cells) d.bitmap
        ∙ ap (λ cs. values (r.1) cs 0 row.null_bitmap d.new.cells) (sym same)
        ∙ d.same
        ∙ ap (λ cs. values h cs 0 row.null_bitmap row.cells) same
        ∙ stored;
    below =
        subst (λ cs. All (λ p. p ≤ r.1.next) (var_pointers cs d.new.cells)) same
          (All-map {P = λ p. (h.next < p) × (p ≤ r.1.next)} {Q = λ p. p ≤ r.1.next} (λ p q. q.1)
            (var_pointers t.columns d.new.cells) d.fresh);
    extends = d.extends;
    valid = d.valid;
    columns_same = d.columns ∙ same;
  }

  pub insert_values-Inserted :
      (granted : Bool) (t : Table)
      → granted ≡ true
      → t.columns ≡ columns
      → IsHeap h
      → IsValid t
      → Returns (insert_values parse_time granted h t (natural columns) vals) (InsertedValues t)
  unfolding insert_values
  insert_values-Inserted granted t grant same heap valid =
      let (out, run, built) = build_row-Built in
      let run_t : build_row parse_time t.columns vals (natural columns) ≡ ok (midoridb_ok, out.1) =
        ap (λ cs. build_row parse_time cs vals (natural columns)) same
        ∙ run
        ∙ ap (λ rc. ok (rc, out.1)) built.returns in
      let supplied : Supplied h t.columns 0 out.1.null_bitmap out.1.cells =
        subst (λ cs. Supplied h cs 0 out.1.null_bitmap out.1.cells) (sym same) built.supplied in
      let few_t : length t.columns ≤ 128 = omega (arith, few, ap length same) in
      let (r, ran, d) =
        table_insert_row-Inserted granted h t (out.1) heap valid built.size few_t supplied
          (λ _. grant) in
      (
        (midoridb_ok, r.1, r.2),
        rw (run_t, ran, d.returns) refl,
        from_Inserted t (out.1) r same built.stored d,
      )
