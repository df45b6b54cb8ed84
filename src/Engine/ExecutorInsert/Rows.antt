-- ===== src/Engine/ExecutorInsert/Rows.antt =====
-- The loop of `build_row` of src/engine/executor_insert.c over the values, one for each column.
use midori_db.Prelude.{
  ℕ, ◌+◌, ◌<◌, ◌≤◌, ◌≡◌, refl, sym, ap, ◌∙◌, Bool, true, false, List, [], ◌∷◌, ◌++◌, append_assoc,
  length, length-append, replicate, get_elem?-append_length, set, set-append_length, none, some,
  ◌==◌, Bool-cases, inl, inr, if◌then◌else◌, if_true, if_false, ok, fault, segfault, Returns,
  bind-Returns, arith,
}
use mathlib.Core.Path.{subst}
use midori_db.Bit.{bit_test}
use midori_db.Bit.Bitmap.{IsBitmap, bit_clear-IsBitmap}
use midori_db.Heap.{Heap}
use midori_db.Primitive.Column.{Column}
use midori_db.Primitive.Row.{Cell, zero_cell, Row, bitmap_size}
use midori_db.Primitive.Row.Values.{Value, values, SuppliedCell, Supplied}
use midori_db.Engine.Database.{ReturnCode, midoridb_ok}
use midori_db.Engine.ExecutorInsert.Cells.{InsVal, ParseTime, value_cell}
use midori_db.Engine.ExecutorInsert.BuildRow.{
  ColumnOrder, element, column_at, put_cell, build_value, build_values,
}
use midori_db.Engine.ExecutorInsert.Built.{Storable, MadeCell, value_cell-Made}

-- A value for each column, and what it is there.
abbrev pub AllStorable : ParseTime → Heap → List Column → List InsVal → List Value → Type 0
AllStorable parse_time h [] [] [] = Unit
AllStorable parse_time h (column ∷ columns) (val ∷ vals) (v ∷ vs) =
    Storable parse_time h column val v × AllStorable parse_time h columns vals vs
AllStorable parse_time h _ _ _ = ⊥

-- A row with a cell more, and the null bit of its column.
record Put (row : Row) (done rest : List Cell) (i : ℕ) (is_null : Bool) (bits : ℕ → Bool)
    (cell : Cell) (out : ReturnCode × Row) : Type 0 where
  returns : out.0 ≡ midoridb_ok
  cells : out.1.cells ≡ done ++ cell ∷ rest
  bitmap : IsBitmap out.1.null_bitmap (λ j. if j == i then is_null else bits j)
  empty_same : out.1.empty ≡ row.empty
  deleted_same : out.1.deleted ≡ row.deleted

module _ (row : Row) (done rest : List Cell) (i : ℕ) (bits : ℕ → Bool) (old cell : Cell)
    (is : IsBitmap row.null_bitmap bits) (lt : i < 128) (null : bits i ≡ true)
    (cells : row.cells ≡ done ++ old ∷ rest) (at : i ≡ length done) where
  set_cells : set row.cells i cell ≡ done ++ cell ∷ rest
  set_cells = ap (λ cs. set cs i cell) cells ∙ set-append_length done old cell rest i at

  still_null : (j : ℕ) → bits j ≡ (if j == i then true else bits j)
  still_null j = elim (Bool-cases (j == i)) [
    | inl e ↦ let same : j ≡ i = ground (arith, e) in rw (e, same) null
    | inr e ↦ rw e refl
  ]

  put_cell-Put :
      (is_null : Bool)
      → Returns (put_cell row i is_null cell) (Put row done rest i is_null bits cell)
  unfolding put_cell
  put_cell-Put true = (
    (midoridb_ok, record row { cells = set row.cells i cell }),
    refl,
    record {
      returns = refl;
      cells = set_cells;
      bitmap = record {
        bytes = is.bytes;
        size = is.size;
        tests = λ j j_lt. is.tests j j_lt ∙ ap ok (still_null j);
      };
      empty_same = refl;
      deleted_same = refl;
    },
  )
  put_cell-Put false =
      let (bm, run, now) = bit_clear-IsBitmap row.null_bitmap bits is i lt in
      (
        (midoridb_ok, record row { null_bitmap = bm; cells = set row.cells i cell }),
        rw run refl,
        record {
          returns = refl;
          cells = set_cells;
          bitmap = now;
          empty_same = refl;
          deleted_same = refl;
        },
      )

-- The row after the values of the columns from `i` on, which stand behind `done`.
pub record BuiltFrom (h : Heap) (columns : List Column) (vs : List Value) (i : ℕ) (row : Row)
    (done : List Cell) (bits : ℕ → Bool) (out : ReturnCode × Row) : Type 0 where
  pub returns : out.0 ≡ midoridb_ok
  pub new : List Cell
  pub cells : out.1.cells ≡ done ++ new
  pub bits_now : ℕ → Bool
  pub bitmap : IsBitmap out.1.null_bitmap bits_now
  pub before : (j : ℕ) → j < i → bits_now j ≡ bits j
  pub stored : values h columns i out.1.null_bitmap new ≡ vs
  pub supplied : Supplied h columns i out.1.null_bitmap new
  pub empty_same : out.1.empty ≡ row.empty
  pub deleted_same : out.1.deleted ≡ row.deleted

-- The row after one value and then the others.
module _ (h : Heap) (column : Column) (columns : List Column) (val : InsVal) (v : Value)
    (vs : List Value) (row : Row) (done rest : List Cell) (i : ℕ) (bits : ℕ → Bool) (cell : Cell)
    (lt : i < 128) (made : MadeCell h column val v (midoridb_ok, cell)) (out : ReturnCode × Row)
    (put : Put row done rest i val.value_type.is_null bits cell out) where
  abbrev bits_put : ℕ → Bool
  bits_put j = if j == i then val.value_type.is_null else bits j

  bit_put : bits_put i ≡ val.value_type.is_null
  bit_put = if_true (i == i) _ _ (ground arith)

  bits_before : (j : ℕ) → j < i → bits_put j ≡ bits j
  bits_before j lt = if_false (j == i) _ _ (ground arith)

  bits_behind : (j : ℕ) → i < j → bits_put j ≡ bits j
  bits_behind j lt = if_false (j == i) _ _ (ground arith)

  module _ (r : ReturnCode × Row)
      (tail : BuiltFrom h columns vs (i + 1) (out.1) (done ++ cell ∷ []) bits_put r) where
    bit_now : bit_test (r.1.null_bitmap) i bitmap_size ≡ ok val.value_type.is_null
    bit_now = tail.bitmap.tests i lt ∙ ap ok (tail.before i (omega arith) ∙ bit_put)

    values_now : values h (column ∷ columns) i (r.1.null_bitmap) (cell ∷ tail.new) ≡ v ∷ vs
    unfolding values
    values_now = rw (bit_now, tail.stored) (ap (λ x. x ∷ vs) made.stored)

    join-BuiltFrom : BuiltFrom h (column ∷ columns) (v ∷ vs) i row done bits r
    join-BuiltFrom = record {
      returns = tail.returns;
      new = cell ∷ tail.new;
      cells = tail.cells ∙ append_assoc done (cell ∷ []) tail.new;
      bits_now = tail.bits_now;
      bitmap = tail.bitmap;
      before = λ j lt. tail.before j (omega arith) ∙ bits_before j lt;
      stored = values_now;
      supplied =
          (subst (λ o. SuppliedCell h column o cell) (sym bit_now) made.supplied, tail.supplied);
      empty_same = tail.empty_same ∙ put.empty_same;
      deleted_same = tail.deleted_same ∙ put.deleted_same;
    }

module _ (parse_time : ParseTime) (h : Heap) (all : List Column) (column_order : ColumnOrder)
    (natural : (i : ℕ) → i < length all → column_at column_order i ≡ ok i)
    (few : length all ≤ 128) where
  element-found {ℓ} :
      {A : Type ℓ} (xs ys : List A) (y : A) (i : ℕ)
      → i ≡ length xs
      → element (xs ++ y ∷ ys) i ≡ ok y
  element-found xs ys y i at =
      ap (λ o. elim o [ none ↦ fault segfault | some x ↦ ok x ])
        (get_elem?-append_length xs y ys i at)

  build_value-Put :
      (pre columns : List Column) (column : Column) (val : InsVal) (v : Value) (row : Row)
      (done rest : List Cell) (i : ℕ) (bits : ℕ → Bool)
      → all ≡ pre ++ column ∷ columns
      → i ≡ length pre
      → i ≡ length done
      → row.cells ≡ done ++ zero_cell ∷ rest
      → IsBitmap row.null_bitmap bits
      → bits i ≡ true
      → Storable parse_time h column val v
      → (cell : Cell) × MadeCell h column val v (midoridb_ok, cell)
        × Returns
            (build_value parse_time all column_order i row val)
            (Put row done rest i val.value_type.is_null bits cell)
  unfolding build_value
  build_value-Put pre columns column val v row done rest i bits split at_pre at_done cells is null
        storable =
      let inside : i < length all =
        omega (arith, ap length split, length-append pre (column ∷ columns), at_pre) in
      let at_column : element all i ≡ ok column =
        ap (λ cs. element cs i) split ∙ element-found pre columns column i at_pre in
      let at_cell : element row.cells i ≡ ok zero_cell =
        ap (λ cs. element cs i) cells ∙ element-found done rest zero_cell i at_done in
      let (out, run, made) = value_cell-Made parse_time h column val v storable in
      let made_run : value_cell parse_time column zero_cell val ≡ ok (midoridb_ok, out.1) =
        run ∙ ap (λ rc. ok (rc, out.1)) made.returns in
      let (put_out, put_run, put) =
        put_cell-Put row done rest i bits zero_cell (out.1) is (omega (arith, inside, few)) null
          cells at_done val.value_type.is_null in
      (
        out.1,
        record { returns = refl; stored = made.stored; supplied = made.supplied },
        (put_out, rw (natural i inside, at_column, at_cell, made_run) put_run, put),
      )

  pub build_values-Built :
      (pre columns : List Column) (vals : List InsVal) (vs : List Value) (row : Row)
      (done : List Cell) (i : ℕ) (bits : ℕ → Bool)
      → all ≡ pre ++ columns
      → i ≡ length pre
      → i ≡ length done
      → row.cells ≡ done ++ replicate (length columns) zero_cell
      → IsBitmap row.null_bitmap bits
      → ((j : ℕ) → i ≤ j → j < length all → bits j ≡ true)
      → AllStorable parse_time h columns vals vs
      → Returns
          (build_values parse_time all column_order i row vals)
          (BuiltFrom h columns vs i row done bits)
  unfolding build_values values
  build_values-Built pre [] [] [] row done i bits split at_pre at_done cells is null storable = (
    (midoridb_ok, row),
    refl,
    record {
      returns = refl;
      new = [];
      cells = cells;
      bits_now = bits;
      bitmap = is;
      before = λ j lt. refl;
      stored = refl;
      supplied = tt;
      empty_same = refl;
      deleted_same = refl;
    },
  )
  build_values-Built pre [] [] (v ∷ vs) row done i bits split at_pre at_done cells is null
        storable =
      elim storable [ ]
  build_values-Built pre [] (val ∷ vals) vs row done i bits split at_pre at_done cells is null
        storable =
      elim storable [ ]
  build_values-Built pre (column ∷ columns) [] vs row done i bits split at_pre at_done cells is null
        storable =
      elim storable [ ]
  build_values-Built pre (column ∷ columns) (val ∷ vals) [] row done i bits split at_pre at_done
        cells is null storable =
      elim storable [ ]
  build_values-Built pre (column ∷ columns) (val ∷ vals) (v ∷ vs) row done i bits split at_pre
        at_done cells is null storable =
      let inside : i < length all =
        omega (arith, ap length split, length-append pre (column ∷ columns), at_pre) in
      let (cell, made, built) =
        build_value-Put pre columns column val v row done (replicate (length columns) zero_cell) i
          bits split at_pre at_done cells is (null i (omega arith) inside) (storable.0) in
      bind-Returns (build_value parse_time all column_order i row val) _ built (λ out put.
        rw (put.returns) (
          let (r, run, tail) =
            build_values-Built (pre ++ column ∷ []) columns vals vs (out.1) (done ++ cell ∷ [])
              (i + 1) _ (split ∙ sym (append_assoc pre (column ∷ []) columns))
              (omega (arith, length-append pre (column ∷ []), at_pre))
              (omega (arith, length-append done (cell ∷ []), at_done))
              (put.cells
                ∙ sym (append_assoc done (cell ∷ []) (replicate (length columns) zero_cell)))
              put.bitmap (λ j le lt. if_false (j == i) _ _ (ground arith) ∙ null j (omega arith) lt)
              (storable.1) in
          (
            r,
            run,
            join-BuiltFrom h column columns val v vs row done (replicate (length columns) zero_cell)
                i bits cell (omega (arith, inside, few)) made out put r tail,
          )))
