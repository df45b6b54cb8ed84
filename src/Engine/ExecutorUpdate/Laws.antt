-- ===== src/Engine/ExecutorUpdate/Laws.antt =====
-- What an assignment of src/engine/executor_update.c leaves for the conditions on the row.
use midori_db.Prelude.{
  ℕ, zero, suc, ◌+◌, ◌<◌, ◌≤◌, ◌≡◌, refl, sym, ap, ◌∙◌, Bool, true, false, not, List, [], ◌∷◌, ◌++◌,
  length, take, drop, replicate, Option, none, some, if◌then◌else◌, ltb, ◌==◌, Bool-cases, inl, inr,
  if_true, if_false, ok, Returns, bind-Returns, arith,
}
use midori_db.Datastructure.Words.{of_bytes}
use midori_db.Bit.{bit_test, bit_set, bit_clear}
use midori_db.Bit.Bitmap.{IsBitmap, bit_set-IsBitmap, bit_clear-IsBitmap}
use midori_db.Heap.{Heap}
use midori_db.Primitive.Column.{integer, Column, table_calc_column_space}
use midori_db.Primitive.Name.{str_eq}
use midori_db.Primitive.Row.{Cell, Row, zero_cell, bitmap_size, first_cell, other_cells}
use midori_db.Engine.ExecutorDelete.Compare.{
  Platform, equals_op, int64_at, str_at, cmp_int_value_to_value,
}
use midori_db.Engine.ExecutorDelete.Fields.{
  Exprval, Field, find_field, null_bit, cmp_cell_to_value, cmp_field_to_value,
}
use midori_db.Engine.ExecutorDelete.Eval.{eval_isxnull}
use midori_db.Engine.ExecutorUpdate.Assign.{
  find_column, cell_at, place_cell, write_cell, set_cell, set_column, set_field_to_value,
}

find_column-place :
    (columns : List Column) (idx : ℕ) (name : List ℕ) (j : ℕ) (column : Column)
    → find_column columns idx name ≡ some (j, column)
    → (idx ≤ j) × (j < idx + length columns)
unfolding find_column
find_column-place [] idx name j column found = absurd (cc found)
find_column-place (col ∷ columns) idx name j column found =
    elim (Bool-cases (str_eq col.name name)) [
      | inl same ↦
          let here : idx ≡ j = cc (sym (if_true _ _ _ same) ∙ found) in
          (omega (arith, here), omega (arith, here))
      | inr other ↦
          let (le, lt) =
            find_column-place columns (idx + 1) name j column
              (sym (if_false _ _ _ other) ∙ found) in
          (omega (arith, le), omega (arith, lt))
    ]

first_cell-cell_at : (cells : List Cell) → first_cell cells ≡ cell_at cells 0
first_cell-cell_at [] = refl
first_cell-cell_at (cell ∷ cells) = refl

other_cells-cell_at :
    (cells : List Cell) (k : ℕ) → cell_at (other_cells cells) k ≡ cell_at cells (suc k)
other_cells-cell_at [] k = refl
other_cells-cell_at (cell ∷ cells) k = refl

cell_at-place_cell :
    (cells : List Cell) (k : ℕ) (new : Cell) → cell_at (place_cell cells k new) k ≡ new
cell_at-place_cell [] zero new = refl
cell_at-place_cell [] (suc k) new = cell_at-place_cell [] k new
cell_at-place_cell (cell ∷ cells) zero new = refl
cell_at-place_cell (cell ∷ cells) (suc k) new = cell_at-place_cell cells k new

add_zero : (n : ℕ) → n + 0 ≡ n
add_zero n = omega arith

-- What a loop over the columns finds.
abbrev field_at : ℕ → Column → Cell → Option Field
field_at i column cell = some (record { col_idx = i; kind = column.kind; cell = cell })

same_field :
    (i i' : ℕ) (column column' : Column) (cell cell' : Cell)
    → i ≡ i'
    → column ≡ column'
    → cell ≡ cell'
    → field_at i column cell ≡ field_at i' column' cell'
same_field i i' column column' cell cell' e_i e_column e_cell =
    ap (λ n. field_at n column cell) e_i
    ∙ ap (λ c. field_at i' c cell) e_column
    ∙ ap (λ c. field_at i' column' c) e_cell

-- The column that is found is the one whose cell a condition reads.
find_field-cell_at :
    (columns : List Column) (idx : ℕ) (cells : List Cell) (name : List ℕ) (k : ℕ) (column : Column)
    → find_column columns idx name ≡ some (idx + k, column)
    → find_field columns idx cells name ≡ field_at (idx + k) column (cell_at cells k)
unfolding find_column find_field
find_field-cell_at [] idx cells name k column found = absurd (cc found)
find_field-cell_at (col ∷ columns) idx cells name zero column found =
    elim (Bool-cases (str_eq col.name name)) [
      | inl same ↦
          let at : some (idx, col) ≡ some (idx + 0, column) = sym (if_true _ _ _ same) ∙ found in
          if_true _ _ _ same
          ∙ same_field idx (idx + 0) col column _ (cell_at cells 0) (sym (add_zero idx)) (cc at)
              (first_cell-cell_at cells)
      | inr other ↦
          let (past, _) =
            find_column-place columns (idx + 1) name (idx + 0) column
              (sym (if_false _ _ _ other) ∙ found) in
          absurd (omega (arith, past))
    ]
find_field-cell_at (col ∷ columns) idx cells name (suc k) column found =
    elim (Bool-cases (str_eq col.name name)) [
      | inl same ↦
          let here : idx ≡ idx + suc k = cc (sym (if_true _ _ _ same) ∙ found) in
          absurd (omega (arith, here))
      | inr other ↦
          let later : idx + suc k ≡ idx + 1 + k = omega arith in
          if_false _ _ _ other
          ∙ find_field-cell_at columns (idx + 1) (other_cells cells) name k column
              (sym (if_false _ _ _ other) ∙ found ∙ ap (λ i. some (i, column)) later)
          ∙ same_field (idx + 1 + k) (idx + suc k) column column _ (cell_at cells (suc k))
              (sym later) refl (other_cells-cell_at cells k)
    ]

take-take :
    (n : ℕ) (xs ys zs : List ℕ) → n ≤ length xs → take n (take n (xs ++ ys) ++ zs) ≡ take n xs
take-take zero xs ys zs le = refl
take-take (suc n) [] ys zs le = absurd (omega (arith, le))
take-take (suc n) (x ∷ xs) ys zs le = ap (λ t. x ∷ t) (take-take n xs ys zs (omega (arith, le)))

write_cell-int64_at :
    (column : Column) (cell : Cell) (bytes : List ℕ)
    → 8 ≤ table_calc_column_space column
    → 8 ≤ length bytes
    → Returns (write_cell 8 column cell bytes) (λ new. int64_at new.bytes ≡ int64_at bytes)
unfolding write_cell int64_at
write_cell-int64_at column cell bytes wide long =
    let fits : ltb (table_calc_column_space column) 8 ≡ false = ground (arith, wide) in
    (
      _,
      if_false _ _ _ fits,
      ap of_bytes (take-take 8 bytes (replicate 8 0) (drop 8 cell.bytes) long),
    )

int_equal : (a : ℕ) → cmp_int_value_to_value equals_op a a ≡ true
unfolding cmp_int_value_to_value
int_equal a = ground arith

place_cell-place_cell :
    (cells : List Cell) (k : ℕ) (new newer : Cell)
    → place_cell (place_cell cells k new) k newer ≡ place_cell cells k newer
place_cell-place_cell [] zero new newer = refl
place_cell-place_cell [] (suc k) new newer =
    ap (λ cs. zero_cell ∷ cs) (place_cell-place_cell [] k new newer)
place_cell-place_cell (cell ∷ cells) zero new newer = refl
place_cell-place_cell (cell ∷ cells) (suc k) new newer =
    ap (λ cs. cell ∷ cs) (place_cell-place_cell cells k new newer)

-- The 64 bits of the column of a name.
abbrev pub int_of_field : Option Field → Option ℕ
int_of_field none = none
int_of_field (some found) = some (int64_at found.cell.bytes)

abbrev pub int_of_column : List Column → List Cell → List ℕ → Option ℕ
int_of_column columns cells name = int_of_field (find_field columns 0 cells name)

-- What the assignment of a value to the column at place `j` leaves: = with the value and IS NULL as
-- the conditions see them, the 64 bits of the column, and the other cells.
abbrev pub Reads : Platform → List Column → Row → ℕ → Exprval → Exprval → Heap × Row → Type 0
Reads p columns row j field value out =
    (cmp_field_to_value p (out.0) columns (out.1) equals_op field value
      ≡ ok (not value.value_type.is_null))
    × (eval_isxnull columns (out.1) false (field ∷ []) ≡ ok value.value_type.is_null)
    × (int_of_column columns (out.1.cells) (str_at field.bytes) ≡ (
        if value.value_type.is_null
        then int_of_column columns row.cells (str_at field.bytes)
        else some (int64_at value.bytes)))
    × (place_cell (out.1.cells) j zero_cell ≡ place_cell row.cells j zero_cell)

module _ (p : Platform) (h : Heap) (columns : List Column) (row : Row) (field value : Exprval)
    (bits : ℕ → Bool) (bitmap : IsBitmap row.null_bitmap bits) (few : length columns ≤ 128) (j : ℕ)
    (column : Column) (found : find_column columns 0 (str_at field.bytes) ≡ some (j, column))
    (kind : column.kind ≡ integer) (wide : 8 ≤ table_calc_column_space column)
    (long : 8 ≤ length value.bytes) where
  inside : j < 128
  inside = omega (arith, (find_column-place columns 0 (str_at field.bytes) j column found).1, few)

  found_field :
      (cells : List Cell)
      → find_field columns 0 cells (str_at field.bytes) ≡ field_at j column (cell_at cells j)
  found_field cells =
      let at : 0 + j ≡ j = omega arith in
      find_field-cell_at columns 0 cells (str_at field.bytes) j column
        (found ∙ ap (λ i. some (i, column)) (sym at))
      ∙ same_field (0 + j) j column column _ _ at refl refl

  int_found :
      (cells : List Cell)
      → int_of_column columns cells (str_at field.bytes) ≡ some (int64_at (cell_at cells j).bytes)
  int_found cells = ap int_of_field (found_field cells)

  at_j : (j == j) ≡ true
  at_j = ground arith

  set_null :
      value.value_type.is_null ≡ true
      → Returns (set_column p h row j column value) (λ out.
        (bit_test (out.1.null_bitmap) j bitmap_size ≡ ok true) × (out.1.cells ≡ row.cells))
  unfolding set_column
  set_null null_value =
      bind-Returns (bit_clear row.null_bitmap j bitmap_size) _
        (bit_clear-IsBitmap row.null_bitmap bits bitmap j inside)
        (λ cleared is. rw null_value (
          bind-Returns (bit_set cleared j bitmap_size) _ (bit_set-IsBitmap cleared _ is j inside)
            (λ set_bitmap is_set.
              (_, refl, (is_set.tests j inside ∙ ap ok (if_true _ _ _ at_j), refl)))))

  set_value :
      value.value_type.is_null ≡ false
      → Returns (set_column p h row j column value) (λ out.
        (bit_test (out.1.null_bitmap) j bitmap_size ≡ ok false)
        × (int64_at (cell_at (out.1.cells) j).bytes ≡ int64_at value.bytes)
        × (place_cell (out.1.cells) j zero_cell ≡ place_cell row.cells j zero_cell))
  unfolding set_column set_cell
  set_value some_value =
      let (new, writes, reads) =
        write_cell-int64_at column (cell_at row.cells j) value.bytes wide long in
      bind-Returns (bit_clear row.null_bitmap j bitmap_size) _
        (bit_clear-IsBitmap row.null_bitmap bits bitmap j inside)
        (λ cleared is.
          rw (some_value, set_cell, kind)
            (rw writes (
              _,
              refl,
              (
                is.tests j inside ∙ ap ok (if_true _ _ _ at_j),
                ap (λ (c : Cell). int64_at c.bytes) (cell_at-place_cell row.cells j new) ∙ reads,
                place_cell-place_cell row.cells j new zero_cell,
              ),
            )))

  null_bit-found :
      (r : Row)
      → null_bit r (find_field columns 0 r.cells (str_at field.bytes))
        ≡ bit_test r.null_bitmap j bitmap_size
  unfolding null_bit
  null_bit-found r = rw (found_field r.cells) refl

  isxnull-bit :
      (r : Row) (b : Bool)
      → bit_test r.null_bitmap j bitmap_size ≡ ok b
      → eval_isxnull columns r false (field ∷ []) ≡ ok b
  unfolding eval_isxnull
  isxnull-bit r true bit = rw (null_bit-found r ∙ bit) refl
  isxnull-bit r false bit = rw (null_bit-found r ∙ bit) refl

  equals-null :
      (h' : Heap) (r : Row)
      → bit_test r.null_bitmap j bitmap_size ≡ ok true
      → cmp_field_to_value p h' columns r equals_op field value ≡ ok false
  unfolding cmp_field_to_value
  equals-null h' r bit = rw (null_bit-found r ∙ bit) refl

  equals-value :
      (h' : Heap) (r : Row)
      → bit_test r.null_bitmap j bitmap_size ≡ ok false
      → value.value_type.is_null ≡ false
      → int64_at (cell_at r.cells j).bytes ≡ int64_at value.bytes
      → cmp_field_to_value p h' columns r equals_op field value ≡ ok true
  unfolding cmp_field_to_value cmp_cell_to_value
  equals-value h' r bit some_value same =
      rw (null_bit-found r ∙ bit, some_value, found_field r.cells, cmp_cell_to_value, kind, same)
        (ap ok (int_equal (int64_at value.bytes)))

  -- An assignment to an integer column of 8 bytes, of at most 128 columns, on a row whose bitmap has
  -- its 16 bytes, where the value has its 8 bytes or more, returns: then the 64 bits of the column are
  -- those of the value, or as before if the value is NULL, the other cells are as before, = with the
  -- value holds unless it is NULL, and IS NULL holds of the column exactly if the value is NULL.
  pub set_field_to_value-Reads :
      Returns
        (set_field_to_value p h columns row (str_at field.bytes) value)
        (Reads p columns row j field value)
  unfolding set_field_to_value
  set_field_to_value-Reads =
      rw (set_field_to_value, found)
        (elim (Bool-cases value.value_type.is_null) [
          | inl null_value ↦
              let (out, runs, (bit, kept)) = set_null null_value in
              (
                out,
                runs,
                (
                  equals-null (out.0) (out.1) bit ∙ ap (λ b. ok (not b)) (sym null_value),
                  isxnull-bit (out.1) true bit ∙ ap ok (sym null_value),
                  ap (λ cs. int_of_column columns cs (str_at field.bytes)) kept
                      ∙ sym (if_true _ _ _ null_value),
                  ap (λ cs. place_cell cs j zero_cell) kept,
                ),
              )
          | inr some_value ↦
              let (out, runs, (bit, same, others)) = set_value some_value in
              (
                out,
                runs,
                (
                  equals-value (out.0) (out.1) bit some_value same
                      ∙ ap (λ b. ok (not b)) (sym some_value),
                  isxnull-bit (out.1) false bit ∙ ap ok (sym some_value),
                  int_found (out.1.cells) ∙ ap some same ∙ sym (if_false _ _ _ some_value),
                  others,
                ),
              )
        ])
