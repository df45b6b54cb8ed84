-- ===== src/Primitive/Row/Laws.antt =====
-- The row that `table_insert_row` stores has the values of the row that it is given.
use midori_db.Prelude.{
  ℕ, ◌+◌, ◌<◌, ◌≤◌, ◌≡◌, refl, ap, ◌∙◌, Bool, true, false, List, [], ◌∷◌, length, take, All,
  All-map, ok, Returns, Bool-cases, inl, inr, arith,
}
use mathlib.Core.Path.{subst}
use mathlib.Core.Option
use midori_db.Bit.{bit_test}
use midori_db.Primitive.Column.{Column, table_check_var_column}
use midori_db.Heap.{Heap}
use midori_db.Primitive.Row.{Cell, bitmap_size, insert_cells, first_cell, other_cells, var_pointers}
use midori_db.Primitive.Row.Values.{
  IsHeap, text, value, values, SuppliedCell, Supplied, Extends, Extends-trans, in_use, bit_at,
}
use midori_db.Primitive.Row.Texts.{StoredCell, insert_cell-Returns}

-- The cells that were stored, for the cells of the caller's row.
pub record StoredCells (h : Heap) (columns : List Column) (idx : ℕ) (bitmap : List ℕ)
    (cells : List Cell) (out : Heap × List Cell) : Type 0 where
  pub extends : Extends h out.0
  pub same : values out.0 columns idx bitmap out.1 ≡ values h columns idx bitmap cells
  pub fresh : All (λ p. (h.next < p) × (p ≤ out.0.next)) (var_pointers columns out.1)

value_below :
    {h h' : Heap} (column : Column) (b : Bool) (cell : Cell)
    → Extends h h'
    → (table_check_var_column column ≡ true → b ≡ false → cell.pointer ≤ h.next)
    → value h' column (ok b) cell ≡ value h column (ok b) cell
unfolding value
value_below column true cell x below = refl
value_below {h} {h'} column false cell x below = elim (Bool-cases (table_check_var_column column)) [
  | inr f ↦ rw f
  | inl v ↦
      rw v
        (ap (λ o. text (Option.map (take column.precision) o)) (x.kept cell.pointer (below v refl)))
]

supplied_below :
    {h : Heap} (column : Column) (b : Bool) (cell : Cell)
    → IsHeap h
    → SuppliedCell h column (ok b) cell
    → table_check_var_column column ≡ true
    → b ≡ false
    → cell.pointer ≤ h.next
supplied_below {h} column b cell well s v e =
    let (src, at, le) = s v (ap ok e) in in_use h cell.pointer src well at

module _ {h h' : Heap} (x : Extends h h') (well : IsHeap h) (bitmap : List ℕ)
    (len : length bitmap ≡ bitmap_size) where
  Supplied-kept :
      (columns : List Column) (idx : ℕ) (cells : List Cell)
      → Supplied h columns idx bitmap cells
      → Supplied h' columns idx bitmap cells
  Supplied-kept [] idx cells s = tt
  Supplied-kept (column ∷ columns) idx cells s = (
    λ v n.
        let (src, at, le) = s.0 v n in
        (
          src,
          x.kept (first_cell cells).pointer (in_use h (first_cell cells).pointer src well at) ∙ at,
          le,
        ),
    Supplied-kept columns (idx + 1) (other_cells cells) s.1,
  )

  values-kept :
      (columns : List Column) (idx : ℕ) (cells : List Cell)
      → idx + length columns ≤ 128
      → Supplied h columns idx bitmap cells
      → values h' columns idx bitmap cells ≡ values h columns idx bitmap cells
  unfolding values
  values-kept [] idx cells le s = refl
  values-kept (column ∷ columns) idx cells le s =
      let (b, e) = bit_at bitmap idx len (omega arith) in
      let here = subst (λ o. SuppliedCell h column o (first_cell cells)) e s.0 in
      rw (e, values-kept columns (idx + 1) (other_cells cells) (omega arith) s.1)
        (ap (λ v. v ∷ values h columns (idx + 1) bitmap (other_cells cells))
          (value_below column b (first_cell cells) x
            (supplied_below column b (first_cell cells) well here)))

module _ (h h' h'' : Heap) (column : Column) (columns : List Column) (idx : ℕ) (bitmap : List ℕ)
    (cells rest : List Cell) (cell : Cell) (b : Bool) (bit : bit_test bitmap idx bitmap_size ≡ ok b)
    (one : StoredCell h column (ok b) (first_cell cells) (h', cell))
    (others : StoredCells h' columns (idx + 1) bitmap (other_cells cells) (h'', rest))
    (kept : values h' columns (idx + 1) bitmap (other_cells cells)
      ≡ values h columns (idx + 1) bitmap (other_cells cells)) where
  join_same :
      values h'' (column ∷ columns) idx bitmap (cell ∷ rest)
      ≡ values h (column ∷ columns) idx bitmap cells
  unfolding values
  join_same =
      rw (bit, others.same, kept)
        (ap (λ v. v ∷ values h columns (idx + 1) bitmap (other_cells cells))
          (value_below column b cell others.extends (λ v _. (one.fresh v).1) ∙ one.same))

  join_fresh :
      All (λ p. (h.next < p) × (p ≤ h''.next)) (var_pointers (column ∷ columns) (cell ∷ rest))
  unfolding var_pointers
  join_fresh =
      let later =
        All-map {P = λ p. (h'.next < p) × (p ≤ h''.next)} {Q = λ p. (h.next < p) × (p ≤ h''.next)}
          (λ p q. (omega (arith, one.extends.grows), q.1)) (var_pointers columns rest)
          others.fresh in
      elim (Bool-cases (table_check_var_column column)) [
        | inr f ↦ rw f later
        | inl v ↦
            rw v (((one.fresh v).0, omega (arith, (one.fresh v).1, others.extends.grows)), later)
      ]

  join-StoredCells : StoredCells h (column ∷ columns) idx bitmap cells (h'', cell ∷ rest)
  join-StoredCells = record {
    extends = Extends-trans one.extends others.extends;
    same = join_same;
    fresh = join_fresh;
  }

-- On a heap whose use ends at `next`, with a bitmap of its 16 bytes and columns whose bits are in
-- it, the cells of a row whose texts are there and long enough are stored: the values of the
-- columns are those of the caller's row, each text is a new one, and the texts before are kept.
pub insert_cells-Returns :
    (h : Heap) (columns : List Column) (idx : ℕ) (bitmap : List ℕ) (cells : List Cell)
    → IsHeap h
    → length bitmap ≡ bitmap_size
    → idx + length columns ≤ 128
    → Supplied h columns idx bitmap cells
    → Returns (insert_cells h columns idx bitmap cells) (StoredCells h columns idx bitmap cells)
unfolding insert_cells values var_pointers
insert_cells-Returns h [] idx bitmap cells well len le supplied = (
  (h, []),
  refl,
  record {
    extends = record { heap = well; grows = omega arith; kept = λ q l. refl };
    same = refl;
    fresh = tt;
  },
)
insert_cells-Returns h (column ∷ columns) idx bitmap cells well len le supplied =
    let (b, e) = bit_at bitmap idx len (omega arith) in
    let here = subst (λ o. SuppliedCell h column o (first_cell cells)) e supplied.0 in
    let ((h', cell), run, one) =
      insert_cell-Returns h well column idx bitmap (first_cell cells) b e here in
    let later =
      Supplied-kept one.extends well bitmap len columns (idx + 1) (other_cells cells) supplied.1 in
    let ((h'', rest), runs, others) =
      insert_cells-Returns h' columns (idx + 1) bitmap (other_cells cells) one.extends.heap len
        (omega arith) later in
    (
      (h'', cell ∷ rest),
      rw run (rw runs),
      join-StoredCells h h' h'' column columns idx bitmap cells rest cell b e one others (
          values-kept one.extends well bitmap len columns (idx + 1) (other_cells cells)
            (omega arith) supplied.1),
    )
