-- ===== src/Primitive/Row/Values.antt =====
-- What rows hold, read through the heap: the values that the columns of a row have.
use midori_db.Prelude.{
  ℕ, ◌+◌, ◌/◌, ◌%◌, ◌<◌, ◌≤◌, ◌≡◌, ◌∙◌, Bool, true, false, List, [], ◌∷◌, length, take, Option,
  some, none, leb, if◌then◌else◌, get_elem?-some, Outcome, ok, Bool-cases, inl, inr, arith,
}
use mathlib.Core.Option
use midori_db.Bit.{bit_test}
use midori_db.Bit.Laws.{bit_of, bit_test_lem}
use midori_db.Primitive.Column.{Column, table_check_var_column}
use midori_db.Heap.{Heap}
use midori_db.Primitive.Row.{Cell, bitmap_size, first_cell, other_cells}

-- No address above `next` is in use.
abbrev pub IsHeap : Heap → Type 0
IsHeap h = (p : ℕ) → h.next < p → h.texts p ≡ none

-- What a column of a row holds.
pub data Value : Type 0 where
  null : Value
  fixed : List ℕ → Value
  text : Option (List ℕ) → Value

-- The value of a column. Of a text only the bytes up to the column's precision count.
unfoldable pub value : Heap → Column → Outcome Bool → Cell → Value
value h column (ok true) cell = null
value h column _ cell =
    if table_check_var_column column
    then text (Option.map (take column.precision) (h.texts cell.pointer))
    else fixed cell.bytes

unfoldable pub values : Heap → List Column → ℕ → List ℕ → List Cell → List Value
unfolding value
values h [] idx bitmap cells = []
values h (column ∷ columns) idx bitmap cells =
    value h column (bit_test bitmap idx bitmap_size) (first_cell cells)
    ∷ values h columns (idx + 1) bitmap (other_cells cells)

-- The texts that `table_insert_row` copies are there, and long enough.
abbrev pub SuppliedCell : Heap → Column → Outcome Bool → Cell → Type 0
SuppliedCell h column null_bit cell =
    table_check_var_column column ≡ true
    → null_bit ≡ ok false
    → (src : List ℕ) × (h.texts cell.pointer ≡ some src) × (column.precision ≤ length src)

abbrev pub Supplied : Heap → List Column → ℕ → List ℕ → List Cell → Type 0
Supplied h [] idx bitmap cells = Unit
Supplied h (column ∷ columns) idx bitmap cells =
    SuppliedCell h column (bit_test bitmap idx bitmap_size) (first_cell cells)
    × Supplied h columns (idx + 1) bitmap (other_cells cells)

-- Texts in use before are as they were.
pub record Extends (h h' : Heap) : Type 0 where
  pub heap : IsHeap h'
  pub grows : h.next ≤ h'.next
  pub kept : (p : ℕ) → p ≤ h.next → h'.texts p ≡ h.texts p

pub Extends-trans : {a b c : Heap} → Extends a b → Extends b c → Extends a c
Extends-trans x y = record {
  heap = y.heap;
  grows = omega (arith, x.grows, y.grows);
  kept = λ p le. y.kept p (omega (arith, x.grows)) ∙ x.kept p le;
}

pub in_use : (h : Heap) (p : ℕ) (t : List ℕ) → IsHeap h → h.texts p ≡ some t → p ≤ h.next
in_use h p t w e = elim (Bool-cases (leb p h.next)) [
  | inl le ↦ ground arith
  | inr gt ↦ absurd (cc (w p (ground arith)))
]

pub bit_at :
    (bitmap : List ℕ) (idx : ℕ)
    → length bitmap ≡ bitmap_size
    → idx < 128
    → (b : Bool) × (bit_test bitmap idx bitmap_size ≡ ok b)
bit_at bitmap idx len lt =
    let (b, e) = get_elem?-some bitmap (idx / 8) (omega arith) in
    (bit_of b (idx % 8), bit_test_lem bitmap idx bitmap_size b (omega arith) e)
