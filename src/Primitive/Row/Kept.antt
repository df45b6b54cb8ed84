-- ===== src/Primitive/Row/Kept.antt =====
-- The values of a row stay while the heap grows: src/primitive/row.c stores each text anew.
use midori_db.Prelude.{
  ℕ, ◌+◌, ◌≤◌, ◌≡◌, refl, ap, Bool, true, false, List, [], ◌∷◌, take, All, Bool-cases, inl, inr,
  if◌then◌else◌, Outcome, ok, fault,
}
use mathlib.Core.Option
use midori_db.Bit.{bit_test}
use midori_db.Heap.{Heap}
use midori_db.Primitive.Column.{Column, table_check_var_column}
use midori_db.Primitive.Row.{Cell, bitmap_size, var_pointers, first_cell, other_cells}
use midori_db.Primitive.Row.Values.{text, value, values, Extends}

-- Texts in use stay.
value-below :
    {h h' : Heap} (column : Column) (bit : Outcome Bool) (cell : Cell)
    → Extends h h'
    → (table_check_var_column column ≡ true → cell.pointer ≤ h.next)
    → value h' column bit cell ≡ value h column bit cell
unfolding value
value-below column (ok true) cell x below = refl
value-below {h} {h'} column (ok false) cell x below =
    elim (Bool-cases (table_check_var_column column)) [
      | inr f ↦ rw f refl
      | inl v ↦
          rw v
            (ap (λ o. text (Option.map (take column.precision) o)) (x.kept cell.pointer (below v)))
    ]
value-below {h} {h'} column (fault e) cell x below =
    elim (Bool-cases (table_check_var_column column)) [
      | inr f ↦ rw f refl
      | inl v ↦
          rw v
            (ap (λ o. text (Option.map (take column.precision) o)) (x.kept cell.pointer (below v)))
    ]

pub values-below :
    {h h' : Heap} (columns : List Column) (idx : ℕ) (bitmap : List ℕ) (cells : List Cell)
    → Extends h h'
    → All (λ p. p ≤ h.next) (var_pointers columns cells)
    → values h' columns idx bitmap cells ≡ values h columns idx bitmap cells
unfolding values var_pointers
values-below [] idx bitmap cells x below = refl
values-below {h} {h'} (column ∷ columns) idx bitmap cells x below =
    let rest = var_pointers columns (other_cells cells) in
    let split : (table_check_var_column column ≡ true → (first_cell cells).pointer ≤ h.next)
        × All (λ p. p ≤ h.next) rest =
      split_pointers (table_check_var_column column) _ rest below in
    rw (values-below columns (idx + 1) bitmap (other_cells cells) x (split.1)) (
      ap (λ v. v ∷ values h columns (idx + 1) bitmap (other_cells cells))
        (value-below column (bit_test bitmap idx bitmap_size) (first_cell cells) x (split.0)))
  where
    split_pointers :
        (var : Bool) (p : ℕ) (ps : List ℕ)
        → All (λ p. p ≤ h.next) (if var then p ∷ ps else ps)
        → (var ≡ true → p ≤ h.next) × All (λ p. p ≤ h.next) ps
    split_pointers true p ps all = (λ _. all.0, all.1)
    split_pointers false p ps all = (λ e. absurd (cc e), all)
