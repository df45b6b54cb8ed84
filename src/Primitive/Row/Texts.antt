-- ===== src/Primitive/Row/Texts.antt =====
-- One cell that `table_insert_row` stores: a fixed column is kept, a text is copied.
use midori_db.Prelude.{
  ℕ, zero, suc, ◌<◌, ◌≤◌, ◌≡◌, refl, sym, ap, ◌∙◌, Bool, true, false, List, [], ◌∷◌, length, take,
  replicate, length-replicate, some, Outcome, ok, Returns, Bool-cases, inl, inr, arith,
}
use mathlib.Core.Path.{subst}
use mathlib.Core.Option
use midori_db.Bit.{bit_test}
use midori_db.Primitive.Column.{Column, table_check_var_column}
use midori_db.Heap.{Heap, store, load, memcpy, copy_text}
use midori_db.Primitive.Row.{Cell, bitmap_size, insert_var_cell, insert_cell}
use midori_db.Primitive.Row.Values.{IsHeap, text, value, SuppliedCell, Extends, in_use}

-- A cell that was stored, for a cell `cell` of the caller's row.
pub record StoredCell (h : Heap) (column : Column) (null_bit : Outcome Bool) (cell : Cell)
    (out : Heap × Cell) : Type 0 where
  pub extends : Extends h out.0
  pub same : value out.0 column null_bit out.1 ≡ value h column null_bit cell
  pub fresh :
      table_check_var_column column ≡ true → (h.next < out.1.pointer) × (out.1.pointer ≤ out.0.next)

take-take : (n : ℕ) (xs : List ℕ) → take n (take n xs) ≡ take n xs
take-take zero xs = refl
take-take (suc n) [] = refl
take-take (suc n) (x ∷ xs) = ap (λ t. x ∷ t) (take-take n xs)

memcpy-take :
    (dst src : List ℕ) (size : ℕ)
    → length dst ≡ size
    → size ≤ length src
    → memcpy dst src size ≡ ok (take size src)
unfolding memcpy
memcpy-take [] src zero e h = refl
memcpy-take [] src (suc size) e h = absurd (omega arith)
memcpy-take (d ∷ dst) src zero e h = absurd (omega arith)
memcpy-take (d ∷ dst) [] (suc size) e h = absurd (omega arith)
memcpy-take (d ∷ dst) (s ∷ src) (suc size) e h =
    rw (memcpy-take dst src size (omega arith) (omega arith))

load_lem : (h : Heap) (q : ℕ) (t : List ℕ) → h.texts q ≡ some t → load h q ≡ ok t
unfolding load
load_lem h q t e = rw (e, load)

copy_text_lem :
    (h : Heap) (to from size : ℕ) (src dst : List ℕ) {copied : List ℕ}
    → h.texts from ≡ some src
    → h.texts to ≡ some dst
    → memcpy dst src size ≡ ok copied
    → copy_text h to from size ≡ ok (store h to copied)
unfolding copy_text
copy_text_lem h to from size src dst es ed e =
    rw (load_lem h from src es, load_lem h to dst ed) (rw e)

module _ (h : Heap) (well : IsHeap h) (column : Column) where
  address : ℕ
  address = suc h.next

  h₁ : Heap
  h₁ = store (record h { next = suc h.next }) (suc h.next) (replicate column.precision 0)

  stored_text : List ℕ → Heap
  stored_text t = store h₁ address t

  h₁-Extends : Extends h h₁
  unfolding h₁
  h₁-Extends = record {
    heap = λ q lt. ground (arith, well q);
    grows = omega arith;
    kept = λ q le. ground arith;
  }

  stored_text-Extends : (t : List ℕ) → Extends h (stored_text t)
  unfolding stored_text h₁ address
  stored_text-Extends t = record {
    heap = λ q lt. ground (arith, well q);
    grows = omega arith;
    kept = λ q le. ground arith;
  }

  zeros_at : h₁.texts address ≡ some (replicate column.precision 0)
  unfolding h₁ address
  zeros_at = ground arith

  stored_at : (t : List ℕ) → (stored_text t).texts address ≡ some t
  unfolding stored_text h₁ address
  stored_at t = ground arith

  null_cell :
      (cell : Cell)
      → table_check_var_column column ≡ true
      → StoredCell h column (ok true) cell (h₁, record { bytes = []; pointer = address })
  unfolding value h₁ address
  null_cell cell v = record { extends = h₁-Extends; same = refl; fresh = λ _. omega arith }

  text_cell :
      (cell : Cell) (src : List ℕ)
      → table_check_var_column column ≡ true
      → h.texts cell.pointer ≡ some src
      → StoredCell h column
          (ok false)
          cell
          (stored_text (take column.precision src), record { bytes = []; pointer = address })
  unfolding value stored_text h₁ address
  text_cell cell src v e = record {
    extends = stored_text-Extends (take column.precision src);
    same = rw v (
        ap (λ o. text (Option.map (take column.precision) o))
          (stored_at (take column.precision src))
        ∙ ap (λ t. text (some t)) (take-take column.precision src)
        ∙ sym (ap (λ o. text (Option.map (take column.precision) o)) e));
    fresh = λ _. omega arith;
  }

  copy_lem :
      (cell : Cell) (src : List ℕ)
      → h.texts cell.pointer ≡ some src
      → column.precision ≤ length src
      → copy_text h₁ address cell.pointer column.precision
        ≡ ok (stored_text (take column.precision src))
  unfolding stored_text
  copy_lem cell src e le =
      copy_text_lem h₁ address cell.pointer column.precision src (replicate column.precision 0)
        (h₁-Extends.kept cell.pointer (in_use h cell.pointer src well e) ∙ e) zeros_at
        (memcpy-take (replicate column.precision 0) src column.precision
          (length-replicate column.precision 0) le)

  fixed_cell :
      (cell : Cell) (b : Bool)
      → table_check_var_column column ≡ false
      → StoredCell h column (ok b) cell (h, cell)
  fixed_cell cell b f = record {
    extends = record { heap = well; grows = omega arith; kept = λ q le. refl };
    same = refl;
    fresh = λ v. absurd (cc v);
  }

  fixed_branch :
      (idx : ℕ) (bitmap : List ℕ) (cell : Cell)
      → table_check_var_column column ≡ false
      → insert_cell h column idx bitmap cell ≡ ok (h, cell)
  unfolding insert_cell
  fixed_branch idx bitmap cell f = rw f

  var_branch :
      (idx : ℕ) (bitmap : List ℕ) (cell : Cell)
      → table_check_var_column column ≡ true
      → insert_cell h column idx bitmap cell ≡ insert_var_cell address h₁ column idx bitmap cell
  unfolding insert_cell h₁ address
  var_branch idx bitmap cell v = rw v

  var_cell-Returns :
      (idx : ℕ) (bitmap : List ℕ) (cell : Cell) (b : Bool)
      → table_check_var_column column ≡ true
      → bit_test bitmap idx bitmap_size ≡ ok b
      → SuppliedCell h column (ok b) cell
      → Returns
          (insert_var_cell address h₁ column idx bitmap cell)
          (StoredCell h column (ok b) cell)
  unfolding insert_var_cell
  var_cell-Returns idx bitmap cell true v bit supplied = (_, rw bit, null_cell cell v)
  var_cell-Returns idx bitmap cell false v bit supplied =
      let (src, e, le) = supplied v refl in
      (_, rw (bit) (rw (copy_lem cell src e le)), text_cell cell src v e)

  pub insert_cell-Returns :
      (idx : ℕ) (bitmap : List ℕ) (cell : Cell) (b : Bool)
      → bit_test bitmap idx bitmap_size ≡ ok b
      → SuppliedCell h column (ok b) cell
      → Returns (insert_cell h column idx bitmap cell) (StoredCell h column (ok b) cell)
  insert_cell-Returns idx bitmap cell b bit supplied =
      elim (Bool-cases (table_check_var_column column)) [
        | inr f ↦ ((h, cell), fixed_branch idx bitmap cell f, fixed_cell cell b f)
        | inl v ↦
            subst (λ o. Returns o (StoredCell h column (ok b) cell))
              (sym (var_branch idx bitmap cell v))
              (var_cell-Returns idx bitmap cell b v bit supplied)
      ]
