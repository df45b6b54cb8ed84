-- ===== src/Engine/ExecutorDelete/Checked.antt =====
-- What conditions are relied on for by src/engine/executor_delete.c: the columns that a
-- condition names are there, and those that it compares have one type.
use midori_db.Prelude.{
  ℕ, ◌+◌, ◌<◌, ◌≤◌, ◌≡◌, refl, sym, ◌∙◌, Bool, true, false, ◌||◌, List, [], ◌∷◌, length, Option,
  none, some, All, Bool-cases, inl, inr, Outcome, ok, if◌then◌else◌, arith,
}
use midori_db.Bit.{bit_test}
use midori_db.Heap.{Heap}
use midori_db.Primitive.Column.{ColumnType, varchar, Column}
use midori_db.Primitive.Name.{str_eq}
use midori_db.Primitive.Row.{Cell, bitmap_size, first_cell, other_cells}
use midori_db.Primitive.TableColumns.{has_column}
use midori_db.Primitive.Name.Laws.{str_eq_iff}
use midori_db.Engine.ExecutorDelete.Fields.{Field, find_field, find_fields, cell_str}

-- The text of a varchar cell that is not NULL is there, with a NUL in it.
abbrev pub ReadableCell : Heap → ColumnType → Outcome Bool → Cell → Type 0
ReadableCell h kind null_bit cell =
    kind ≡ varchar → null_bit ≡ ok false → (str : List ℕ) × (cell_str h cell ≡ ok str)

abbrev pub Readable : Heap → List ℕ → List Column → ℕ → List Cell → Type 0
Readable h bitmap [] idx cells = Unit
Readable h bitmap (col ∷ columns) idx cells =
    ReadableCell h col.kind (bit_test bitmap idx bitmap_size) (first_cell cells)
    × Readable h bitmap columns (idx + 1) (other_cells cells)

-- The columns of either name have the type `kind`.
abbrev pub SameKind : ColumnType → List ℕ → List ℕ → Column → Type 0
SameKind kind name_1 name_2 col =
    (str_eq col.name name_1 || str_eq col.name name_2) ≡ true → col.kind ≡ kind

-- A field that a loop over `n` columns found.
pub record IsField (h : Heap) (bitmap : List ℕ) (n : ℕ) (field : Field) : Type 0 where
  pub inside : field.col_idx < n
  pub readable : ReadableCell h field.kind (bit_test bitmap field.col_idx bitmap_size) field.cell

abbrev pub is_found : Option Field → Bool
is_found none = false
is_found (some _) = true

abbrev pub IsFieldOf : Heap → List ℕ → ℕ → ColumnType → Option Field → Type 0
IsFieldOf h bitmap n kind none = Unit
IsFieldOf h bitmap n kind (some field) = IsField h bitmap n field × (field.kind ≡ kind)

module _ (h : Heap) (bitmap : List ℕ) where
  pub find_field-IsField :
      (columns : List Column) (idx : ℕ) (cells : List Cell) (name : List ℕ) (n : ℕ)
      → Readable h bitmap columns idx cells
      → has_column columns name ≡ true
      → idx + length columns ≤ n
      → (field : Field) × (find_field columns idx cells name ≡ some field)
        × IsField h bitmap n field
  unfolding find_field has_column
  find_field-IsField [] idx cells name n readable has inside = absurd (cc has)
  find_field-IsField (col ∷ columns) idx cells name n readable has inside =
      elim (Bool-cases (str_eq col.name name)) [
        | inl same ↦ rw same (
          record { col_idx = idx; kind = col.kind; cell = first_cell cells },
          refl,
          record { inside = omega (arith, inside); readable = readable.0 },
        )
        | inr other ↦ rw other (
            find_field-IsField columns (idx + 1) (other_cells cells) name n (readable.1)
              (rw other at has) (omega (arith, inside)))
      ]

  module _ (kind : ColumnType) (name_1 name_2 : List ℕ) (n : ℕ) where
    -- What the loop makes of the two fields that it has so far.
    pub record AreFields (columns : List Column) (found out : Option Field × Option Field)
        : Type 0 where
      pub first : IsFieldOf h bitmap n kind out.0
      pub second : IsFieldOf h bitmap n kind out.1
      pub has_first : (is_found found.0 || has_column columns name_1) ≡ true → is_found out.0 ≡ true
      pub has_second :
          str_eq name_1 name_2 ≡ false
          → (is_found found.1 || has_column columns name_2) ≡ true
          → is_found out.1 ≡ true

    one_name :
        (name : List ℕ)
        → str_eq name name_1 ≡ true
        → str_eq name name_2 ≡ true
        → str_eq name_1 name_2 ≡ true
    one_name name e_1 e_2 =
        (str_eq_iff name_1 name_2).1
          (sym ((str_eq_iff name name_1).0 e_1) ∙ (str_eq_iff name name_2).0 e_2)

    -- One round, where `b_1` and `b_2` say whether the column has the names.
    carry :
        (b_1 b_2 : Bool) (col : Column) (columns : List Column)
        (found out : Option Field × Option Field) (here : Option Field)
        → is_found here ≡ true
        → str_eq col.name name_1 ≡ b_1
        → str_eq col.name name_2 ≡ b_2
        → AreFields columns
            (if b_1 then (here, found.1) else if b_2 then (found.0, here) else found)
            out
        → AreFields (col ∷ columns) found out
    unfolding has_column
    carry true b_2 col columns found out here is e_1 e_2 r = record {
      first = r.first;
      second = r.second;
      has_first = λ q. r.has_first (ground (arith, is));
      has_second =
          λ differ q. r.has_second differ (ground (arith, q, differ, one_name col.name e_1));
    }
    carry false true col columns found out here is e_1 e_2 r = record {
      first = r.first;
      second = r.second;
      has_first = λ q. r.has_first (ground (arith, q, e_1));
      has_second = λ differ q. r.has_second differ (ground (arith, is));
    }
    carry false false col columns found out here is e_1 e_2 r = record {
      first = r.first;
      second = r.second;
      has_first = λ q. r.has_first (ground (arith, q, e_1));
      has_second = λ differ q. r.has_second differ (ground (arith, q, e_2));
    }

    still_first :
        (b_1 b_2 : Bool) (here : Option Field) (found : Option Field × Option Field)
        → ((b_1 || b_2) ≡ true → IsFieldOf h bitmap n kind here)
        → IsFieldOf h bitmap n kind found.0
        → IsFieldOf h bitmap n kind
            ((if b_1 then (here, found.1) else if b_2 then (found.0, here) else found).0)
    still_first true b_2 here found here_ok ok_1 = here_ok refl
    still_first false true here found here_ok ok_1 = ok_1
    still_first false false here found here_ok ok_1 = ok_1

    still_second :
        (b_1 b_2 : Bool) (here : Option Field) (found : Option Field × Option Field)
        → ((b_1 || b_2) ≡ true → IsFieldOf h bitmap n kind here)
        → IsFieldOf h bitmap n kind found.1
        → IsFieldOf h bitmap n kind
            ((if b_1 then (here, found.1) else if b_2 then (found.0, here) else found).1)
    still_second true b_2 here found here_ok ok_2 = ok_2
    still_second false true here found here_ok ok_2 = here_ok refl
    still_second false false here found here_ok ok_2 = ok_2

    pub find_fields-AreFields :
        (columns : List Column) (idx : ℕ) (cells : List Cell) (found : Option Field × Option Field)
        → Readable h bitmap columns idx cells
        → All (SameKind kind name_1 name_2) columns
        → idx + length columns ≤ n
        → IsFieldOf h bitmap n kind (found.0)
        → IsFieldOf h bitmap n kind (found.1)
        → AreFields columns found (find_fields columns idx cells name_1 name_2 found)
    unfolding find_fields has_column
    find_fields-AreFields [] idx cells found readable kinds inside ok_1 ok_2 = record {
      first = ok_1;
      second = ok_2;
      has_first = λ q. ground (arith, q);
      has_second = λ differ q. ground (arith, q);
    }
    find_fields-AreFields (col ∷ columns) idx cells found readable kinds inside ok_1 ok_2 =
        let here : Field = record { col_idx = idx; kind = col.kind; cell = first_cell cells } in
        let here_ok : (str_eq col.name name_1 || str_eq col.name name_2) ≡ true
            → IsFieldOf h bitmap n kind (some here) =
          λ q. (record { inside = omega (arith, inside); readable = readable.0 }, kinds.0 q) in
        carry (str_eq col.name name_1) (str_eq col.name name_2) col columns found _ (some here) refl
          refl refl
          (find_fields-AreFields columns (idx + 1) (other_cells cells) _ (readable.1) (kinds.1)
            (omega (arith, inside))
            (still_first (str_eq col.name name_1) (str_eq col.name name_2) (some here) found here_ok
              ok_1)
            (still_second (str_eq col.name name_1) (str_eq col.name name_2) (some here) found
              here_ok ok_2))
