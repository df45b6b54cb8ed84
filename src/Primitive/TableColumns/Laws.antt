-- ===== src/Primitive/TableColumns/Laws.antt =====
-- The names of the columns of a table stay distinct.
use midori_db.Prelude.{
  ℕ, ◌+◌, ◌≡◌, refl, sym, ap, ◌∙◌, Bool, true, false, not, ◌||◌, List, [], ◌∷◌, ◌++◌, length,
  Option, none, some, ltb, Bool-cases, inl, inr, ◌==◌, if◌then◌else◌, Outcome, ok, bind-ok, arith,
}
use mathlib.Core.Path.{subst}
use midori_db.Primitive.Column.{Column}
use midori_db.Primitive.Name.{str_eq}
use midori_db.Primitive.Name.Laws.{str_eq_iff}
use midori_db.Primitive.Table.{Table, is_empty}
use midori_db.Primitive.TableColumns.{
  Moved, move_rows, visited, datablock_add_column, has_column, table_max_columns, table_add_column,
}

-- No two columns have the same name.
abbrev pub IsDistinct : List Column → Type 0
IsDistinct [] = Unit
IsDistinct (column ∷ columns) = (has_column columns column.name ≡ false) × IsDistinct columns

str_eq_sym : (a b : List ℕ) → str_eq a b ≡ false → str_eq b a ≡ false
str_eq_sym a b e = elim (Bool-cases (str_eq b a)) [
  | inl t ↦ absurd (cc (sym ((str_eq_iff a b).1 (sym ((str_eq_iff b a).0 t))) ∙ e))
  | inr f ↦ f
]

has_column-append :
    (columns : List Column) (column : Column) (name : List ℕ)
    → has_column columns name ≡ false
    → str_eq column.name name ≡ false
    → has_column (columns ++ column ∷ []) name ≡ false
unfolding has_column
has_column-append [] column name h e = ground (arith, e)
has_column-append (c ∷ columns) column name h e =
    ground (arith, h, has_column-append columns column name, e)

IsDistinct-append :
    (columns : List Column) (column : Column)
    → IsDistinct columns
    → has_column columns column.name ≡ false
    → IsDistinct (columns ++ column ∷ [])
unfolding has_column
IsDistinct-append [] column d h = (refl, tt)
IsDistinct-append (c ∷ columns) column d h = (
  has_column-append columns column c.name d.0 (str_eq_sym c.name column.name (ground (arith, h))),
  IsDistinct-append columns column d.1 (ground (arith, h)),
)

branch_of :
    {R : Type 0} {G : Type 0} (c : Bool) (x y : Outcome R) (r : R)
    → (if c then x else y) ≡ ok r
    → (c ≡ true → x ≡ ok r → G)
    → (c ≡ false → y ≡ ok r → G)
    → G
branch_of true x y r e f g = f refl e
branch_of false x y r e f g = g refl e

same_columns :
    (t u : Table) (b : Bool) (r : Bool × Table)
    → u.columns ≡ t.columns
    → ok (b, u) ≡ ok r
    → r.1.columns ≡ t.columns
same_columns t u b r same e = let it : (b, u) ≡ r = cc e in sym (ap (λ q. q.1.columns) it) ∙ same

datablock_add_column-columns :
    (head_granted : Bool) (grants : ℕ → Bool) (t : Table) (cur nxt : ℕ) (r : Bool × Table)
    → datablock_add_column head_granted grants t cur nxt ≡ ok r
    → r.1.columns ≡ t.columns
unfolding datablock_add_column
datablock_add_column-columns head_granted grants t cur nxt r e =
    branch_of (cur == nxt || not head_granted) _ _ r e (λ _ e'. same_columns t t false r refl e')
      (λ _ e'.
        let (moved, run, e'') =
          bind-ok (move_rows grants nxt (record { blocks = []; blk_offset = 0 }) (visited t.blocks))
            _ r e' in
        after moved e'')
  where
    after :
        (moved : Option Moved)
        → ok (elim moved [
          | none ↦ (false, t)
          | some m ↦ (true, record t { blocks = m.blocks; free_dtbkl_offset = m.blk_offset })
        ])
          ≡ ok r
        → r.1.columns ≡ t.columns
    after none e' = same_columns t t false r refl e'
    after (some m) e' = same_columns t _ true r refl e'

-- Whatever table_add_column returns, the names of the columns are distinct if they were before.
pub table_add_column-IsDistinct :
    (head_granted : Bool) (grants : ℕ → Bool) (t : Table) (column : Column) (r : Bool × Table)
    → IsDistinct t.columns
    → table_add_column head_granted grants t column ≡ ok r
    → IsDistinct r.1.columns
unfolding table_add_column
table_add_column-IsDistinct head_granted grants t column r d e =
    branch_of
      (ltb column.precision 1
        || (ltb table_max_columns (length t.columns + 1) || has_column t.columns column.name))
      _ _ r e (λ _ e'. subst IsDistinct (sym (same_columns t t false r refl e')) d)
      (λ new e'.
        let more = IsDistinct-append t.columns column d (ground (arith, new)) in
        branch_of (is_empty t.blocks) _ _ r e'
          (λ _ e''. subst IsDistinct (sym (same_columns added added true r refl e'')) more)
          (λ _ e''.
            subst IsDistinct
              (sym (datablock_add_column-columns head_granted grants added _ _ r e'')) more))
  where
    added : Table
    added = record t { columns = t.columns ++ column ∷ [] }
