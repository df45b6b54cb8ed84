-- ===== src/Engine/ExecutorCreate/Laws.antt =====
-- The table that a CREATE of src/engine/executor_create.c makes.
use midori_db.Prelude.{
  ℕ, suc, ◌+◌, ◌*◌, ◌^◌, ◌<◌, ◌≤◌, ◌≡◌, refl, sym, ap, ◌∙◌, true, false, ◌||◌, List, [], ◌∷◌, ◌++◌,
  length, take, All, All-append, ltb, Bool-cases, inl, inr, if_true, if_false, ok, arith,
}
use midori_db.Primitive.Column.{Column, table_calc_column_space, add_spaces}
use midori_db.Primitive.Name.{
  str_eq, strn_eq, table_validate_column_name, table_max_column_name, valid_name,
}
use midori_db.Primitive.Name.Laws.{take_all}
use midori_db.Primitive.Table.{Table, is_empty}
use midori_db.Primitive.TableColumns.{has_column, table_add_column, table_max_columns}
use midori_db.Parser.AstCreate.{IndexDef, CreateItem, columndef, indexdef}
use midori_db.Parser.SemanticCreate.Accepts.{among}
use midori_db.Engine.ExecutorCreate.{index_column, index_columns, add_index, new_column}

-- The columns that are defined, in order.
abbrev pub defined : List CreateItem → List (List ℕ)
defined [] = []
defined (columndef def ∷ items) = def.name ∷ defined items
defined (indexdef def ∷ items) = defined items

-- The names of some columns.
abbrev pub column_names : List Column → List (List ℕ)
column_names [] = []
column_names (column ∷ columns) = column.name ∷ column_names columns

-- The space that the definitions ask for: 8 bytes at most, and one at least. A precision is an int.
abbrev pub WellSized : List CreateItem → Type 0
WellSized [] = Unit
WellSized (columndef def ∷ items) =
    (0 < def.precision)
    × (def.precision < 2 ^ 31)
    × (table_calc_column_space (new_column def) ≤ 8)
    × WellSized items
WellSized (indexdef def ∷ items) = WellSized items

abbrev Narrow : List Column → Type 0
Narrow = All (λ column. table_calc_column_space column ≤ 8)

pub add_spaces-le :
    (columns : List Column) (size : ℕ)
    → Narrow columns
    → add_spaces size columns ≤ size + 8 * length columns
unfolding add_spaces
add_spaces-le [] size narrow = omega arith
add_spaces-le (column ∷ columns) size narrow =
    omega
      (arith, add_spaces-le columns (size + table_calc_column_space column) (narrow.1), narrow.0)

-- An index changes neither the names nor the sizes.
index_columns-names :
    (def : IndexDef) (name : List ℕ) (columns : List Column)
    → column_names (index_columns def name columns) ≡ column_names columns
unfolding index_columns index_column
index_columns-names def name [] = refl
index_columns-names def name (column ∷ columns) =
    elim (Bool-cases (strn_eq (table_max_column_name + 1) column.name name)) [
      | inr other ↦ rw other (ap (λ ns. column.name ∷ ns) (index_columns-names def name columns))
      | inl this ↦ elim (Bool-cases def.is_pk) [
        | inl pk ↦
            rw (this, pk) (ap (λ ns. column.name ∷ ns) (index_columns-names def name columns))
        | inr plain ↦
            rw (this, plain) (ap (λ ns. column.name ∷ ns) (index_columns-names def name columns))
      ]
    ]

index_column-space :
    (def : IndexDef) (column : Column)
    → table_calc_column_space (index_column def column) ≡ table_calc_column_space column
unfolding index_column table_calc_column_space
index_column-space def column = elim (Bool-cases def.is_pk) [
  | inl pk ↦ rw pk refl
  | inr plain ↦ rw plain refl
]

index_columns-Narrow :
    (def : IndexDef) (name : List ℕ) (columns : List Column)
    → Narrow columns
    → Narrow (index_columns def name columns)
unfolding index_columns
index_columns-Narrow def name [] narrow = tt
index_columns-Narrow def name (column ∷ columns) narrow =
    elim (Bool-cases (strn_eq (table_max_column_name + 1) column.name name)) [
      | inr other ↦ rw other (narrow.0, index_columns-Narrow def name columns (narrow.1))
      | inl this ↦ rw this (
        omega (arith, index_column-space def column, narrow.0),
        index_columns-Narrow def name columns (narrow.1),
      )
    ]

add_index-names :
    (def : IndexDef) (names : List (List ℕ)) (columns : List Column)
    → column_names (add_index def names columns) ≡ column_names columns
unfolding add_index
add_index-names def [] columns = refl
add_index-names def (name ∷ names) columns =
    add_index-names def names (index_columns def name columns)
    ∙ index_columns-names def name columns

add_index-Narrow :
    (def : IndexDef) (names : List (List ℕ)) (columns : List Column)
    → Narrow columns
    → Narrow (add_index def names columns)
unfolding add_index
add_index-Narrow def [] columns narrow = narrow
add_index-Narrow def (name ∷ names) columns narrow =
    add_index-Narrow def names (index_columns def name columns)
      (index_columns-Narrow def name columns narrow)

pub length-column_names : (columns : List Column) → length (column_names columns) ≡ length columns
length-column_names [] = refl
length-column_names (column ∷ columns) = ap suc (length-column_names columns)

column_names-append :
    (columns : List Column) (column : Column)
    → column_names (columns ++ column ∷ []) ≡ column_names columns ++ column.name ∷ []
column_names-append [] column = refl
column_names-append (c ∷ columns) column =
    ap (λ ns. c.name ∷ ns) (column_names-append columns column)

-- Whether a name is there hangs on the names alone.
has_column-names :
    (columns : List Column) (n : List ℕ) → has_column columns n ≡ among (column_names columns) n
unfolding has_column
has_column-names [] n = refl
has_column-names (column ∷ columns) n =
    ap (λ b. str_eq column.name n || b) (has_column-names columns n)

pub among-append :
    (names : List (List ℕ)) (name n : List ℕ)
    → among (names ++ name ∷ []) n ≡ (str_eq name n || among names n)
among-append [] name n = refl
among-append (m ∷ names) name n = ground (arith, among-append names name n)

pub short_name :
    (name : List ℕ)
    → table_validate_column_name name ≡ true
    → take table_max_column_name name ≡ name
unfolding table_validate_column_name valid_name
short_name name valid = take_all table_max_column_name name (ground (arith, valid))

-- A table without rows whose columns have the names `names`.
pub record IsNew (t : Table) (names : List (List ℕ)) : Type 0 where
  pub no_blocks : t.blocks ≡ []
  pub offset : t.free_dtbkl_offset ≡ 0
  pub columns_named : column_names t.columns ≡ names
  pub narrow : All (λ column. table_calc_column_space column ≤ 8) t.columns

module _ (t : Table) (names : List (List ℕ)) (is : IsNew t names) where
  pub indexed-IsNew :
      (def : IndexDef)
      → IsNew (record t { columns = add_index def def.index_columns t.columns }) names
  indexed-IsNew def = record {
    no_blocks = is.no_blocks;
    offset = is.offset;
    columns_named = add_index-names def def.index_columns t.columns ∙ is.columns_named;
    narrow = add_index-Narrow def def.index_columns t.columns is.narrow;
  }

  module _ (column : Column) (some_space : 0 < column.precision)
      (narrow : table_calc_column_space column ≤ 8) (few : length names < 128)
      (fresh : among names column.name ≡ false) where
    abbrev added : Table
    added = record t { columns = t.columns ++ column ∷ [] }

    pub added-IsNew : IsNew added (names ++ column.name ∷ [])
    added-IsNew = record {
      no_blocks = is.no_blocks;
      offset = is.offset;
      columns_named =
          column_names-append t.columns column ∙ ap (λ ns. ns ++ column.name ∷ []) is.columns_named;
      narrow =
          All-append (λ column. table_calc_column_space column ≤ 8) t.columns (column ∷ [])
            is.narrow (narrow, tt);
    }

    pub add_new : table_add_column true (λ _. true) t column ≡ ok (true, added)
    unfolding table_add_column
    add_new =
        let small : length t.columns ≡ length names =
          sym (length-column_names t.columns) ∙ ap length is.columns_named in
        let absent : has_column t.columns column.name ≡ false =
          has_column-names t.columns column.name
          ∙ ap (λ ns. among ns column.name) is.columns_named
          ∙ fresh in
        let accepted : (ltb column.precision 1
              || (ltb table_max_columns (length t.columns + 1) || has_column t.columns column.name))
            ≡ false =
          ground (arith, small, absent, few, some_space) in
        if_false _ _ _ accepted ∙ if_true _ _ _ (ap is_empty is.no_blocks)
