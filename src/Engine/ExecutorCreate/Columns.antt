-- ===== src/Engine/ExecutorCreate/Columns.antt =====
-- The columns of the table that a CREATE of src/engine/executor_create.c makes, with all their
-- attributes.
use midori_db.Prelude.{
  ℕ, ◌+◌, ◌%◌, ◌^◌, ◌<◌, ◌≡◌, refl, sym, ap, ◌∙◌, Bool, true, false, ◌&&◌, ◌||◌, not, List, [], ◌∷◌,
  ◌++◌, ltb, Bool-cases, inl, inr, if◌then◌else◌, if_true, if_false, arith,
}
use midori_db.Primitive.Column.{Column}
use midori_db.Primitive.Name.{strn_eq, table_max_column_name}
use midori_db.Parser.AstCreate.{ColumnDef, IndexDef, CreateItem, columndef, indexdef}
use midori_db.Engine.ExecutorCreate.{
  index_column, index_columns, add_index, int_precision, new_column,
}

-- The column of a definition.
abbrev pub column_of : ColumnDef → Column
column_of def = record {
  name = def.name;
  kind = def.kind;
  precision = def.precision;
  indexed = false;
  nullable = def.attr_null;
  unique = def.attr_uniq_key;
  auto_inc = def.attr_auto_inc;
  primary_key = def.attr_prim_key;
  is_count = false;
}

-- Whether a column is among some names, as far as a name of a column reaches.
abbrev pub is_named : List (List ℕ) → Column → Bool
is_named [] column = false
is_named (name ∷ names) column =
    strn_eq (table_max_column_name + 1) column.name name || is_named names column

-- A column with the attributes that it has, and an index or a primary key.
abbrev pub with_index : Column → Bool → Bool → Bool → Bool → Bool → Column
with_index column indexed primary_key nullable unique is_pk = record column {
  indexed = indexed;
  primary_key = primary_key || is_pk;
  nullable = nullable && not is_pk;
  unique = unique || is_pk;
}

-- A column behind an index: an index sets `indexed`, and a primary key also makes its columns the
-- key, unique and not nullable.
abbrev pub behind_index : IndexDef → Column → Column
behind_index def column =
    if is_named def.index_columns column
    then with_index column def.is_index column.primary_key column.nullable column.unique def.is_pk
    else column

-- A column behind all the indexes that follow its definition.
abbrev pub behind : List CreateItem → Column → Column
behind [] column = column
behind (columndef def ∷ items) column = behind items column
behind (indexdef def ∷ items) column = behind items (behind_index def column)

-- The columns that a CREATE defines, in order.
abbrev pub columns_of : List CreateItem → List Column
columns_of [] = []
columns_of (columndef def ∷ items) = behind items (column_of def) ∷ columns_of items
columns_of (indexdef def ∷ items) = columns_of items

-- What the items make of the columns that the table has.
abbrev pub all_behind : List CreateItem → List Column → List Column
all_behind items [] = []
all_behind items (column ∷ columns) = behind items column ∷ all_behind items columns

pub all_behind-append :
    (items : List CreateItem) (columns : List Column) (column : Column)
    → all_behind items (columns ++ column ∷ [])
      ≡ all_behind items columns ++ behind items column ∷ []
all_behind-append items [] column = refl
all_behind-append items (c ∷ columns) column =
    ap (λ cs. behind items c ∷ cs) (all_behind-append items columns column)

pub all_behind-none : (columns : List Column) → all_behind [] columns ≡ columns
all_behind-none [] = refl
all_behind-none (column ∷ columns) = ap (λ cs. column ∷ cs) (all_behind-none columns)

pub all_behind-columndef :
    (def : ColumnDef) (items : List CreateItem) (columns : List Column)
    → all_behind (columndef def ∷ items) columns ≡ all_behind items columns
all_behind-columndef def items [] = refl
all_behind-columndef def items (column ∷ columns) =
    ap (λ cs. behind items column ∷ cs) (all_behind-columndef def items columns)

with_index_lem :
    (column : Column) (indexed primary_key nullable unique is_pk : Bool)
    → (if is_pk
        then record column {
          indexed = indexed;
          primary_key = true;
          nullable = false;
          unique = true;
        }
        else record column {
          indexed = indexed;
          primary_key = primary_key;
          nullable = nullable;
          unique = unique;
        })
      ≡ with_index column indexed primary_key nullable unique is_pk
with_index_lem column indexed true true true true = refl
with_index_lem column indexed true true true false = refl
with_index_lem column indexed true true false true = refl
with_index_lem column indexed true true false false = refl
with_index_lem column indexed true false true true = refl
with_index_lem column indexed true false true false = refl
with_index_lem column indexed true false false true = refl
with_index_lem column indexed true false false false = refl
with_index_lem column indexed false true true true = refl
with_index_lem column indexed false true true false = refl
with_index_lem column indexed false true false true = refl
with_index_lem column indexed false true false false = refl
with_index_lem column indexed false false true true = refl
with_index_lem column indexed false false true false = refl
with_index_lem column indexed false false false true = refl
with_index_lem column indexed false false false false = refl

with_index-twice :
    (column : Column) (indexed primary_key nullable unique is_pk : Bool)
    → with_index column indexed
        (primary_key || is_pk)
        (nullable && not is_pk)
        (unique || is_pk)
        is_pk
      ≡ with_index column indexed primary_key nullable unique is_pk
with_index-twice column indexed true true true true = refl
with_index-twice column indexed true true true false = refl
with_index-twice column indexed true true false true = refl
with_index-twice column indexed true true false false = refl
with_index-twice column indexed true false true true = refl
with_index-twice column indexed true false true false = refl
with_index-twice column indexed true false false true = refl
with_index-twice column indexed true false false false = refl
with_index-twice column indexed false true true true = refl
with_index-twice column indexed false true true false = refl
with_index-twice column indexed false true false true = refl
with_index-twice column indexed false true false false = refl
with_index-twice column indexed false false true true = refl
with_index-twice column indexed false false true false = refl
with_index-twice column indexed false false false true = refl
with_index-twice column indexed false false false false = refl

marked : IndexDef → Column → Column
marked def column =
    with_index column def.is_index column.primary_key column.nullable column.unique def.is_pk

index_column-marked :
    (def : IndexDef) (column : Column) → index_column def column ≡ marked def column
unfolding index_column marked
index_column-marked def column =
    with_index_lem column def.is_index column.primary_key column.nullable column.unique def.is_pk

marked-marked :
    (def : IndexDef) (column : Column) → marked def (marked def column) ≡ marked def column
unfolding marked
marked-marked def column =
    with_index-twice column def.is_index column.primary_key column.nullable column.unique def.is_pk

-- What the loops of `add_index` make of one column.
one_column : IndexDef → List (List ℕ) → Column → Column
one_column def [] column = column
one_column def (name ∷ names) column = one_column def names (
    if strn_eq (table_max_column_name + 1) column.name name
    then index_column def column
    else column)

is_named-marked :
    (def : IndexDef) (names : List (List ℕ)) (column : Column)
    → is_named names (marked def column) ≡ is_named names column
unfolding marked
is_named-marked def [] column = refl
is_named-marked def (name ∷ names) column =
    ap (λ b. strn_eq (table_max_column_name + 1) column.name name || b)
      (is_named-marked def names column)

one_column_lem :
    (def : IndexDef) (names : List (List ℕ)) (column : Column)
    → one_column def names column ≡ (if is_named names column then marked def column else column)
unfolding one_column
one_column_lem def [] column = refl
one_column_lem def (name ∷ names) column =
    elim (Bool-cases (strn_eq (table_max_column_name + 1) column.name name)) [
      | inl this ↦
          ap (one_column def names) (if_true _ _ _ this ∙ index_column-marked def column)
          ∙ one_column_lem def names (marked def column)
          ∙ either (is_named names (marked def column))
          ∙ sym (if_true _ _ _ (ap (λ b. b || is_named names column) this))
      | inr other ↦
          ap (one_column def names) (if_false _ _ _ other)
          ∙ one_column_lem def names column
          ∙ ap (λ b. if b || is_named names column then marked def column else column) (sym other)
    ]
  where
    either :
        (b : Bool)
        → (if b then marked def (marked def column) else marked def column) ≡ marked def column
    either true = marked-marked def column
    either false = refl

all_columns : IndexDef → List (List ℕ) → List Column → List Column
all_columns def names [] = []
all_columns def names (column ∷ columns) =
    one_column def names column ∷ all_columns def names columns

index_columns-all :
    (def : IndexDef) (name : List ℕ) (names : List (List ℕ)) (columns : List Column)
    → all_columns def names (index_columns def name columns)
      ≡ all_columns def (name ∷ names) columns
unfolding index_columns all_columns one_column
index_columns-all def name names [] = refl
index_columns-all def name names (column ∷ columns) =
    ap (λ cs. one_column def (name ∷ names) column ∷ cs) (index_columns-all def name names columns)

all_columns-none : (def : IndexDef) (columns : List Column) → all_columns def [] columns ≡ columns
unfolding all_columns one_column
all_columns-none def [] = refl
all_columns-none def (column ∷ columns) = ap (λ cs. column ∷ cs) (all_columns-none def columns)

add_index-all :
    (def : IndexDef) (names : List (List ℕ)) (columns : List Column)
    → add_index def names columns ≡ all_columns def names columns
unfolding add_index
add_index-all def [] columns = sym (all_columns-none def columns)
add_index-all def (name ∷ names) columns =
    add_index-all def names (index_columns def name columns)
    ∙ index_columns-all def name names columns

all_behind-all :
    (def : IndexDef) (items : List CreateItem) (columns : List Column)
    → all_behind items (all_columns def def.index_columns columns)
      ≡ all_behind (indexdef def ∷ items) columns
unfolding all_columns marked
all_behind-all def items [] = refl
all_behind-all def items (column ∷ columns) =
    ap (λ c. behind items c ∷ all_behind items (all_columns def def.index_columns columns))
      (one_column_lem def def.index_columns column)
    ∙ ap (λ cs. behind (indexdef def ∷ items) column ∷ cs) (all_behind-all def items columns)

pub all_behind-indexdef :
    (def : IndexDef) (items : List CreateItem) (columns : List Column)
    → all_behind items (add_index def def.index_columns columns)
      ≡ all_behind (indexdef def ∷ items) columns
all_behind-indexdef def items columns =
    ap (all_behind items) (add_index-all def def.index_columns columns)
    ∙ all_behind-all def items columns

int_precision-small : (n : ℕ) → n < 2 ^ 31 → int_precision n ≡ n
unfolding int_precision
int_precision-small n small =
    let low : n % 2 ^ 32 ≡ n = omega (arith, small) in
    let fits : ltb (n % 2 ^ 32) (2 ^ 31) ≡ true = ground (arith, low, small) in
    if_true _ _ _ fits ∙ low

pub new_column_lem :
    (def : ColumnDef)
    → (new_column def).name ≡ def.name
    → def.precision < 2 ^ 31
    → new_column def ≡ column_of def
unfolding new_column
new_column_lem def named small =
    ap (λ name. record (new_column def) { name = name }) named
    ∙ ap (λ n. record (column_of def) { precision = n }) (int_precision-small def.precision small)

pub precision_pos :
    (def : ColumnDef) → 0 < def.precision → def.precision < 2 ^ 31 → 0 < (new_column def).precision
unfolding new_column
precision_pos def pos small = omega (arith, pos, int_precision-small def.precision small)
