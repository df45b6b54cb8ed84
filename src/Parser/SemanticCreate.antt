-- ===== src/Parser/SemanticCreate.antt =====
-- src/parser/semantic_create.c: the check of a CREATE before it runs.
--
-- The hash table of the column names is the model's own, with its two functions for strings.
pub mod Accepts
pub mod Columns
pub mod Laws
mod Tests
use midori_db.Prelude.{
  ℕ, zero, suc, ◌+◌, Bool, true, false, ◌&&◌, not, List, [], ◌∷◌, ◌++◌, Option, none, some,
  if◌then◌else◌, Outcome, ok, fault, segfault, ◌>>=◌, ◌>>◌,
}
use midori_db.Datastructure.Hashtable.{
  Entry, Hashtable, hashtable_init, hashtable_put, hashtable_get, hashtable_remove, hashtable_free,
  hashtable_foreach, hashtable_str_compare, hashtable_str_hash,
}
use midori_db.Primitive.Name.{table_validate_name, table_validate_column_name}
use midori_db.Engine.Database.{database_table_exists}
use midori_db.Parser.AstCreate.{ColumnDef, IndexDef, CreateItem, columndef, indexdef, CreateNode}

-- The memory that the system grants: the hash table, and for each put its entry and its resize.
pub record Grants : Type 0 where
  pub table : Bool
  pub entry : ℕ → Bool
  pub resize : ℕ → Bool

-- The `strlen(name) + 1` bytes at a name.
abbrev pub key_of : List ℕ → List ℕ
key_of name = name ++ 0 ∷ []

-- The body of the first loop for a column.
unfoldable pub check_column : Grants → ℕ → Hashtable → List ℕ → Outcome (Bool × Hashtable)
unfolding hashtable_get hashtable_put table_validate_column_name
check_column grants i ht name = do
  found ← hashtable_get hashtable_str_compare hashtable_str_hash ht (key_of name)
  elim found [
    | some _ ↦ ok (false, ht)
    | none ↦
        if table_validate_column_name name
        then hashtable_put hashtable_str_compare hashtable_str_hash (grants.entry i)
            (grants.resize i) ht (key_of name) (key_of name)
        else ok (false, ht)
  ]

-- The first loop over the children: false at the first column that fails. `i` counts the puts.
unfoldable pub check_columns : Grants → ℕ → Hashtable → List CreateItem → Outcome (Bool × Hashtable)
unfolding check_column
check_columns grants i ht [] = ok (true, ht)
check_columns grants i ht (indexdef def ∷ children) = check_columns grants i ht children
check_columns grants i ht (columndef def ∷ children) =
    check_column grants i ht def.name >>= λ (passed, ht'). elim passed [
      | true ↦ check_columns grants (i + 1) ht' children
      | false ↦ ok (false, ht')
    ]

-- The inner loop over the columns of an index.
unfoldable pub check_index_columns : Hashtable → List (List ℕ) → Outcome Bool
unfolding hashtable_get
check_index_columns ht [] = ok true
check_index_columns ht (name ∷ names) =
    hashtable_get hashtable_str_compare hashtable_str_hash ht (key_of name) >>= λ found.
    elim found [ none ↦ ok false | some _ ↦ check_index_columns ht names ]

-- The second loop over the children.
unfoldable pub check_indexes : Hashtable → List CreateItem → Outcome Bool
unfolding check_index_columns
check_indexes ht [] = ok true
check_indexes ht (columndef def ∷ children) = check_indexes ht children
check_indexes ht (indexdef def ∷ children) = check_index_columns ht def.index_columns >>= λ passed.
    elim passed [ true ↦ check_indexes ht children | false ↦ ok false ]

-- `hashtable_foreach` with `free_str_entries`.
unfoldable pub free_str_entries : Hashtable → List Entry → Outcome Hashtable
unfolding hashtable_remove
free_str_entries ht [] = ok ht
free_str_entries ht (entry ∷ entries) =
    hashtable_remove hashtable_str_compare hashtable_str_hash ht entry.key >>= λ (removed, ht').
    elim removed [ none ↦ fault segfault | some _ ↦ free_str_entries ht' entries ]

-- The end of the function behind the loops, where it returns `result`.
unfoldable pub clean_up : Hashtable → Bool → Outcome Bool
unfolding free_str_entries hashtable_foreach hashtable_free
clean_up ht result =
    free_str_entries ht (hashtable_foreach ht.array) >>= λ left. hashtable_free left >> ok result

-- The two loops and the end.
unfoldable pub check_children : Grants → Hashtable → List CreateItem → Outcome Bool
unfolding check_columns check_indexes clean_up
check_children grants ht children = check_columns grants 0 ht children >>= λ (passed, ht').
    elim passed [
      | false ↦ clean_up ht' false
      | true ↦ (check_indexes ht' children >>= λ result. clean_up ht' result)
    ]

-- `exists` is what `database_table_exists` returns, if it is called.
unfoldable pub check_create : Grants → Outcome Bool → Hashtable → CreateNode → Outcome Bool
unfolding table_validate_name check_children hashtable_free
check_create grants exists ht node =
    if table_validate_name node.table_name
    then ((if node.if_not_exists then ok false else exists) >>= λ clash. elim clash [
      | true ↦ (hashtable_free ht >> ok false)
      | false ↦ check_children grants ht node.children
    ])
    else (hashtable_free ht >> ok false)

unfoldable pub semantic_analyse_create_stmt : Grants → Hashtable → CreateNode → Outcome Bool
unfolding hashtable_init check_create database_table_exists
semantic_analyse_create_stmt grants db node = elim (hashtable_init grants.table) [
  | none ↦ ok false
  | some ht ↦ check_create grants (database_table_exists db node.table_name) ht node
]
