-- ===== src/Engine/ExecutorCreate/Statement.antt =====
-- executor_run_create_stmt of src/engine/executor_create.c on a CREATE that the semantic phase accepts.
use Prim.Native.Nat.{min}
use midori_db.Prelude.{
  ℕ, zero, suc, ◌+◌, ◌^◌, ◌<◌, ◌≤◌, ◌≡◌, refl, sym, ap, ◌∙◌, Bool, true, false, List, [], ◌∷◌,
  length, take, length-append, if◌then◌else◌, if_true, ok, ◌==◌, Returns, some, none, bind-Returns,
  arith,
}
use mathlib.Core.Path.{subst}
use midori_db.Primitive.Name.{table_validate_name, valid_name, str_eq, table_max_name}
use midori_db.Primitive.Name.Laws.{take_all, str_eq_refl}
use midori_db.Primitive.Table.{Table, table_init}
use midori_db.Primitive.Table.Valid.{IsValid}
use midori_db.Parser.AstCreate.{CreateNode}
use midori_db.Parser.SemanticCreate.{key_of}
use midori_db.Parser.SemanticCreate.Accepts.{valid_columns, is_string, key_of-is_key}
use midori_db.Datastructure.Hashtable.{Hashtable, hashtable_get}
use midori_db.Datastructure.Hashtable.Strings.{is_key}
use midori_db.Datastructure.Hashtable.StringSet.{key_pos}
use midori_db.Datastructure.Hashtable.StringMap.{IsStringMap, value_of, at_string}
use midori_db.Datastructure.Hashtable.StringMap.Laws.{hashtable_put-IsPut}
use midori_db.Datastructure.Words.{
  word_size, word_bytes, read_word, length-word_bytes, read_word-one,
}
use midori_db.Engine.Database.{
  ReturnCode, midoridb_ok, midoridb_nomem, name_key, database_table_get, database_table_exists,
  database_table_add,
}
use midori_db.Engine.Tables.{Tables, put_table}
use midori_db.Engine.ExecutorCreate.{Grants, create_items, create_table, executor_run_create_stmt}
use midori_db.Engine.ExecutorCreate.Columns.{columns_of}
use midori_db.Engine.ExecutorCreate.Laws.{defined, WellSized, IsNew}
use midori_db.Engine.ExecutorCreate.Created.{create_items-IsNew, IsNew-IsValid}

take_pos : (n : ℕ) (xs : List ℕ) → 0 < n → 0 < length xs → 0 < length (take n xs)
take_pos zero xs pos some_xs = absurd (omega (arith, pos))
take_pos (suc n) [] pos some_xs = absurd (omega (arith, some_xs))
take_pos (suc n) (x ∷ xs) pos some_xs = omega arith

-- A name whose key has no entry is no table's.
pub database_table_exists-new :
    (db : Hashtable) (name : List ℕ)
    → value_of db (name_key name) ≡ none
    → database_table_exists db name ≡ ok false
unfolding database_table_exists database_table_get hashtable_get
database_table_exists-new db name new =
    let long : 0 < length (name_key name) =
      take_pos (min (length name + 1) (table_max_name + 1)) (key_of name) (omega arith)
        (omega (arith, length-append name (0 ∷ []))) in
    let filled : (length (name_key name) == 0) ≡ false = ground (arith, long) in
    rw (filled, new) refl

module _ (db : Hashtable) (is_map : IsStringMap db) (name : List ℕ)
    (valid : table_validate_name name ≡ true) (text : is_string name ≡ true)
    (new : value_of db (name_key name) ≡ none) where
  -- The key of a name that fits its field.
  name_key_lem : name_key name ≡ key_of name
  unfolding table_validate_name valid_name
  name_key_lem =
      take_all (min (length name + 1) (table_max_name + 1)) (key_of name)
        (ground (arith, valid, length-append name (0 ∷ [])))

  name_key-is_key : is_key (name_key name) ≡ true
  name_key-is_key = ap is_key name_key_lem ∙ key_of-is_key name text

  -- The database has the table at `address` by the name, and every other name's as before.
  pub record IsAdded (address : ℕ) (out : ReturnCode × Hashtable) : Type 0 where
    pub returned : out.0 ≡ midoridb_ok
    pub map : IsStringMap (out.1)
    pub found :
        (key : List ℕ)
        → at_string (out.1) key ≡ (
            if str_eq (name_key name) key
            then some (record { key = name_key name; value = word_bytes word_size address })
            else at_string db key)

  database_table_add-new :
      (resize_granted : Bool) (address : ℕ)
      → Returns (database_table_add true resize_granted db name address) (IsAdded address)
  unfolding database_table_add
  database_table_add-new resize_granted address =
      let (put, runs, done) =
        hashtable_put-IsPut db is_map (name_key name) name_key-is_key (word_bytes word_size address)
          new resize_granted (omega (arith, length-word_bytes word_size address)) in
      (
        (if put.0 then midoridb_ok else midoridb_nomem, put.1),
        rw (database_table_exists-new db name new, runs) refl,
        record { returned = if_true _ _ _ done.returns; map = done.map; found = done.found },
      )

  table_add-of :
      (granted resize_granted : Bool) (n : List ℕ) (address : ℕ)
      → granted ≡ true
      → n ≡ name
      → Returns (database_table_add granted resize_granted db n address) (IsAdded address)
  table_add-of granted resize_granted n address memory named =
      subst
        (λ (p : Bool × List ℕ).
          Returns (database_table_add (p.0) resize_granted db (p.1) address) (IsAdded address))
        (ap (λ g. (g, name)) (sym memory) ∙ ap (λ m. (granted, m)) (sym named))
        (database_table_add-new resize_granted address)

  -- The table of the name is then the one at the address.
  get-added :
      (address : ℕ) (out : ReturnCode × Hashtable)
      → IsAdded address out
      → 0 < address
      → address < 2 ^ 64
      → database_table_get (out.1) name ≡ ok (some address)
  unfolding database_table_get hashtable_get
  get-added zero out is pos small = absurd (omega (arith, pos))
  get-added (suc p) out is pos small =
      let filled : (length (name_key name) == 0) ≡ false =
        ground (arith, key_pos (name_key name) name_key-is_key) in
      let there : value_of (out.1) (name_key name)
          ≡ some (record { key = name_key name; value = word_bytes word_size (suc p) }) =
        sym (if_true _ _ _ name_key-is_key)
        ∙ is.found (name_key name)
        ∙ if_true _ _ _ (str_eq_refl (name_key name)) in
      let read : read_word (word_bytes word_size (suc p)) 0 ≡ ok (suc p) =
        read_word-one (suc p) small in
      rw (filled, there) (rw read refl)

-- What a CREATE leaves: the code, the database, and the table at its address.
pub record Created (db : Hashtable) (tables : Tables) (address : ℕ) (node : CreateNode)
    (out : ReturnCode × Hashtable × Tables) : Type 0 where
  pub table : Table
  pub returned : out.0 ≡ midoridb_ok
  pub map : IsStringMap (out.1)
  pub found :
      (key : List ℕ)
      → at_string (out.1) key ≡ (
          if str_eq (name_key node.table_name) key
          then some
              (record { key = name_key node.table_name; value = word_bytes word_size address })
          else at_string db key)
  pub get : database_table_get (out.1) node.table_name ≡ ok (some address)
  pub placed : out.2 ≡ put_table tables address table
  pub named : table.name ≡ node.table_name
  pub columns : table.columns ≡ columns_of node.children
  pub no_rows : table.blocks ≡ []
  pub valid : IsValid table

module _ (db : Hashtable) (tables : Tables) (is_map : IsStringMap db) (node : CreateNode)
    (valid : table_validate_name node.table_name ≡ true) (text : is_string node.table_name ≡ true)
    (new : value_of db (name_key node.table_name) ≡ none)
    (items_valid : valid_columns [] node.children ≡ true) (sized : WellSized node.children)
    (few : length (defined node.children) ≤ 128) (grants : Grants)
    (granted : (i : ℕ) → grants.table i ≡ true) (entry_granted : grants.entry ≡ true) (address : ℕ)
    (address_pos : 0 < address) (address_small : address < 2 ^ 64) where
  abbrev start : Table
  start = record { name = node.table_name; columns = []; blocks = []; free_dtbkl_offset = 0 }

  start-IsNew : IsNew start []
  start-IsNew = record { no_blocks = refl; offset = refl; columns_named = refl; narrow = tt }

  table_init-start : table_init grants.table node.table_name ≡ some start
  unfolding table_init
  table_init-start = rw (granted 0, valid, granted 1, granted 2) refl

  create_table-Created :
      Returns (create_table grants address db tables node) (Created db tables address node)
  unfolding create_table
  create_table-Created =
      rw (create_table, table_init-start)
        (bind-Returns (create_items start node.children) _
          (create_items-IsNew node.children start [] [] start-IsNew (λ n. refl) items_valid sized
            (omega (arith, few)))
          (λ out made. rw (made.0) (
            bind-Returns (database_table_add grants.entry grants.resize db out.1.name address) _
              (table_add-of db is_map node.table_name valid text new grants.entry grants.resize
                out.1.name address entry_granted (made.2))
              (λ add done. (
                (add.0, add.1, put_table tables address (out.1)),
                refl,
                record {
                  table = out.1;
                  returned = done.returned;
                  map = done.map;
                  found = done.found;
                  get =
                      get-added db is_map node.table_name valid text new address add done
                        address_pos address_small;
                  placed = refl;
                  named = made.2;
                  columns = made.3;
                  no_rows = made.1.no_blocks;
                  valid = IsNew-IsValid (out.1) (defined node.children) (made.1) few;
                },
              )))))

  -- A CREATE of a table whose name is a valid one that the database does not have, whose items the
  -- semantic phase accepts, with at most 128 columns of 1 to 8 bytes, the memory that it needs, and an
  -- address of 64 bits for the table, returns MIDORIDB_OK. The database then has the table by its
  -- name, and by any other name what it had. The table is valid, has the name and no rows, and its
  -- columns are those that are defined, in order, each with the attributes of its definition and
  -- those of the indexes and primary keys behind it that name it.
  pub executor_run_create_stmt-Created :
      Returns
        (executor_run_create_stmt grants address db tables node)
        (Created db tables address node)
  unfolding executor_run_create_stmt
  executor_run_create_stmt-Created =
      bind-Returns _ _ (if_new node.if_not_exists)
        (λ early not_there. rw not_there (create_table-Created))
    where
      if_new :
          (if_not_exists : Bool)
          → Returns
              (if if_not_exists then database_table_exists db node.table_name else ok false)
              (λ early. early ≡ false)
      if_new true = (false, database_table_exists-new db node.table_name new, refl)
      if_new false = (false, refl, refl)
