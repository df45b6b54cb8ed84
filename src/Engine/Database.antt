-- ===== src/Engine/Database.antt =====
-- src/engine/database.c: the tables of a database by name.
--
-- A table is the address that `database_table_add` is given, and the hash table keeps the 8 bytes of
-- that address.
use Prim.Native.Nat.{min}
use midori_db.Prelude.{
  ℕ, zero, suc, ◌+◌, Bool, true, false, List, [], ◌∷◌, ◌++◌, length, take, Option, none, some,
  Outcome, ok, fault, segfault, bug_if, if◌then◌else◌, ◌>>=◌, ◌>>◌,
}
use midori_db.Datastructure.Hashtable.{
  Entry, Hashtable, hashtable_init, hashtable_put, hashtable_get, hashtable_remove, hashtable_free,
  hashtable_foreach, hashtable_str_compare, hashtable_str_hash,
}
use midori_db.Datastructure.Words.{word_size, word_bytes, read_word}
use midori_db.Primitive.Name.{table_max_name}

-- MIDORIDB_OK, -MIDORIDB_ERROR, -MIDORIDB_INTERNAL and -MIDORIDB_NOMEM
pub data ReturnCode : Type 0 where
  midoridb_ok midoridb_error midoridb_internal midoridb_nomem : ReturnCode

-- The key of a name: its bytes with the NUL, cut to the size of the field.
abbrev pub name_key : List ℕ → List ℕ
name_key name = take (min (length name + 1) (table_max_name + 1)) (name ++ 0 ∷ [])

-- Whether the requests of `database_open` and of `hashtable_init` are granted.
unfoldable pub database_open : Bool → Bool → ReturnCode × Option Hashtable
unfolding hashtable_init
database_open granted init_granted =
    if granted
    then elim (hashtable_init init_granted) [
      | none ↦ (midoridb_error, none)
      | some tables ↦ (midoridb_ok, some tables)
    ]
    else (midoridb_error, none)

unfoldable pub database_table_get : Hashtable → List ℕ → Outcome (Option ℕ)
unfolding hashtable_get read_word
database_table_get tables table_name =
    hashtable_get hashtable_str_compare hashtable_str_hash tables (name_key table_name) >>= λ found.
    elim found [
      | none ↦ ok none
      | some entry ↦ read_word entry.value 0 >>= λ table. ok (if_null table)
    ]
  where
    -- A table at address 0 is no table.
    if_null : ℕ → Option ℕ
    if_null zero = none
    if_null (suc p) = some (suc p)

unfoldable pub database_table_exists : Hashtable → List ℕ → Outcome Bool
unfolding database_table_get
database_table_exists tables table_name = database_table_get tables table_name >>= λ table.
    ok (elim table [ none ↦ false | some _ ↦ true ])

-- `table` is the address of a table with the name `name`.
unfoldable pub database_table_add :
    Bool → Bool → Hashtable → List ℕ → ℕ → Outcome (ReturnCode × Hashtable)
unfolding database_table_exists hashtable_put word_bytes
database_table_add granted resize_granted tables name table =
    database_table_exists tables name >>= λ exists. elim exists [
      | true ↦ ok (midoridb_error, tables)
      | false ↦
          hashtable_put hashtable_str_compare hashtable_str_hash granted resize_granted tables
            (name_key name) (word_bytes word_size table)
          >>= λ put. ok (if put.0 then midoridb_ok else midoridb_nomem, put.1)
    ]

-- The loop of `database_close` over the entries: `destroyed` says of which address `table_destroy`
-- succeeds.
unfoldable pub free_tables : (ℕ → Bool) → Hashtable → List Entry → Outcome Hashtable
unfolding read_word hashtable_remove
free_tables destroyed tables [] = ok tables
free_tables destroyed tables (entry ∷ entries) = do
  table ← read_word entry.value 0
  bug_if (if destroyed table then false else true)
  (removed, tables') ← hashtable_remove hashtable_str_compare hashtable_str_hash tables entry.key
  elim removed [ none ↦ fault segfault | some _ ↦ free_tables destroyed tables' entries ]

unfoldable pub database_close : (ℕ → Bool) → Hashtable → Outcome (Unit {0})
unfolding free_tables hashtable_foreach hashtable_free
database_close destroyed tables =
    free_tables destroyed tables (hashtable_foreach tables.array) >>= λ left. hashtable_free left
