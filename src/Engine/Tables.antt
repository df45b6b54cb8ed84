-- ===== src/Engine/Tables.antt =====
-- The tables that the hash table of a database has the addresses of, as the executors of src/engine
-- look for them.
use midori_db.Prelude.{
  ℕ, List, Option, none, some, ◌==◌, if◌then◌else◌, Outcome, ok, fault, segfault, ◌>>=◌,
}
use midori_db.Datastructure.Hashtable.{Hashtable}
use midori_db.Primitive.Table.{Table}
use midori_db.Engine.Database.{database_table_exists, database_table_get}

-- The tables by their address.
abbrev pub Tables : Type 0
Tables = ℕ → Option Table

abbrev pub put_table : Tables → ℕ → Table → Tables
put_table tables address table = λ a. if a == address then some table else tables a

-- `database_table_exists`, then `database_table_get`: the address and the table of a name.
unfoldable pub find_table : Hashtable → Tables → List ℕ → Outcome (Option (ℕ × Table))
unfolding database_table_exists database_table_get
find_table db tables table_name = database_table_exists db table_name >>= λ exists.
    if exists then (database_table_get db table_name >>= λ found. table_at found) else ok none
  where
    table_at : Option ℕ → Outcome (Option (ℕ × Table))
    table_at none = fault segfault
    table_at (some address) = elim (tables address) [
      | none ↦ fault segfault
      | some table ↦ ok (some (address, table))
    ]
