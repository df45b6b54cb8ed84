-- ===== src/Primitive/Destroy.antt =====
-- `table_destroy` of src/primitive/table.c.
use midori_db.Prelude.{Bool, true, false, ℕ, List, [], Option, none, some, if◌then◌else◌}
use midori_db.Primitive.Table.{Table}
use midori_db.Primitive.Vacuum.{free_blocks}

-- The pointer that `table` points to, and the texts freed. `destroyed` says whether
-- `pthread_mutex_destroy` succeeds; blocks, their head and the table itself are freed too.
unfoldable pub table_destroy : Bool → Option Table → Bool × Option Table × List ℕ
unfolding free_blocks
table_destroy destroyed none = (false, none, [])
table_destroy destroyed (some table) =
    if destroyed
    then (true, none, free_blocks table.columns table.blocks)
    else (false, some table, [])
