-- ===== src/Lib.antt =====
-- Models of MidoriDB, a small SQL database in C, and what is proved of them.
--
-- Parts and files:
-- - Bit: src/lib/bit.c. A byte buffer is the list of its bytes.
-- - Primitive: src/primitive. Name has the name test of table.c and column.c, Column the
--   columns and their sizes (column.c, row.c), Row the loops over the cells of a row with the
--   heap that varchar texts stand on (row.c), Table the data blocks and the insertion, deletion
--   and update of rows (table.c, row.c), Vacuum the compaction of vacuum.c, TableColumns the
--   functions of column.c that add and remove columns of a table with rows, Destroy the end of
--   a table, and History the sequences of insertions, deletions and vacuums.
-- - Heap: the texts that malloc hands out (include/compiler/heap.h).
-- - Datastructure: src/datastructure. Vector is the byte buffer, Words the pointers in it,
--   Pointers a buffer of pointers, Stack and Queue the two containers on it, Hashtable the
--   chained table, Linkedlist the circular lists by address. The btree is not modelled.
--   Elsewhere a circular list is a list of the model.
-- - Engine: src/engine. Database has the tables by name (database.c), Cursor the steps through
--   a result (query.c), OptimiserInsert the arithmetic of INSERT values (optimiser_insert.c),
--   ExecutorInsert the rows of INSERT (executor_insert.c), where Cells, BuildRow and Run have
--   the code, Built, Start and Rows the row that is built, and Laws and Statement the table
--   after it, Tables the search for a table, and ExecutorDelete the conditions of DELETE and
--   its scan of a table (executor_delete.c), where Compare has the comparisons of values,
--   Fields those of columns, Eval the tree of a condition, Scan the loops, Checked and
--   Evaluated what makes a condition evaluate, Conditions what conditions mean, Swept and Laws
--   the rows that a scan leaves, and ExecutorCreate the statement CREATE (executor_create.c),
--   where Laws, Columns and Created have the table that its items make and Statement the
--   database after it. ExecutorUpdate has the statement UPDATE (executor_update.c): Assign the
--   assignment of a value to a column, Scan the conditions and the loops over the rows, whose
--   comparisons are those of ExecutorDelete as their text is the same in the two files, and
--   Laws what conditions see after an assignment. Query has the phases of a query (query.c,
--   optimiser.c, executor.c, and semantic.c of src/parser), which hand a statement from one to
--   the next, and Query/Create a CREATE through all of them.
-- - Parser: src/parser. AstCreate has the nodes of a CREATE (include/parser/ast.h), and
--   SemanticCreate the check of a CREATE (semantic_create.c), which keeps the names of the
--   columns in a hash table: Accepts has what it is to accept, Columns its first loop and the
--   clean-up, Laws the rest. What this rests on is in Datastructure: Hashtable/Strings,
--   StringSet and StringMap, the table as a set of C strings and a map from them, and
--   Hashtable/Emptied, the removal of all its entries.
--
-- A call that returns is `ok` of what it returns with the state after it; a call that ends the
-- process, by a failed BUG_ON, a wild access or a trap, is `fault`. Memory requests that can fail are
-- an argument that says which of them are granted. Loops over lists and slots recurse on the rows or
-- on the number of rounds that the source's own bound gives, so none runs out of fuel: the number of
-- rounds is the length of the list of blocks, the number of slots of a block, or the number of
-- pointers in a stack or a queue. A list of links is counted in rounds that the caller gives, where
-- one more than its length is enough.
--
-- Not modelled: a zalloc that fails inside the insertion of a row with its clean-up, the btree,
-- which nothing else in the program uses, and the reading of a column. The generated lexer and
-- parser, the trees that they build, the checks on statements other than CREATE, and the optimisers
-- and the executor of SELECT are parameters of query_execute. The optimiser of INSERT is modelled
-- on one expression. Left out are a row wider than a block in a table to which a column is added,
-- the locks, the texts of error messages, and the bytes of numbers and dates.
pub mod Bit
pub mod Datastructure
pub mod Engine
pub mod Heap
pub mod Parser
pub mod Prelude
pub mod Primitive
