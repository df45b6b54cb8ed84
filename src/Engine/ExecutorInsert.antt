-- ===== src/Engine/ExecutorInsert.antt =====
-- src/engine/executor_insert.c: INSERT builds a row for each list of values and inserts it.
--
-- What `mktime` makes of the fields that `strptime` reads is a parameter.
pub mod Cells
pub mod BuildRow
pub mod Built
pub mod Rows
pub mod Run
pub mod Start
pub mod Laws
pub mod Statement
mod Tests
