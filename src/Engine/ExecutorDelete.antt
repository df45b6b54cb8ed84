-- ===== src/Engine/ExecutorDelete.antt =====
-- src/engine/executor_delete.c: DELETE scans the rows of a table and deletes those for which the
-- condition of the statement evaluates to true.
--
-- The operations on doubles and the C library's parsing of dates are the parameter `Platform`.
pub mod Compare
pub mod Fields
pub mod Eval
pub mod Scan
pub mod Checked
pub mod Evaluated
pub mod Conditions
pub mod Swept
mod Tests
pub mod Laws
