-- ===== src/Engine.antt =====
-- src/engine: the database and its tables, the cursor over a result, and the arithmetic of INSERT.
pub mod Cursor
pub mod Database
pub mod ExecutorCreate
pub mod ExecutorDelete
pub mod ExecutorUpdate
pub mod ExecutorInsert
pub mod OptimiserInsert
pub mod Query
pub mod Tables
mod Tests
