-- ===== src/Primitive.antt =====
-- src/primitive: tables, their columns, and the data blocks that hold their rows.
pub mod Name
pub mod Column
pub mod Row
pub mod Table
pub mod Vacuum
pub mod TableColumns
pub mod Destroy
pub mod History
mod Tests
