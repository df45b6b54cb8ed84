-- ===== src/Engine/ExecutorUpdate.antt =====
-- src/engine/executor_update.c: UPDATE on the tables of the model.
--
-- Its functions for the conditions have the text of those of executor_delete.c, so the model has
-- them once, in Engine/ExecutorDelete.
pub mod Assign
pub mod Laws
pub mod Scan
mod Tests
