-- ===== src/Datastructure.antt =====
-- src/datastructure: the containers that the rest of the database is built on.
pub mod Vector
pub mod Words
pub mod Pointers
pub mod Stack
pub mod Queue
pub mod Linkedlist
mod Tests
pub mod Hashtable
