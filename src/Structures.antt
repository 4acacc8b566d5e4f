-- ===== src/Structures.antt =====
-- The data structures of include/data_structure.
pub mod Ring
pub mod Queue
pub mod SessionQueue
pub mod Vector
pub mod Set
pub mod Hashmap
pub mod Bitset
mod Tests
