-- ===== src/Collections.antt =====
-- The containers of the Rust standard library that vexdb's code uses, by their documented
-- behaviour: BinaryHeap and HashMap.
pub mod Heap
pub mod Dict
pub mod Unique
pub mod Vec
