-- ===== src/Heap.antt =====
-- The heap access method (crates/pg-am-heap).
pub mod LinePointer
pub mod Bytes
pub mod Page
pub mod Toast
pub mod Datum
pub mod TupleHeader
pub mod Tuple
mod Examples
