-- ===== src/Storage/Wal.antt =====
-- The write-ahead log (crates/pg-storage/src/wal).
pub mod RecordType
pub mod Frame
pub mod RoundTrip
pub mod Refusals
pub mod Codec
pub mod Heap
pub mod Btree
pub mod Hnsw
pub mod Accepted
pub mod SmallCodec
mod Examples
