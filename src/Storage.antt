-- ===== src/Storage.antt =====
-- The storage layer (crates/pg-storage).
pub mod LittleEndian
pub mod Types
pub mod Error
pub mod PageAllocator
pub mod Superblock
pub mod Touched
pub mod Analysis
pub mod LsnClock
pub mod FreelistMeta
pub mod Wal
mod Examples
