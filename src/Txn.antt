-- ===== src/Txn.antt =====
-- crates/pg-txn: transactions, their locks, their visibility.
pub mod Victims
pub mod Lock
pub mod Clog
pub mod Visibility
pub mod Manager
pub mod Deadlock
pub mod Cycles
mod Examples
