-- ===== src/Btree.antt =====
-- The B-tree access method (crates/pg-am-btree).
pub mod Order
pub mod Key
pub mod KeyOrder
mod Examples
