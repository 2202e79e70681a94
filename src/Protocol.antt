-- ===== src/Protocol.antt =====
-- The message labels of crates/common/src/lib.rs, one module for each protocol.
pub mod Custom
pub mod Root
pub mod Blk
pub mod Net
pub mod Disjoint
