-- ===== src/Store.antt =====
-- The handle of a replicated store (datacake-eventual-consistency/src/lib.rs and error.rs): a
-- mutation is applied locally, queued for the distributor, and sent to the nodes that its
-- consistency level selects.
pub mod Distribution
pub mod Handle
pub mod Writes
