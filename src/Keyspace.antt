-- ===== src/Keyspace.antt =====
-- The keyspaces of the store: the actor of one keyspace and its storage
-- (datacake-eventual-consistency/src/keyspace and storage.rs).
--
-- The storage is a parameter: its state is threaded through the handlers, and what it answers is
-- whatever the parameter computes. `self.clock.get_time()` is an argument, `now`.
pub mod Storage
pub mod Actor
pub mod Agreement
pub mod MemStore
pub mod Contract
pub mod BulkContract
pub mod MemStoreInvariant
pub mod Bulk
pub mod BulkSettle
pub mod NoPanic
pub mod BulkAgreement
pub mod Purging
pub mod Timestamps
pub mod Group
pub mod Loading
pub mod Progress
