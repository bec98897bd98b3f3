-- ===== src/Replication.antt =====
-- The background replication of a store (datacake-eventual-consistency/src/replication): the
-- batches that a node sends, and the polls by which it repairs itself.
--
-- The channel is the list of what is queued at a tick. What other nodes answer is an argument.
pub mod Distributor
pub mod Batches
pub mod Tracker
pub mod Polling
pub mod Sync
pub mod SyncEnd
pub mod Fetch
pub mod Chunks
pub mod FetchLog
pub mod Fetching
