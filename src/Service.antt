-- ===== src/Service.antt =====
-- The RPC services of a store and their clients
-- (datacake-eventual-consistency/src/rpc): what a node does with the payloads it is sent.
--
-- A node is the state that its services share. The timestamps that the clock actor hands out are an
-- argument, `time`, by their number; those that it is given to observe are recorded.
pub mod Node
pub mod Consistency
pub mod Agreement
pub mod Replication
pub mod Clients
