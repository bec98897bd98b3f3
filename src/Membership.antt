-- ===== src/Membership.antt =====
-- The members of the cluster (datacake-node/src/node.rs, lib.rs and rpc/network.rs): how they are
-- built from the gossip library's state, the watch over their changes, and the connections.
--
-- What the gossip library hands out is an argument. A watch channel keeps its last value; the
-- model is a sequence of steps, one for each value that is seen.
pub mod Member
pub mod Watch
pub mod Changes
pub mod Live
pub mod Network
