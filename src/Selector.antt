-- ===== src/Selector.antt =====
-- The choice of the replicas of a write (datacake-node/src/nodes_selector.rs).
--
-- Socket addresses and names of data centers are numbers: they are only compared. `usize` overflow
-- is a panic, `none`, as in a build with overflow checks. The random choice of data centers is a
-- parameter. Log lines are left out.
pub mod Cycler
pub mod Select
pub mod Quorum
pub mod Actor
