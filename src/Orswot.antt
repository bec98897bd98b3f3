-- ===== src/Orswot.antt =====
-- The observed-remove set without tombstones: `OrSWotSet` and its `NodeVersions`
-- (datacake-crdt/src/orswot.rs).
--
-- `[BTreeMap<u8, HLCTimestamp>; N]` is a list of N maps. `none` stands for the panic of an index
-- beyond N, which is the only panic of these operations.
pub mod Versions
pub mod Set
pub mod Diff
pub mod Merge
pub mod Slot
pub mod Updates
pub mod Observed
pub mod Replica
pub mod Convergence
pub mod MergeView
pub mod MergeValid
pub mod MergeLoops
pub mod MergeSlots
pub mod MergeLaws
pub mod Purge
pub mod Safety
pub mod SafeUpdates
pub mod SafeMerge
pub mod Changes
pub mod WillApply
