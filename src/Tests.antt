-- ===== src/Tests.antt =====
-- Tests of the model on concrete inputs, and each theorem at an input that meets its hypotheses.
pub mod Clocks
pub mod Stores
pub mod Sets
pub mod Merges
pub mod Keyspaces
pub mod Selectors
pub mod Groups
mod Bulks
mod Members
mod Polls
mod Rpcs
mod Texts
