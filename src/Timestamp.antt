-- ===== src/Timestamp.antt =====
-- The hybrid logical clock: `HLCTimestamp`, a packed `u64` (datacake-crdt/src/timestamp.rs).
--
-- A `Duration` of the standard library is its number of nanoseconds, a `u64`, `u16` or `u8` a
-- number with its range stated where it matters. `self.0` is the timestamp itself. The system
-- clock is an argument, `unix`: what `SystemTime::now().duration_since(UNIX_EPOCH)` returned.
-- `none` stands for a panic: a failed `assert!`, a clock before the epoch, or an overflow.
pub mod Fields
pub mod Text
pub mod Layout
pub mod Send
pub mod Monotonic
pub mod Recv
pub mod Causal
