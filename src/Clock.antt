-- ===== src/Clock.antt =====
-- The clock of a node: an actor that owns one `HLCTimestamp` and handles its events one at a time
-- (datacake-node/src/clock.rs).
--
-- The channels and the sleep at `CLOCK_BACKPRESSURE_LIMIT` change no state and are left out.
-- `none` is the death of the actor by a panic.
pub mod Actor
pub mod Causality
pub mod Exhaustion
