-- ===== src/Timestamp/Send.antt =====
-- `HLCTimestamp::send` (datacake-crdt/src/timestamp.rs): a new timestamp of the own clock.
use datacake.Base.{ℕ, ◌+◌, ◌-◌, max, Option, none, some, ltb, ◌==◌, if◌then◌else◌}
use datacake.Base.Result.{Result, ok, err, ◌>>=◌}
use datacake.Timestamp.Fields.{
  Duration, HlcTimestamp, max_clock_drift, pack, node, counter, datacake_timestamp,
  get_datacake_timestamp,
}

pub data TimestampError : Type 0 where
  duplicated_node : ℕ → TimestampError
  clock_drift overflow : TimestampError

-- `u16::checked_add(1)`.
abbrev pub checked_suc : ℕ → Option ℕ
checked_suc c = if c == 0xFFFF then none else some (c + 1)

-- A method on `&mut self` returns the new clock beside its result. `ts` is the time that the call
-- has read.
unfoldable pub send_at : Duration → HlcTimestamp → HlcTimestamp × Result TimestampError HlcTimestamp
send_at ts self =
    let ts_old = datacake_timestamp self in
    let c_old = counter self in
    let ts_new = max ts_old ts in
    if ltb max_clock_drift (ts_new - ts)
    then (self, err clock_drift)
    else elim (if ts_old == ts_new then checked_suc c_old else some 0) [
      | none ↦ (self, err overflow)
      | some c_new ↦ let self' = pack ts_new c_new (node self) in (self', ok self')
    ]

unfoldable pub send :
    Duration → HlcTimestamp → Option (HlcTimestamp × Result TimestampError HlcTimestamp)
send unix self = do ts ← get_datacake_timestamp unix; some (send_at ts self)
