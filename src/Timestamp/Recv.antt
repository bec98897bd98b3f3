-- ===== src/Timestamp/Recv.antt =====
-- `HLCTimestamp::recv` (datacake-crdt/src/timestamp.rs): the clock takes in the timestamp of a
-- message of another node.
use datacake.Base.{ℕ, ◌-◌, max, Option, none, some, ltb, ◌==◌, if◌then◌else◌, ◌&&◌}
use datacake.Base.Result.{Result, ok, err, ◌>>=◌}
use datacake.Timestamp.Fields.{
  Duration, HlcTimestamp, max_clock_drift, pack, new, node, counter, datacake_timestamp,
  get_datacake_timestamp,
}
use datacake.Timestamp.Send.{TimestampError, duplicated_node, clock_drift, overflow, checked_suc}

-- The four cases of the new counter.
unfoldable pub merged_counter : Duration → Duration → Duration → ℕ → ℕ → Option ℕ
merged_counter ts_new ts_old ts_msg c_old c_msg =
    if ts_new == ts_old && ts_new == ts_msg
    then checked_suc (max c_old c_msg)
    else if ts_new == ts_old
    then checked_suc c_old
    else if ts_new == ts_msg
    then checked_suc c_msg
    else some 0

-- The part after the check of the nodes, with the time read as `ts`.
unfoldable pub recv_at :
    Duration
    → HlcTimestamp
    → HlcTimestamp
    → Option (HlcTimestamp × Result TimestampError HlcTimestamp)
recv_at ts self msg =
    let ts_msg = datacake_timestamp msg in
    let c_msg = counter msg in
    let ts_old = datacake_timestamp self in
    let c_old = counter self in
    let ts_new = max (max ts_old ts) ts_msg in
    if ltb max_clock_drift (ts_msg - ts)
    then some (self, err clock_drift)
    else if ltb max_clock_drift (ts_new - ts)
    then some (self, err clock_drift)
    else elim (merged_counter ts_new ts_old ts_msg c_old c_msg) [
      | none ↦ some (self, err overflow)
      | some c_new ↦
          let self' = pack ts_new c_new (node self) in
          new ts_new (counter self') (node msg) >>= λ t. some (self', ok t)
    ]

unfoldable pub recv :
    Duration
    → HlcTimestamp
    → HlcTimestamp
    → Option (HlcTimestamp × Result TimestampError HlcTimestamp)
recv unix self msg =
    if node self == node msg
    then some (self, err (duplicated_node (node msg)))
    else get_datacake_timestamp unix >>= λ ts. recv_at ts self msg
