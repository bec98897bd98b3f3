-- ===== src/Timestamp/Monotonic.antt =====
-- `send` and the order of timestamps (datacake-crdt/src/timestamp.rs).
use datacake.Base.{
  ◌+◌, ◌^◌, ◌≤◌, ◌<◌, ◌≡◌, max, some, arith, ◌==◌, if◌then◌else◌, Option-cases, ◌≢◌, ◌⊎◌, inl, inr,
}
use datacake.Base.Result.{ok, err}
use datacake.Timestamp.Fields.{
  Duration, HlcTimestamp, max_clock_drift, from_secs, pack, node, counter, datacake_timestamp,
  get_datacake_timestamp, datacake_epoch, counter_lem, node_lem,
}
use datacake.Timestamp.Layout.{
  tick, IsAligned, InRange, fields-pack, datacake_timestamp-IsAligned, datacake_timestamp-pack,
  get_datacake_timestamp-IsAligned, lt-pack_of_later,
}
use datacake.Timestamp.Send.{TimestampError, clock_drift, overflow, send_at, send}

-- What a successful call has computed.
send_at_ok :
    (ts : Duration) (self : HlcTimestamp) {self' t : HlcTimestamp}
    → send_at ts self ≡ (self', ok t)
    → let d = max (datacake_timestamp self) ts in
      let c = if datacake_timestamp self == d then counter self + 1 else 0 in
      (t ≡ pack d c (node self))
      × (self' ≡ t)
      × (datacake_timestamp self ≤ ts + max_clock_drift)
      × (c < 2 ^ 16)
unfolding send_at
send_at_ok ts self h = ground (arith, counter_lem self)

advance :
    (ts : Duration) (self : HlcTimestamp)
    → self < 2 ^ 64
    → IsAligned ts
    → ts + max_clock_drift < from_secs (2 ^ 32)
    → datacake_timestamp self ≤ ts + max_clock_drift
    → let d = max (datacake_timestamp self) ts in
      let c = if datacake_timestamp self == d then counter self + 1 else 0 in
      c < 2 ^ 16
      → let t = pack d c (node self) in
        (self < t) × (t < 2 ^ 64) × (node t ≡ node self) × (ts ≤ datacake_timestamp t)
advance ts self h a b drift k =
    let d = max (datacake_timestamp self) ts in
    let c = if datacake_timestamp self == d then counter self + 1 else 0 in
    let aligned : IsAligned d = omega (arith, datacake_timestamp-IsAligned self) in
    let r : InRange d c (node self) = (omega arith, k, omega (arith, node_lem self)) in
    let f = fields-pack d c (node self) r in
    (
      lt-pack_of_later self d c (node self) h r aligned (omega arith) (λ e. ground arith),
      f.4,
      f.0,
      omega (arith, datacake_timestamp-pack d c (node self) r),
    )

-- The system clock is far enough from the end of the 32-bit seconds.
abbrev pub BeforeEnd : Duration → Type 0
BeforeEnd unix = unix + max_clock_drift < datacake_epoch + from_secs (2 ^ 32)

-- While the clock of the system is 4100 s short of the end of the format, a timestamp that `send`
-- returns is the new clock, later than the old one, of the same node, at or after the time read.
pub lt-send :
    (unix : Duration) (self : HlcTimestamp) {self' t : HlcTimestamp}
    → self < 2 ^ 64
    → BeforeEnd unix
    → send unix self ≡ some (self', ok t)
    → (self' ≡ t)
      × (self < t)
      × (t < 2 ^ 64)
      × (node t ≡ node self)
      × (unix < datacake_epoch + datacake_timestamp t + tick)
unfolding send
lt-send unix self {self'} {t} h b e = elim (Option-cases (get_datacake_timestamp unix)) [
  | inl none_read ↦ absurd (ground arith)
  | inr (ts, read) ↦
      let at = get_datacake_timestamp-IsAligned unix read in
      let sent : send_at ts self ≡ (self', ok t) = ground arith in
      let done = send_at_ok ts self sent in
      let (gt, w, n, le) = advance ts self h at.0 (omega arith) done.2 done.3 in
      (done.1, rw done.0 gt, rw done.0 w, rw done.0 n, rw done.0 (omega arith))
]

-- A refusal leaves the clock as it was. It is `clock_drift` where the clock is more than 4100 s
-- ahead of the time read, and `overflow` where the time has not passed the clock and the counter
-- is at its greatest value.
pub send_at_err :
    (ts : Duration) (self : HlcTimestamp) {self' : HlcTimestamp} {x : TimestampError}
    → send_at ts self ≡ (self', err x)
    → (self' ≡ self)
      × (((x ≡ clock_drift) × (ts + max_clock_drift < datacake_timestamp self))
          ⊎ ((x ≡ overflow)
              × (ts ≤ datacake_timestamp self)
              × (datacake_timestamp self ≤ ts + max_clock_drift)
              × (counter self ≡ 0xFFFF)))
unfolding send_at
send_at_err ts self h = ground arith

-- Otherwise the call succeeds.
pub send_at_total :
    (ts : Duration) (self : HlcTimestamp)
    → datacake_timestamp self ≤ ts + max_clock_drift
    → (ts ≤ datacake_timestamp self → counter self ≢ 0xFFFF)
    → let t = (send_at ts self).0 in send_at ts self ≡ (t, ok t)
unfolding send_at
send_at_total ts self d c = ground arith
