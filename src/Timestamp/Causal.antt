-- ===== src/Timestamp/Causal.antt =====
-- `recv` and the order of timestamps (datacake-crdt/src/timestamp.rs).
use datacake.Base.{
  ℕ, ◌+◌, ◌-◌, ◌^◌, ◌≤◌, ◌<◌, ◌≡◌, max, some, arith, ltb, ◌==◌, Option-cases, Bool-cases, ◌⊎◌, inl,
  inr,
}
use datacake.Base.Result.{ok, err, ◌>>=◌}
use datacake.Timestamp.Fields.{
  Duration, HlcTimestamp, max_clock_drift, from_secs, pack, new, node, counter, datacake_timestamp,
  get_datacake_timestamp, datacake_epoch, counter_lem, node_lem,
}
use datacake.Timestamp.Layout.{
  IsAligned, InRange, fields-pack, datacake_timestamp-IsAligned, datacake_timestamp-pack,
  get_datacake_timestamp-IsAligned, get_datacake_timestamp-some, lt-pack_of_later,
}
use datacake.Timestamp.Send.{TimestampError, duplicated_node, clock_drift, overflow}
use datacake.Timestamp.Recv.{merged_counter, recv_at, recv}
use datacake.Timestamp.Monotonic.{BeforeEnd}

merged_counter_bounds :
    (n o m co cm c : ℕ)
    → co < 2 ^ 16
    → cm < 2 ^ 16
    → merged_counter n o m co cm ≡ some c
    → (c < 2 ^ 16) × (o ≡ n → co < c) × (m ≡ n → cm < c)
unfolding merged_counter
merged_counter_bounds n o m co cm c ho hm h = ground arith

abbrev pub merged : Duration → HlcTimestamp → HlcTimestamp → Duration
merged ts self msg = max (max (datacake_timestamp self) ts) (datacake_timestamp msg)

-- With the time in range the only panic, the assertion of `new`, does not happen.
pub recv_at-some :
    (ts : Duration) (self msg : HlcTimestamp) (c : ℕ)
    → IsAligned ts
    → ts + max_clock_drift < from_secs (2 ^ 32)
    → merged ts self msg ≤ ts + max_clock_drift
    → merged_counter
        (merged ts self msg)
        (datacake_timestamp self)
        (datacake_timestamp msg)
        (counter self)
        (counter msg)
      ≡ some c
    → let t = pack (merged ts self msg) c in
      recv_at ts self msg ≡ some (t (node self), ok (t (node msg)))
unfolding recv_at new
recv_at-some ts self msg c a b d m =
    let bounds =
      merged_counter_bounds (merged ts self msg) _ _ _ _ c (omega (arith, counter_lem self))
        (omega (arith, counter_lem msg)) m in
    let r : InRange (merged ts self msg) c (node self) =
      (omega arith, bounds.0, omega (arith, node_lem self)) in
    ground (arith, fields-pack (merged ts self msg) c (node self) r)

recv_at_cases :
    (ts : Duration) (self msg : HlcTimestamp)
    → IsAligned ts
    → ts + max_clock_drift < from_secs (2 ^ 32)
    → ((x : TimestampError) × (recv_at ts self msg ≡ some (self, err x)))
      ⊎ ((c : ℕ) × (merged ts self msg ≤ ts + max_clock_drift)
          × (merged_counter
                (merged ts self msg)
                (datacake_timestamp self)
                (datacake_timestamp msg)
                (counter self)
                (counter msg)
              ≡ some c))
unfolding recv_at
recv_at_cases ts self msg a b = elim (Bool-cases (ltb max_clock_drift (merged ts self msg - ts))) [
  | inl far ↦ inl (clock_drift, ground arith)
  | inr near ↦
      elim (Option-cases (
        merged_counter (merged ts self msg) (datacake_timestamp self) (datacake_timestamp msg)
          (counter self) (counter msg))) [
            | inl full ↦ inl (overflow, ground arith)
            | inr (c, e) ↦ inr (c, ground arith, e)
          ]
]

-- The word that `recv` packs is later than both words that it has seen.
merged_later :
    (ts : Duration) (self msg : HlcTimestamp) (c n : ℕ)
    → self < 2 ^ 64
    → msg < 2 ^ 64
    → IsAligned ts
    → ts + max_clock_drift < from_secs (2 ^ 32)
    → merged ts self msg ≤ ts + max_clock_drift
    → merged_counter
        (merged ts self msg)
        (datacake_timestamp self)
        (datacake_timestamp msg)
        (counter self)
        (counter msg)
      ≡ some c
    → n < 2 ^ 8
    → let t = pack (merged ts self msg) c n in
      (self < t) × (msg < t) × (t < 2 ^ 64) × (node t ≡ n) × (ts ≤ datacake_timestamp t)
merged_later ts self msg c n hs hm a b d e hn =
    let m = merged ts self msg in
    let k =
      merged_counter_bounds m _ _ _ _ c (omega (arith, counter_lem self))
        (omega (arith, counter_lem msg)) e in
    let r : InRange m c n = (omega arith, k.0, hn) in
    let f = fields-pack m c n r in
    let aligned : IsAligned m =
      omega (arith, datacake_timestamp-IsAligned self, datacake_timestamp-IsAligned msg) in
    (
      lt-pack_of_later self m c n hs r aligned (omega arith) k.1,
      lt-pack_of_later msg m c n hm r aligned (omega arith) k.2,
      f.4,
      f.0,
      omega (arith, datacake_timestamp-pack m c n r),
    )

-- `recv` never panics once the system clock is past the datacake epoch and 4100 s short of the end
-- of the format. It refuses and leaves the clock alone, or moves the clock past its old value and
-- past the message, keeping its node and the 64 bits, and returns a timestamp of the message's node that is later
-- than both as well.
pub lt-recv :
    (unix : Duration) (self msg : HlcTimestamp)
    → self < 2 ^ 64
    → msg < 2 ^ 64
    → datacake_epoch ≤ unix
    → BeforeEnd unix
    → ((x : TimestampError) × (recv unix self msg ≡ some (self, err x)))
      ⊎ ((self' t : HlcTimestamp) × (recv unix self msg ≡ some (self', ok t))
          × (self < self')
          × (msg < self')
          × (self' < 2 ^ 64)
          × (node self' ≡ node self)
          × (self < t)
          × (msg < t)
          × (node t ≡ node msg))
unfolding recv
lt-recv unix self msg hs hm p b = elim (Bool-cases (node self == node msg)) [
  | inl same ↦ inl (duplicated_node (node msg), ground arith)
  | inr other ↦ elim (Option-cases (get_datacake_timestamp unix)) [
    | inl unread ↦ absurd (get_datacake_timestamp-some unix p unread)
    | inr (ts, read) ↦
        let at = get_datacake_timestamp-IsAligned unix read in
        elim (recv_at_cases ts self msg at.0 (omega arith)) [
          | inl (x, e) ↦ inl (x, rw (other, read, ◌>>=◌) e)
          | inr (c, d, e) ↦
              let s =
                merged_later ts self msg c (node self) hs hm at.0 (omega arith) d e
                  (omega (arith, node_lem self)) in
              let m =
                merged_later ts self msg c (node msg) hs hm at.0 (omega arith) d e
                  (omega (arith, node_lem msg)) in
              inr (
                pack (merged ts self msg) c (node self),
                pack (merged ts self msg) c (node msg),
                rw (other, read, ◌>>=◌) (recv_at-some ts self msg c at.0 (omega arith) d e),
                s.0,
                s.1,
                s.2,
                s.3,
                m.0,
                m.1,
                m.3,
              )
        ]
  ]
]
