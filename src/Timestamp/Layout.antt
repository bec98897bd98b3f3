-- ===== src/Timestamp/Layout.antt =====
-- What the packed word says, and the order of the words (datacake-crdt/src/timestamp.rs).
use datacake.Base.{
  ℕ, ◌+◌, ◌*◌, ◌/◌, ◌%◌, ◌^◌, ◌≤◌, ◌<◌, ◌≡◌, ◌↔◌, ◌≢◌, ◌⊎◌, inl, inr, none, some, arith,
}
use native.Mathlib.Decide.{dec_lt}
use datacake.Timestamp.Fields.{
  Duration, HlcTimestamp, as_secs, subsec_millis, pack, node, counter, seconds, fractional,
  parts_as_duration, datacake_timestamp, get_datacake_timestamp, fields, pack_lem, datacake_epoch,
}

-- The resolution that a timestamp keeps.
abbrev pub tick : Duration
tick = 4_000_000

-- A duration that is a whole number of ticks.
abbrev pub IsAligned : Duration → Type 0
IsAligned d = d % tick ≡ 0

abbrev pub InRange : Duration → ℕ → ℕ → Type 0
InRange d c n = (as_secs d < 2 ^ 32) × (c < 2 ^ 16) × (n < 2 ^ 8)

-- Every field of a packed timestamp reads back: the node, the counter, the seconds and the
-- milliseconds divided by four.
pub fields-pack :
    (d c n : ℕ)
    → InRange d c n
    → (node (pack d c n) ≡ n)
      × (counter (pack d c n) ≡ c)
      × (seconds (pack d c n) ≡ as_secs d)
      × (fractional (pack d c n) ≡ subsec_millis d / 4)
      × (pack d c n < 2 ^ 64)
fields-pack d c n r = omega (arith, fields, pack_lem d c n)

pub datacake_timestamp_lem :
    (t : HlcTimestamp)
    → datacake_timestamp t ≡ t / 2 ^ 32 * 1_000_000_000 + t / 2 ^ 24 % 2 ^ 8 * tick
unfolding datacake_timestamp
datacake_timestamp_lem t = omega (arith, fields)

pub datacake_timestamp-IsAligned : (t : HlcTimestamp) → IsAligned (datacake_timestamp t)
datacake_timestamp-IsAligned t = omega (arith, datacake_timestamp_lem t)

-- The duration reads back, rounded down to a multiple of 4 ms.
pub datacake_timestamp-pack :
    (d c n : ℕ) → InRange d c n → datacake_timestamp (pack d c n) ≡ d / tick * tick
unfolding datacake_timestamp parts_as_duration
datacake_timestamp-pack d c n r = omega (arith, fields-pack d c n r)

-- A `u64` whose fraction is below a second is packed again from its fields to itself.
pub pack-fields :
    (t : HlcTimestamp)
    → t < 2 ^ 64
    → fractional t < 250
    → pack (datacake_timestamp t) (counter t) (node t) ≡ t
pack-fields t h f =
    omega (
      arith,
      fields,
      datacake_timestamp_lem t,
      pack_lem (datacake_timestamp t) (counter t) (node t),
    )

-- The system clock is read to a whole number of ticks since the datacake epoch, rounded down.
pub get_datacake_timestamp-IsAligned :
    (unix : Duration) {d : Duration}
    → get_datacake_timestamp unix ≡ some d
    → IsAligned d × (datacake_epoch + d ≤ unix) × (unix < datacake_epoch + d + tick)
unfolding get_datacake_timestamp
get_datacake_timestamp-IsAligned unix h = ground arith

ticks : (d : ℕ) → (d / tick ≡ as_secs d * 250 + subsec_millis d / 4) × (subsec_millis d / 4 < 250)
ticks d = omega arith

-- Packed words compare as their times, then their counters, then their nodes.
pub lt-pack :
    (d c n d' c' n' : ℕ)
    → InRange d c n
    → InRange d' c' n'
    → (pack d c n < pack d' c' n') ↔ (
        (d / tick < d' / tick)
        ⊎ ((d / tick ≡ d' / tick) × (c < c'))
        ⊎ ((d / tick ≡ d' / tick) × (c ≡ c') × (n < n')))
lt-pack d c n d' c' n' r r' =
    let t = ticks d in
    let t' = ticks d' in
    let e = pack_lem d c n r.0 r.1 r.2 in
    let e' = pack_lem d' c' n' r'.0 r'.1 r'.2 in
    (
      (λ h. elim (dec_lt (d / tick) (d' / tick)) [
        | yes p ↦ inl p
        | no p ↦ elim (dec_lt c c') [
          | yes q ↦ inr (inl (omega (arith, t, t', e, e'), q))
          | no q ↦ inr (
              inr (
                omega (arith, t, t', e, e'),
                omega (arith, t, t', e, e'),
                omega (arith, t, t', e, e'),
              ))
        ]
      ]),
      (λ h. omega (arith, t, t', e, e')),
    )

-- A later time, or the same time with a larger counter, gives a larger word, whatever the node.
pub lt-pack_of_later :
    (t d c n : ℕ)
    → t < 2 ^ 64
    → InRange d c n
    → IsAligned d
    → datacake_timestamp t ≤ d
    → (datacake_timestamp t ≡ d → counter t < c)
    → t < pack d c n
lt-pack_of_later t d c n h r a le later = elim (dec_lt (datacake_timestamp t) d) [
  | yes p ↦ omega (arith, fields, datacake_timestamp_lem t, pack_lem d c n)
  | no p ↦
      let same : datacake_timestamp t ≡ d = omega arith in
      omega (arith, fields, later same, datacake_timestamp_lem t, pack_lem d c n)
]

-- From the epoch on the clock can be read.
pub get_datacake_timestamp-some :
    (unix : Duration) → datacake_epoch ≤ unix → get_datacake_timestamp unix ≢ none
unfolding get_datacake_timestamp
get_datacake_timestamp-some unix h = ground arith
