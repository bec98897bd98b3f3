-- ===== src/Timestamp/Fields.antt =====
-- The layout of a timestamp, its accessors, and the conversions of durations
-- (datacake-crdt/src/timestamp.rs).
use Prim.Native.Nat.{bit_or, bit_and}
use datacake.Base.{
  ℕ, ◌+◌, ◌-◌, ◌*◌, ◌/◌, ◌%◌, ◌^◌, ◌<◌, ◌≡◌, refl, ◌∙◌, Option, none, some, arith, ltb, leb,
  if◌then◌else◌,
}
use datacake.Base.Bits.{shl, shr, bit_or_disjoint, bit_and_mask}
use datacake.Base.Result.{◌>>=◌}

-- `std::time::Duration`, in nanoseconds.
abbrev pub Duration : Type 0
Duration = ℕ

abbrev pub from_secs : ℕ → Duration
from_secs s = s * 1_000_000_000

abbrev pub from_millis : ℕ → Duration
from_millis m = m * 1_000_000

abbrev pub as_secs : Duration → ℕ
as_secs d = d / 1_000_000_000

abbrev pub subsec_millis : Duration → ℕ
subsec_millis d = d % 1_000_000_000 / 1_000_000

abbrev pub max_clock_drift : Duration
max_clock_drift = from_secs 4_100

abbrev pub timestamp_max : ℕ
timestamp_max = 2 ^ 32 - 1

abbrev pub datacake_epoch : Duration
datacake_epoch = from_secs 1_672_534_861

-- The newtype over `u64`; the derived order is that of the number.
abbrev pub HlcTimestamp : Type 0
HlcTimestamp = ℕ

unfoldable pub duration_to_parts : Duration → ℕ × ℕ
duration_to_parts d = (as_secs d, subsec_millis d / 4 % 2 ^ 8)

unfoldable pub parts_as_duration : ℕ → ℕ → Duration
parts_as_duration seconds fractional = from_secs seconds + from_millis (fractional * 4)

-- The shift of a `u64` drops the bits that leave the word.
unfoldable pub pack : Duration → ℕ → ℕ → HlcTimestamp
unfolding duration_to_parts
pack d counter node =
    let (seconds, fractional) = duration_to_parts d in
    bit_or (bit_or (bit_or (shl seconds 32 % 2 ^ 64) (shl fractional 24)) (shl counter 8)) node

-- The `assert!` of the constructor.
unfoldable pub new : Duration → ℕ → ℕ → Option HlcTimestamp
new d counter node = if leb (as_secs d) timestamp_max then some (pack d counter node) else none

unfoldable pub node : HlcTimestamp → ℕ
node t = bit_and t 0xFF

unfoldable pub counter : HlcTimestamp → ℕ
counter t = bit_and (shr t 8) 0xFFFF

unfoldable pub seconds : HlcTimestamp → ℕ
seconds t = shr t 32

unfoldable pub fractional : HlcTimestamp → ℕ
fractional t = bit_and (shr t 24) 0xFF

unfoldable pub datacake_timestamp : HlcTimestamp → Duration
unfolding parts_as_duration
datacake_timestamp t = parts_as_duration (seconds t) (fractional t)

unfoldable pub unix_timestamp : HlcTimestamp → Duration
unfolding parts_as_duration
unix_timestamp t = parts_as_duration (seconds t) (fractional t) + datacake_epoch

-- `duration - DATACAKE_EPOCH` panics before the epoch.
unfoldable pub get_datacake_timestamp : Duration → Option Duration
unfolding duration_to_parts parts_as_duration
get_datacake_timestamp unix =
    if ltb unix datacake_epoch
    then none
    else (let (seconds, fractional) = duration_to_parts (unix - datacake_epoch) in
        some (parts_as_duration seconds fractional))

-- `HLCTimestamp::now`.
unfoldable pub now : Duration → ℕ → ℕ → Option HlcTimestamp
unfolding get_datacake_timestamp new
now unix counter node = do d ← get_datacake_timestamp unix; new d counter node

-- Each accessor as a quotient and a remainder.
pub node_lem : (t : HlcTimestamp) → node t ≡ t % 2 ^ 8
unfolding node
node_lem t = bit_and_mask 8 t

pub counter_lem : (t : HlcTimestamp) → counter t ≡ t / 2 ^ 8 % 2 ^ 16
unfolding counter
counter_lem t = bit_and_mask 16 (t / 2 ^ 8)

pub seconds_lem : (t : HlcTimestamp) → seconds t ≡ t / 2 ^ 32
unfolding seconds
seconds_lem t = refl

pub fractional_lem : (t : HlcTimestamp) → fractional t ≡ t / 2 ^ 24 % 2 ^ 8
unfolding fractional
fractional_lem t = bit_and_mask 8 (t / 2 ^ 24)

pub ruleset fields = (node_lem, counter_lem, seconds_lem, fractional_lem)

abbrev word : ℕ → ℕ → ℕ → ℕ → ℕ
word s f c n = bit_or (bit_or (bit_or (shl s 32 % 2 ^ 64) (shl f 24)) (shl c 8)) n

word_lem :
    (s f c n : ℕ)
    → s < 2 ^ 32
    → f < 2 ^ 8
    → c < 2 ^ 16
    → n < 2 ^ 8
    → word s f c n ≡ s * 2 ^ 32 + f * 2 ^ 24 + c * 2 ^ 8 + n
word_lem s f c n hs hf hc hn =
    let e₁ : shl s 32 % 2 ^ 64 ≡ shl s 32 = omega arith in
    let e₂ : shl s 32 + shl f 24 ≡ shl (s * 2 ^ 8 + f) 24 = omega arith in
    let e₃ : shl (s * 2 ^ 8 + f) 24 + shl c 8 ≡ shl (s * 2 ^ 24 + f * 2 ^ 16 + c) 8 = omega arith in
    rw (e₁) (
      rw (bit_or_disjoint 32 s (shl f 24) (omega arith)) (
        rw e₂ (
          rw (bit_or_disjoint 24 (s * 2 ^ 8 + f) (shl c 8) (omega arith))
            (rw e₃ (rw (bit_or_disjoint 8 (s * 2 ^ 24 + f * 2 ^ 16 + c) n hn) (omega arith))))))

-- The four fields do not overlap, so the packed word is their sum.
pub pack_lem :
    (d c n : ℕ)
    → as_secs d < 2 ^ 32
    → c < 2 ^ 16
    → n < 2 ^ 8
    → pack d c n ≡ as_secs d * 2 ^ 32 + subsec_millis d / 4 * 2 ^ 24 + c * 2 ^ 8 + n
unfolding pack
pack_lem d c n hd hc hn =
    word_lem (as_secs d) (subsec_millis d / 4 % 2 ^ 8) c n hd (omega arith) hc hn ∙ omega arith
