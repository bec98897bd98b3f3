-- ===== src/Clock/Exhaustion.antt =====
-- When the clock actor dies: a `Get` that `send` refuses (datacake-node/src/clock.rs).
use datacake.Base.{◌≡◌, none, some, [], ◌∷◌, ◌≤◌, ◌<◌, ◌+◌, arith, ◌⊎◌, inr, ◌↔◌, ◌≢◌}
use datacake.Base.Result.{ok, ◌>>=◌}
use datacake.Timestamp.Fields.{
  Duration, HlcTimestamp, node, counter, datacake_timestamp, max_clock_drift,
  get_datacake_timestamp, pack, node_lem,
}
use datacake.Timestamp.Layout.{
  get_datacake_timestamp-IsAligned, InRange, fields-pack, datacake_timestamp-pack,
  datacake_timestamp-IsAligned,
}
use datacake.Timestamp.Monotonic.{BeforeEnd}
use datacake.Timestamp.Send.{send, send_at}
use datacake.Timestamp.Recv.{recv, merged_counter}
use datacake.Timestamp.Causal.{merged, recv_at-some}
use datacake.Clock.Actor.{get, register, on_get, on_register, run_clock}

-- With the time read, a `Get` kills the actor exactly where the clock is further ahead of the
-- time than the greatest drift, or is not behind the time and has used up its counter.
pub on_get_dies :
    (unix : Duration) (clock : HlcTimestamp) (ts : Duration)
    → get_datacake_timestamp unix ≡ some ts
    → (on_get unix clock ≡ none) ↔ (
        (ts + max_clock_drift < datacake_timestamp clock)
        ⊎ ((ts ≤ datacake_timestamp clock) × (counter clock ≡ 0xFFFF)))
unfolding on_get send send_at
on_get_dies unix clock ts read = rw (read, ◌>>=◌) (ground arith)

-- The clock after it has taken in a timestamp from the future whose counter is one short of full.
taken_in : HlcTimestamp → HlcTimestamp → HlcTimestamp
taken_in clock msg = pack (datacake_timestamp msg) 0xFFFF (node clock)

recv-taken_in :
    (unix : Duration) (clock msg : HlcTimestamp) (ts : Duration)
    → BeforeEnd unix
    → get_datacake_timestamp unix ≡ some ts
    → node clock ≢ node msg
    → datacake_timestamp clock < datacake_timestamp msg
    → ts < datacake_timestamp msg
    → datacake_timestamp msg ≤ ts + max_clock_drift
    → counter msg ≡ 0xFFFE
    → (t : HlcTimestamp) × (recv unix clock msg ≡ some (taken_in clock msg, ok t))
unfolding recv merged_counter taken_in
recv-taken_in unix clock msg ts b read other ahead future near full =
    let at = get_datacake_timestamp-IsAligned unix read in
    let m : merged ts clock msg ≡ datacake_timestamp msg = ground arith in
    let e = recv_at-some ts clock msg 0xFFFF at.0 (omega arith) (omega arith) (ground arith) in
    (pack (datacake_timestamp msg) 0xFFFF (node msg), ground arith)

-- One registered timestamp can kill the clock. Where it is ahead of the clock and of the system
-- clock, by no more than the drift that `recv` tolerates, and its counter is 0xFFFE, the next `Get`
-- panics unless the system clock has passed it by then.
pub run_clock_dies :
    (unix unix' : Duration) (clock msg : HlcTimestamp) (ts ts' : Duration)
    → BeforeEnd unix
    → get_datacake_timestamp unix ≡ some ts
    → get_datacake_timestamp unix' ≡ some ts'
    → node clock ≢ node msg
    → datacake_timestamp clock < datacake_timestamp msg
    → ts < datacake_timestamp msg
    → datacake_timestamp msg ≤ ts + max_clock_drift
    → counter msg ≡ 0xFFFE
    → ts' ≤ datacake_timestamp msg
    → run_clock clock ((unix, register msg) ∷ (unix', get) ∷ []) ≡ none
unfolding run_clock on_register taken_in
run_clock_dies unix unix' clock msg ts ts' b read read' other ahead future near full stays =
    let (t, received) = recv-taken_in unix clock msg ts b read other ahead future near full in
    let d = datacake_timestamp msg in
    let at = get_datacake_timestamp-IsAligned unix read in
    let r : InRange d 0xFFFF (node clock) =
      (omega arith, omega arith, omega (arith, node_lem clock)) in
    let f = fields-pack d 0xFFFF (node clock) r in
    let later : d ≤ datacake_timestamp (taken_in clock msg) =
      omega (
        arith,
        datacake_timestamp-pack d 0xFFFF (node clock) r,
        datacake_timestamp-IsAligned msg,
      ) in
    let dies = (on_get_dies unix' (taken_in clock msg) ts' read').1 (inr (omega arith, f.1)) in
    rw (received, ◌>>=◌) (ground arith)
