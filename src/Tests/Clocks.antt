-- ===== src/Tests/Clocks.antt =====
-- Timestamps and clocks on concrete inputs.
use datacake.Base.{◌+◌, ◌*◌, ◌^◌, ◌<◌, ◌≡◌, refl, none, some, arith, ◌⊎◌}
use datacake.Base.Result.{ok, err}
use datacake.Timestamp.Fields.{
  Duration, HlcTimestamp, from_secs, from_millis, datacake_epoch, pack, node, counter, seconds,
  fractional, datacake_timestamp, unix_timestamp, get_datacake_timestamp, new,
}
use datacake.Timestamp.Layout.{tick}
use datacake.Timestamp.Send.{TimestampError, clock_drift, send_at, send}
use datacake.Timestamp.Recv.{merged_counter, recv_at, recv}
use datacake.Timestamp.Monotonic
use datacake.Timestamp.Causal

program : Unit {0}
unfolding pack node counter seconds fractional datacake_timestamp unix_timestamp
    get_datacake_timestamp new send_at send merged_counter recv_at recv
program = tt

-- Ten seconds and 503 ms after the epoch, a word of node 7 and counter 3 keeps 500 ms.
abbrev morning : Duration
morning = from_secs 10 + from_millis 503

abbrev word_seven : HlcTimestamp
word_seven = 10 * 2 ^ 32 + 125 * 2 ^ 24 + 3 * 2 ^ 8 + 7

pack_test : pack morning 3 7 ≡ word_seven
unfolding program
pack_test = refl

duration_test : datacake_timestamp word_seven ≡ from_secs 10 + from_millis 500
unfolding program
duration_test = refl

-- The assertion of `new` fails from 2 ^ 32 seconds on.
new_test : new (from_secs (2 ^ 32)) 0 0 ≡ none
unfolding program
new_test = refl

abbrev clock_at : Duration
clock_at = datacake_epoch + from_secs 10 + from_millis 501

-- The system clock stands at the tick of the word: the counter goes up.
send_test : send clock_at word_seven ≡ some (word_seven + 2 ^ 8, ok (word_seven + 2 ^ 8))
unfolding program
send_test = refl

abbrev from_nine : HlcTimestamp
from_nine = 12 * 2 ^ 32 + 5 * 2 ^ 8 + 9

-- A message of node 9 that is two seconds ahead: the clock takes its time and the next counter.
recv_test :
    recv clock_at word_seven from_nine
    ≡ some (12 * 2 ^ 32 + 6 * 2 ^ 8 + 7, ok (12 * 2 ^ 32 + 6 * 2 ^ 8 + 9))
unfolding program
recv_test = refl

lt-send_example :
    let t = word_seven + 2 ^ 8 in
    (t ≡ t)
    × (word_seven < t)
    × (t < 2 ^ 64)
    × (node t ≡ node word_seven)
    × (clock_at < datacake_epoch + datacake_timestamp t + tick)
lt-send_example = Monotonic.lt-send clock_at word_seven (omega arith) (omega arith) send_test

-- A clock that is far ahead.
abbrev far_ahead : HlcTimestamp
far_ahead = 5000 * 2 ^ 32 + 7

send_refused : send_at (from_secs 10) far_ahead ≡ (far_ahead, err clock_drift)
unfolding program
send_refused = refl

lt-recv_example :
    ((x : TimestampError) × (recv clock_at word_seven from_nine ≡ some (word_seven, err x)))
    ⊎ ((self' t : HlcTimestamp) × (recv clock_at word_seven from_nine ≡ some (self', ok t))
        × (word_seven < self')
        × (from_nine < self')
        × (self' < 2 ^ 64)
        × (node self' ≡ node word_seven)
        × (word_seven < t)
        × (from_nine < t)
        × (node t ≡ node from_nine))
lt-recv_example =
    Causal.lt-recv clock_at word_seven from_nine (omega arith) (omega arith) (omega arith)
      (omega arith)
