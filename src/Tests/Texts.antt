-- ===== src/Tests/Texts.antt =====
-- The text of timestamps on concrete inputs.
use datacake.Base.{◌*◌, ◌^◌, ◌+◌, ◌<◌, ◌≡◌, refl, none, some, ltb, if◌then◌else◌, arith}
use datacake.Base.Result.{ok, err}
use datacake.Base.Text.{codes, digits, print, pad4, scan, from_str_radix, split_once, splitn}
use datacake.Timestamp.Fields.{
  HlcTimestamp, as_secs, parts_as_duration, pack, new, seconds, fractional, counter, node,
  datacake_timestamp,
}
use datacake.Timestamp.Text
use datacake.Timestamp.Text.{
  InvalidFormat, write_parts, display, parts_as_duration_checked, of_parts, of_splits, from_str,
}

program : Unit {0}
unfolding digits print pad4 scan from_str_radix split_once splitn write_parts display
    parts_as_duration_checked of_parts of_splits from_str parts_as_duration pack new seconds
    fractional counter node datacake_timestamp
program = tt

-- 100 seconds and 3 ticks, counter 26, node 7.
abbrev stamp : HlcTimestamp
stamp = 100 * 2 ^ 32 + 3 * 2 ^ 24 + 26 * 2 ^ 8 + 7

display_test : display stamp ≡ codes "100-0003-001A-0007"
unfolding program
display_test = refl

bad_test : from_str (codes "100-0003-001A") ≡ some (err InvalidFormat.invalid_format)
unfolding program
bad_test = refl

stamp_fraction : fractional stamp < 250
unfolding program
stamp_fraction = omega arith

from_str-display_example : from_str (display stamp) ≡ some (ok stamp)
from_str-display_example = Text.from_str-display stamp (omega arith) stamp_fraction

from_str-write_parts_example : from_str (write_parts (2 ^ 32) 3 26 7) ≡ (
    if ltb (as_secs (parts_as_duration (2 ^ 32) 3)) (2 ^ 32)
    then some (ok (pack (parts_as_duration (2 ^ 32) 3) 26 7))
    else none)
from_str-write_parts_example =
    Text.from_str-write_parts (2 ^ 32) 3 26 7 (omega arith, omega arith, omega arith, omega arith)
