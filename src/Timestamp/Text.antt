-- ===== src/Timestamp/Text.antt =====
-- `Display` and `FromStr` of a timestamp (datacake-crdt/src/timestamp.rs).
use datacake.Base.{
  ℕ, ◌*◌, ◌-◌, ◌^◌, ◌<◌, ◌≡◌, refl, ap, ◌∙◌, Option, none, some, List, [], ◌∷◌, ◌++◌, ltb,
  if◌then◌else◌, arith,
}
use datacake.Base.Result.{Result, ok, err, ◌>>=◌}
use datacake.Base.Text.{Text, decimal, hexadecimal, print, pad4, from_str_radix, splitn}
use datacake.Base.Digits.{
  print-AllDigits, pad4-AllDigits, from_str_radix-print, from_str_radix-pad4, splitn-four,
}
use datacake.Timestamp.Layout.{pack-fields, datacake_timestamp_lem}
use datacake.Timestamp.Fields.{
  as_secs, pack, datacake_timestamp, node_lem, counter_lem, seconds_lem, fractional_lem, Duration,
  HlcTimestamp, new, node, counter, seconds, fractional, parts_as_duration, fields,
}

pub data InvalidFormat : Type 0 where
  invalid_format : InvalidFormat

-- The four parts, as `"{}-{:0>4}-{:0>4X}-{:0>4}"` writes them.
unfoldable pub write_parts : ℕ → ℕ → ℕ → ℕ → Text
write_parts s f c n =
    print decimal s
    ++ b'-'
      ∷ (pad4 (print decimal f)
          ++ b'-' ∷ (pad4 (print hexadecimal c) ++ b'-' ∷ pad4 (print decimal n)))

unfoldable pub display : HlcTimestamp → Text
unfolding write_parts
display t = write_parts (seconds t) (fractional t) (counter t) (node t)

-- `splits.next().and_then(…)`: the parsed part, and the parts that are left.
abbrev pub next_part : (Text → Option ℕ) → List Text → Option ℕ × List Text
next_part parse [] = (none, [])
next_part parse (s ∷ splits) = (parse s, splits)

abbrev pub u64_max : ℕ
u64_max = 2 ^ 64 - 1

-- `+` of durations panics where the seconds leave a `u64`.
unfoldable pub parts_as_duration_checked : ℕ → ℕ → Option Duration
unfolding parts_as_duration
parts_as_duration_checked s f =
    let d = parts_as_duration s f in if ltb d (2 ^ 64 * 1_000_000_000) then some d else none

-- The timestamp of the four parts, an error where one is missing. `none` is a panic.
unfoldable pub of_parts :
    Option ℕ → Option ℕ → Option ℕ → Option ℕ → Option (Result InvalidFormat HlcTimestamp)
unfolding parts_as_duration_checked
of_parts (some s) (some f) (some c) (some n) = do
  d ← parts_as_duration_checked s f
  t ← new d c n
  some (ok t)
of_parts _ _ _ _ = some (err invalid_format)

unfoldable pub of_splits : List Text → Option (Result InvalidFormat HlcTimestamp)
unfolding of_parts
of_splits splits =
    let (seconds, splits₁) = next_part (from_str_radix decimal u64_max) splits in
    let (fractional, splits₂) = next_part (from_str_radix decimal 0xFF) splits₁ in
    let (counter, splits₃) = next_part (from_str_radix hexadecimal 0xFFFF) splits₂ in
    let (node, splits₄) = next_part (from_str_radix decimal 0xFF) splits₃ in
    of_parts seconds fractional counter node

unfoldable pub from_str : Text → Option (Result InvalidFormat HlcTimestamp)
unfolding of_splits
from_str s = of_splits (splitn 4 b'-' s)

abbrev InRange : ℕ → ℕ → ℕ → ℕ → Type 0
InRange s f c n = (s < 2 ^ 64) × (f < 2 ^ 8) × (c < 2 ^ 16) × (n < 2 ^ 8)

of_splits-print :
    (s f c n : ℕ)
    → InRange s f c n
    → of_splits (
        print decimal s
        ∷ pad4 (print decimal f)
        ∷ pad4 (print hexadecimal c)
        ∷ pad4 (print decimal n)
        ∷ [])
      ≡ of_parts (some s) (some f) (some c) (some n)
unfolding of_splits
of_splits-print s f c n r =
    rw
      (
        from_str_radix-print decimal u64_max s (omega arith) (omega arith),
        from_str_radix-pad4 decimal 0xFF f (omega arith) (omega arith),
        from_str_radix-pad4 hexadecimal 0xFFFF c (omega arith) (omega arith),
        from_str_radix-pad4 decimal 0xFF n (omega arith) (omega arith),
      )
      refl

read_parts :
    (s f c n : ℕ)
    → InRange s f c n
    → from_str (write_parts s f c n) ≡ of_parts (some s) (some f) (some c) (some n)
unfolding from_str write_parts
read_parts s f c n r =
    ap of_splits (
      splitn-four (print decimal s) (pad4 (print decimal f)) (pad4 (print hexadecimal c))
        (pad4 (print decimal n)) (print-AllDigits decimal s)
        (pad4-AllDigits (print decimal f) (print-AllDigits decimal f))
        (pad4-AllDigits (print hexadecimal c) (print-AllDigits hexadecimal c)))
    ∙ of_splits-print s f c n r

-- What a timestamp prints is read back as that timestamp, for every `u64` whose fraction is below
-- a second.
pub from_str-display :
    (t : HlcTimestamp) → t < 2 ^ 64 → fractional t < 250 → from_str (display t) ≡ some (ok t)
unfolding display of_parts parts_as_duration_checked new datacake_timestamp
from_str-display t h f =
    read_parts (seconds t) (fractional t) (counter t) (node t) (omega (arith, fields))
    ∙ ground (
      arith,
      node_lem t,
      counter_lem t,
      seconds_lem t,
      fractional_lem t,
      pack-fields t h f,
      datacake_timestamp_lem t,
    )

-- Four printed parts within their types are read as the timestamp made of them while the duration
-- they add up to has seconds that fit 32 bits; from there on reading them panics.
pub from_str-write_parts :
    (s f c n : ℕ)
    → (s < 2 ^ 64) × (f < 2 ^ 8) × (c < 2 ^ 16) × (n < 2 ^ 8)
    → from_str (write_parts s f c n) ≡ (
        if ltb (as_secs (parts_as_duration s f)) (2 ^ 32)
        then some (ok (pack (parts_as_duration s f) c n))
        else none)
unfolding of_parts parts_as_duration_checked new
from_str-write_parts s f c n r = read_parts s f c n r ∙ ground arith
