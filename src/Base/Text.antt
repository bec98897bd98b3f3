-- ===== src/Base/Text.antt =====
-- Strings as the codes of their characters, and what the standard library prints and parses:
-- `Display` and `UpperHex` of unsigned integers, `from_str_radix`, padding and `splitn`.
use datacake.Base.Tests.{ltb, leb, ◌==◌, if◌then◌else◌, length}
use Prim.Native.Nat.{ℕ, zero, suc, ◌+◌, ◌-◌, ◌*◌, ◌/◌, ◌%◌}
use Prim.Native.Char.{code}
use Prim.Native.String.{String}
use mathlib.Core.Bool.{◌&&◌}
use mathlib.Core.Option.{Option, none, some}
use mathlib.Core.List.{List, [], ◌∷◌, ◌++◌}

abbrev pub Text : Type 0
Text = List ℕ

abbrev pub codes : String → Text
codes String.[] = []
codes (String.◌∷◌ c s) = code c ∷ codes s

pub data Radix : Type 0 where
  decimal hexadecimal : Radix

abbrev pub base_of : Radix → ℕ
base_of decimal = 10
base_of hexadecimal = 16

unfoldable pub digit_char : ℕ → ℕ
digit_char d = if ltb d 10 then b'0' + d else b'A' + (d - 10)

-- `char::to_digit`.
unfoldable pub to_digit : Radix → ℕ → Option ℕ
to_digit radix c =
    let d =
      if leb b'0' c && leb c b'9'
      then c - b'0'
      else if leb b'a' c && leb c b'z'
      then c - b'a' + 10
      else if leb b'A' c && leb c b'Z'
      then c - b'A' + 10
      else base_of radix in
    if ltb d (base_of radix) then some d else none

-- The digits of a number before `out`. Each round divides by the base, so a `u64` needs at most 64.
unfoldable pub digits : Radix → ℕ → ℕ → Text → Text
unfolding digit_char
digits radix zero n out = out
digits radix (suc fuel) n out =
    let rest = digits radix fuel (n / base_of radix) (digit_char (n % base_of radix) ∷ out) in
    if ltb n (base_of radix) then digit_char n ∷ out else rest

unfoldable pub print : Radix → ℕ → Text
unfolding digits
print radix n = digits radix 64 n []

abbrev pub zeros : ℕ → Text
zeros zero = []
zeros (suc n) = b'0' ∷ zeros n

-- `{:0>4}`.
unfoldable pub pad4 : Text → Text
pad4 s = zeros (4 - length s) ++ s

unfoldable pub scan : Radix → ℕ → Text → ℕ → Option ℕ
unfolding to_digit
scan radix max [] n = some n
scan radix max (c ∷ s) n = elim (to_digit radix c) [
  | none ↦ none
  | some d ↦
      let rest = scan radix max s (n * base_of radix + d) in
      if ltb max (n * base_of radix + d) then none else rest
]

-- `from_str_radix` of an unsigned type with the largest value `max`, and `parse` for base 10.
unfoldable pub from_str_radix : Radix → ℕ → Text → Option ℕ
unfolding scan
from_str_radix radix max [] = none
from_str_radix radix max (c ∷ []) = scan radix max (c ∷ []) 0
from_str_radix radix max (c ∷ d ∷ s) = scan radix max (if c == b'+' then d ∷ s else c ∷ d ∷ s) 0

unfoldable pub split_once : ℕ → Text → Text × Option Text
split_once sep [] = ([], none)
split_once sep (c ∷ s) =
    let (before, after) = split_once sep s in if c == sep then ([], some s) else (c ∷ before, after)

unfoldable pub splitn : ℕ → ℕ → Text → List Text
unfolding split_once
splitn zero sep s = []
splitn (suc zero) sep s = s ∷ []
splitn (suc (suc n)) sep s =
    let (before, after) = split_once sep s in
    before ∷ elim after [ none ↦ [] | some t ↦ splitn (suc n) sep t ]
