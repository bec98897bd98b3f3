-- ===== src/Base/Digits.antt =====
-- Printed numbers read back.
use datacake.Base.Tests.{ltb, ltb→lt, le→ltb, length, Bool-cases}
use datacake.Base.Text.{
  Text, Radix, decimal, hexadecimal, base_of, digit_char, to_digit, digits, print, zeros, pad4,
  scan, from_str_radix, split_once, splitn,
}
use Prim.Native.Nat.{ℕ, zero, suc, ◌+◌, ◌-◌, ◌*◌, ◌/◌, ◌%◌, ◌^◌, ◌≤◌, ◌<◌}
use mathlib.Core.Path.{◌≡◌, refl, ap, ◌∙◌}
use mathlib.Core.Logic.{inl, inr}
use mathlib.Core.Option.{some}
use mathlib.Core.List.{[], ◌∷◌, ◌++◌}
use native.Mathlib.Nat.{pow-suc}
use native.Mathlib.Omega.{arith}

-- A digit of a radix, and no sign or separator.
abbrev pub IsDigit : ℕ → Type 0
IsDigit c = (b'0' ≤ c) × (c ≤ b'F')

abbrev pub AllDigits : Text → Type 0
AllDigits [] = Unit
AllDigits (c ∷ s) = IsDigit c × AllDigits s

to_digit-digit_char :
    (radix : Radix) (d : ℕ) → d < base_of radix → to_digit radix (digit_char d) ≡ some d
unfolding digit_char to_digit
to_digit-digit_char decimal d h = ground arith
to_digit-digit_char hexadecimal d h = ground arith

digit_char-IsDigit : (radix : Radix) (d : ℕ) → d < base_of radix → IsDigit (digit_char d)
unfolding digit_char
digit_char-IsDigit decimal d h = ground arith
digit_char-IsDigit hexadecimal d h = ground arith

-- Dividing by the base, in a form that does not depend on which it is.
base_step :
    (radix : Radix) (n fuel : ℕ)
    → n < 2 ^ suc fuel
    → (n / base_of radix < 2 ^ fuel)
      × (n / base_of radix * base_of radix + n % base_of radix ≡ n)
      × (n % base_of radix < base_of radix)
      × (n / base_of radix ≤ n)
base_step decimal n fuel h = omega (arith, pow-suc 2 fuel)
base_step hexadecimal n fuel h = omega (arith, pow-suc 2 fuel)

scan_one :
    (radix : Radix) (max n d : ℕ) (out : Text)
    → d < base_of radix
    → n * base_of radix + d ≤ max
    → scan radix max (digit_char d ∷ out) n ≡ scan radix max out (n * base_of radix + d)
unfolding scan
scan_one radix max n d out h fits =
    rw (scan, to_digit-digit_char radix d h, le→ltb max (n * base_of radix + d) fits) refl

scan_first :
    (radix : Radix) (max n : ℕ) (out : Text)
    → n < base_of radix
    → n ≤ max
    → scan radix max (digit_char n ∷ out) 0 ≡ scan radix max out n
unfolding scan
scan_first decimal max n out h fits =
    scan_one decimal max 0 n out h (omega arith) ∙ ap (λ m. scan decimal max out m) (omega arith)
scan_first hexadecimal max n out h fits =
    scan_one hexadecimal max 0 n out h (omega arith)
    ∙ ap (λ m. scan hexadecimal max out m) (omega arith)

digit_below : (radix : Radix) (n : ℕ) → n % base_of radix < base_of radix
digit_below decimal n = omega arith
digit_below hexadecimal n = omega arith

zero_below : (n : ℕ) → n < 2 ^ 0 → 0 ≡ n
zero_below n h = omega arith

pub scan-digits :
    (radix : Radix) (max fuel n : ℕ) (out : Text)
    → n < 2 ^ fuel
    → n ≤ max
    → scan radix max (digits radix fuel n out) 0 ≡ scan radix max out n
unfolding digits
scan-digits radix max zero n out h fits = ap (λ m. scan radix max out m) (zero_below n h)
scan-digits radix max (suc fuel) n out h fits = elim (Bool-cases (ltb n (base_of radix))) [
  | inl small ↦ rw small (scan_first radix max n out (ltb→lt n (base_of radix) small) fits)
  | inr large ↦
      let (less, whole, digit, below) = base_step radix n fuel h in
      rw large (
        scan-digits radix max fuel (n / base_of radix) (digit_char (n % base_of radix) ∷ out) less
          (omega arith)
        ∙ scan_one radix max (n / base_of radix) (n % base_of radix) out digit (omega arith)
        ∙ ap (λ m. scan radix max out m) whole)
]

digits-AllDigits :
    (radix : Radix) (fuel n : ℕ) (out : Text) → AllDigits out → AllDigits (digits radix fuel n out)
unfolding digits
digits-AllDigits radix zero n out all = all
digits-AllDigits radix (suc fuel) n out all = elim (Bool-cases (ltb n (base_of radix))) [
  | inl small ↦ rw small (digit_char-IsDigit radix n (ltb→lt n (base_of radix) small), all)
  | inr large ↦ rw large (
      digits-AllDigits radix fuel (n / base_of radix) (digit_char (n % base_of radix) ∷ out)
        (digit_char-IsDigit radix (n % base_of radix) (digit_below radix n), all))
]

length-digits_le :
    (radix : Radix) (fuel n : ℕ) (out : Text) → length out ≤ length (digits radix fuel n out)
unfolding digits
length-digits_le radix zero n out = omega arith
length-digits_le radix (suc fuel) n out =
    let h =
      length-digits_le radix fuel (n / base_of radix) (digit_char (n % base_of radix) ∷ out) in
    ground (arith, h)

-- What a printed number is made of.
pub print-AllDigits : (radix : Radix) (n : ℕ) → AllDigits (print radix n)
unfolding print
print-AllDigits radix n = digits-AllDigits radix 64 n [] tt

print-length : (radix : Radix) (n : ℕ) → 0 < length (print radix n)
unfolding print digits
print-length radix n =
    let h = length-digits_le radix 63 (n / base_of radix) (digit_char (n % base_of radix) ∷ []) in
    ground (arith, h)

pub scan-print :
    (radix : Radix) (max n : ℕ) → n ≤ max → max < 2 ^ 64 → scan radix max (print radix n) 0 ≡ some n
unfolding print scan
scan-print radix max n h word = scan-digits radix max 64 n [] (omega arith) h

from_str_radix-scan :
    (radix : Radix) (max : ℕ) (s : Text)
    → 0 < length s
    → AllDigits s
    → from_str_radix radix max s ≡ scan radix max s 0
unfolding from_str_radix
from_str_radix-scan radix max [] h all = absurd (omega arith)
from_str_radix-scan radix max (c ∷ []) h all = refl
from_str_radix-scan radix max (c ∷ d ∷ s) h all = ground arith

zeros-AllDigits : (k : ℕ) (s : Text) → AllDigits s → AllDigits (zeros k ++ s)
zeros-AllDigits zero s all = all
zeros-AllDigits (suc k) s all = ((omega arith, omega arith), zeros-AllDigits k s all)

scan-zeros :
    (radix : Radix) (max k : ℕ) (s : Text) → scan radix max (zeros k ++ s) 0 ≡ scan radix max s 0
unfolding scan to_digit
scan-zeros radix max zero s = refl
scan-zeros decimal max (suc k) s = ground (arith, scan-zeros decimal max k s)
scan-zeros hexadecimal max (suc k) s = ground (arith, scan-zeros hexadecimal max k s)

length-zeros : (k : ℕ) (s : Text) → length (zeros k ++ s) ≡ k + length s
length-zeros zero s = omega arith
length-zeros (suc k) s = omega (arith, length-zeros k s)

pub pad4-AllDigits : (s : Text) → AllDigits s → AllDigits (pad4 s)
unfolding pad4
pad4-AllDigits s all = zeros-AllDigits (4 - length s) s all

pub from_str_radix-print :
    (radix : Radix) (max n : ℕ)
    → n ≤ max
    → max < 2 ^ 64
    → from_str_radix radix max (print radix n) ≡ some n
from_str_radix-print radix max n h word =
    from_str_radix-scan radix max (print radix n) (print-length radix n) (print-AllDigits radix n)
    ∙ scan-print radix max n h word

-- Padding with zeros does not change what is read.
pub from_str_radix-pad4 :
    (radix : Radix) (max n : ℕ)
    → n ≤ max
    → max < 2 ^ 64
    → from_str_radix radix max (pad4 (print radix n)) ≡ some n
unfolding pad4
from_str_radix-pad4 radix max n h word =
    let s = print radix n in
    from_str_radix-scan radix max (pad4 s)
      (omega (arith, length-zeros (4 - length s) s, print-length radix n))
      (pad4-AllDigits s (print-AllDigits radix n))
    ∙ scan-zeros radix max (4 - length s) s
    ∙ scan-print radix max n h word

-- The first separator is the one after a run of digits.
pub split_once-append : (s t : Text) → AllDigits s → split_once b'-' (s ++ b'-' ∷ t) ≡ (s, some t)
unfolding split_once
split_once-append [] t all = refl
split_once-append (c ∷ s) t all = ground (arith, split_once-append s t all.1)

last_part : (d : Text) → splitn 1 b'-' d ≡ d ∷ []
unfolding splitn
last_part d = refl

splitn-append :
    (n : ℕ) (s t : Text)
    → AllDigits s
    → splitn (suc (suc n)) b'-' (s ++ b'-' ∷ t) ≡ s ∷ splitn (suc n) b'-' t
unfolding splitn
splitn-append n s t all = rw (splitn, split_once-append s t all) refl

pub splitn-four :
    (a b c d : Text)
    → AllDigits a
    → AllDigits b
    → AllDigits c
    → splitn 4 b'-' (a ++ b'-' ∷ (b ++ b'-' ∷ (c ++ b'-' ∷ d))) ≡ a ∷ b ∷ c ∷ d ∷ []
splitn-four a b c d ha hb hc =
    splitn-append 2 a (b ++ b'-' ∷ (c ++ b'-' ∷ d)) ha
    ∙ ap (λ l. a ∷ l) (splitn-append 1 b (c ++ b'-' ∷ d) hb)
    ∙ ap (λ l. a ∷ b ∷ l) (splitn-append 0 c d hc)
    ∙ ap (λ l. a ∷ b ∷ c ∷ l) (last_part d)
