-- ===== src/Base/Bits.antt =====
-- `|` of disjoint fields and `&` with a mask of low bits, as arithmetic. The native operations
-- have their definition by binary digits only.
use Prim.Native.Nat.{
  ℕ, zero, suc, ◌+◌, ◌*◌, ◌-◌, ◌/◌, ◌%◌, ◌^◌, ◌≤◌, ◌<◌, max, min, bit_or, bit_and, digits,
  bit_or-bitwise, bit_and-bitwise,
}
use mathlib.Core.Path.{◌≡◌, refl, ap, ◌∙◌}
use native.Mathlib.Nat.{pow-suc, one-le-pow}
use native.Mathlib.Omega.{arith}

-- `x << k` and `x >> k` before any wrap.
abbrev pub shl : ℕ → ℕ → ℕ
shl x k = x * 2 ^ k

abbrev pub shr : ℕ → ℕ → ℕ
shr x k = x / 2 ^ k

abbrev or_digits : ℕ → ℕ → ℕ → ℕ
or_digits n a b = digits (λ b. b) max n a b

abbrev and_digits : ℕ → ℕ → ℕ → ℕ
and_digits n a b = digits (λ b. zero) min n a b

double : (q k : ℕ) → q * 2 ^ suc k ≡ 2 * (q * 2 ^ k)
double q k = omega (arith, ap (λ (t : ℕ). q * t) (pow-suc 2 k))

half_mask : (k : ℕ) → (2 ^ suc k - 1) / 2 ≡ 2 ^ k - 1
half_mask k = omega (arith, pow-suc 2 k, one-le-pow k 2)

-- One number is a multiple of `2 ^ k`, the other fits below it: no digit carries.
or_digits_fields : (n k a q r : ℕ) → a ≤ n → a ≡ q * 2 ^ k → r < 2 ^ k → or_digits n a r ≡ a + r
or_digits_fields zero k zero q r h e f = omega arith
or_digits_fields zero k (suc a) q r h e f = absurd (omega arith)
or_digits_fields (suc n) k zero q r h e f = omega arith
or_digits_fields (suc n) zero (suc a) q r h e f = omega (
  arith,
  or_digits_fields n zero (suc a / 2) (suc a / 2) (r / 2) (omega arith) (omega arith) (omega arith),
)
or_digits_fields (suc n) (suc k) (suc a) q r h e f = omega (
  arith,
  double q k,
  or_digits_fields n k (suc a / 2) q (r / 2) (omega arith) (omega (arith, double q k))
      (omega (arith, pow-suc 2 k)),
)

pub bit_or_disjoint : (k q r : ℕ) → r < 2 ^ k → bit_or (shl q k) r ≡ shl q k + r
bit_or_disjoint k q r f =
    bit_or-bitwise (shl q k) r ∙ or_digits_fields (shl q k) k (shl q k) q r (omega arith) refl f

-- A mask of `k` ones keeps the remainder by `2 ^ k`.
and_digits_mask :
    (n k a q r : ℕ) → a ≤ n → a ≡ q * 2 ^ k + r → r < 2 ^ k → and_digits n a (2 ^ k - 1) ≡ r
and_digits_mask zero k zero q r h e f = omega arith
and_digits_mask zero k (suc a) q r h e f = absurd (omega arith)
and_digits_mask (suc n) k zero q r h e f = omega arith
and_digits_mask (suc n) zero (suc a) q r h e f = omega (
  arith,
  and_digits_mask n zero (suc a / 2) (suc a / 2) 0 (omega arith) (omega arith) (omega arith),
)
and_digits_mask (suc n) (suc k) (suc a) q r h e f = omega (
  arith,
  double q k,
  pow-suc 2 k,
  one-le-pow k 2,
  and_digits_mask n k (suc a / 2) q (r / 2) (omega arith) (omega (arith, double q k))
      (omega (arith, pow-suc 2 k)),
  ap (λ (t : ℕ). and_digits n (suc a / 2) t) (half_mask k),
)

pub bit_and_mask : (k a : ℕ) → bit_and a (2 ^ k - 1) ≡ a % 2 ^ k
bit_and_mask k a =
    bit_and-bitwise a (2 ^ k - 1)
    ∙ and_digits_mask a k a (a / 2 ^ k) (a % 2 ^ k) (omega arith) (omega (arith, one-le-pow k 2))
        (omega (arith, one-le-pow k 2))
