-- ===== src/Base/Ord.antt =====
-- What the standard library's maps ask of their keys: a decidable equality and a linear order.
use datacake.Base.Tests.{◌==◌, ltb, ==_iff, if◌then◌else◌}
use Prim.Native.Nat.{ℕ}
use mathlib.Core.Path.{◌≡◌}
use mathlib.Core.Logic.{◌↔◌}
use mathlib.Core.Bool.{Bool, true, false}
use native.Mathlib.Omega.{arith}

pub record Ord {ℓ} (K : Type ℓ) : Type ℓ where
  pub beq : K → K → Bool
  pub lt : K → K → Bool
  pub beq_iff : (a b : K) → (beq a b ≡ true) ↔ (a ≡ b)
  pub lt_irrefl : (a : K) → lt a a ≡ false
  pub lt_trans : (a b c : K) → lt a b ≡ true → lt b c ≡ true → lt a c ≡ true
  pub lt_connex : (a b : K) → lt a b ≡ false → beq a b ≡ false → lt b a ≡ true

pub nat-lt_irrefl : (a : ℕ) → ltb a a ≡ false
nat-lt_irrefl a = ground arith

pub nat-lt_trans : (a b c : ℕ) → ltb a b ≡ true → ltb b c ≡ true → ltb a c ≡ true
nat-lt_trans a b c h k = ground arith

pub nat-lt_connex : (a b : ℕ) → ltb a b ≡ false → (a == b) ≡ false → ltb b a ≡ true
nat-lt_connex a b h k = ground arith

instance abbrev pub nat_ord : Ord ℕ
nat_ord = record {
  beq = ◌==◌;
  lt = ltb;
  beq_iff = ==_iff;
  lt_irrefl = nat-lt_irrefl;
  lt_trans = nat-lt_trans;
  lt_connex = nat-lt_connex;
}

-- The order of pairs, the first component first.
abbrev pub Pair : Type 0
Pair = ℕ × ℕ

abbrev pair_beq : Pair → Pair → Bool
pair_beq (a, b) (c, d) = if a == c then b == d else false

abbrev pair_lt : Pair → Pair → Bool
pair_lt (a, b) (c, d) = if a == c then ltb b d else ltb a c

pub pair_beq_iff : (p q : Pair) → (pair_beq p q ≡ true) ↔ (p ≡ q)
pair_beq_iff (a, b) (c, d) = ground arith

pub pair-lt_irrefl : (p : Pair) → pair_lt p p ≡ false
pair-lt_irrefl (a, b) = ground arith

pub pair-lt_trans : (p q r : Pair) → pair_lt p q ≡ true → pair_lt q r ≡ true → pair_lt p r ≡ true
pair-lt_trans (a, b) (c, d) (e, f) h k = ground arith

pub pair-lt_connex : (p q : Pair) → pair_lt p q ≡ false → pair_beq p q ≡ false → pair_lt q p ≡ true
pair-lt_connex (a, b) (c, d) h k = ground arith

instance abbrev pub pair_ord : Ord Pair
pair_ord = record {
  beq = pair_beq;
  lt = pair_lt;
  beq_iff = pair_beq_iff;
  lt_irrefl = pair-lt_irrefl;
  lt_trans = pair-lt_trans;
  lt_connex = pair-lt_connex;
}
