-- ===== src/Base/TextOrd.antt =====
-- The order of strings, which is that of their bytes.
use datacake.Base.Tests.{ltb, ◌==◌, if◌then◌else◌}
use datacake.Base.Ord.{Ord}
use datacake.Base.Text.{Text}
use mathlib.Core.Path.{◌≡◌, refl}
use mathlib.Core.Logic.{◌↔◌}
use mathlib.Core.Bool.{Bool, true, false}
use mathlib.Core.List.{[], ◌∷◌}
use native.Mathlib.Omega.{arith}

abbrev pub text_beq : Text → Text → Bool
text_beq [] [] = true
text_beq [] (d ∷ t) = false
text_beq (c ∷ s) [] = false
text_beq (c ∷ s) (d ∷ t) = let rest = text_beq s t in if c == d then rest else false

abbrev pub text_lt : Text → Text → Bool
text_lt [] [] = false
text_lt [] (d ∷ t) = true
text_lt (c ∷ s) [] = false
text_lt (c ∷ s) (d ∷ t) = let rest = text_lt s t in if c == d then rest else ltb c d

pub text_beq_iff : (s t : Text) → (text_beq s t ≡ true) ↔ (s ≡ t)
text_beq_iff [] [] = ground arith
text_beq_iff [] (d ∷ t) = ground arith
text_beq_iff (c ∷ s) [] = ground arith
text_beq_iff (c ∷ s) (d ∷ t) = ground (arith, text_beq_iff s t)

pub text-lt_irrefl : (s : Text) → text_lt s s ≡ false
text-lt_irrefl [] = refl
text-lt_irrefl (c ∷ s) = ground (arith, text-lt_irrefl s)

pub text-lt_trans : (r s t : Text) → text_lt r s ≡ true → text_lt s t ≡ true → text_lt r t ≡ true
text-lt_trans [] [] t h k = ground arith
text-lt_trans [] (c ∷ s) [] h k = ground arith
text-lt_trans [] (c ∷ s) (d ∷ t) h k = refl
text-lt_trans (b ∷ r) [] t h k = ground arith
text-lt_trans (b ∷ r) (c ∷ s) [] h k = ground arith
text-lt_trans (b ∷ r) (c ∷ s) (d ∷ t) h k = ground (arith, text-lt_trans r s t)

pub text-lt_connex : (s t : Text) → text_lt s t ≡ false → text_beq s t ≡ false → text_lt t s ≡ true
text-lt_connex [] [] h k = ground arith
text-lt_connex [] (d ∷ t) h k = ground arith
text-lt_connex (c ∷ s) [] h k = refl
text-lt_connex (c ∷ s) (d ∷ t) h k = ground (arith, text-lt_connex s t)

instance abbrev pub text_ord : Ord Text
text_ord = record {
  beq = text_beq;
  lt = text_lt;
  beq_iff = text_beq_iff;
  lt_irrefl = text-lt_irrefl;
  lt_trans = text-lt_trans;
  lt_connex = text-lt_connex;
}
