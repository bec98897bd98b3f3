-- ===== src/Rpc/View.antt =====
-- A message in bytes with its checksum (datacake-rpc/src/rkyv_tooling/mod.rs and view.rs).
use datacake.Base.{
  ℕ, zero, suc, ◌+◌, ◌-◌, ◌*◌, ◌/◌, ◌%◌, ◌^◌, ◌<◌, ◌≡◌, refl, sym, ap, ◌∙◌, Option, none, some,
  List, [], ◌∷◌, ◌++◌, ltb, ◌==◌, ==_iff, if◌then◌else◌, length, take, drop, arith, inl, inr,
  Bool-cases, Option-cases,
}
use datacake.Base.Result.{Result, ok, err}
use datacake.Base.Text.{Text}

abbrev pub Bytes : Type 0
Bytes = List ℕ

abbrev pub AllBytes : Bytes → Type 0
AllBytes [] = Unit
AllBytes (b ∷ bs) = (b < 2 ^ 8) × AllBytes bs

-- `u32::to_le_bytes`.
unfoldable pub to_le_bytes : ℕ → Bytes
to_le_bytes n = n % 2 ^ 8 ∷ n / 2 ^ 8 % 2 ^ 8 ∷ n / 2 ^ 16 % 2 ^ 8 ∷ n / 2 ^ 24 % 2 ^ 8 ∷ []

-- `u32::from_le_bytes`, which takes exactly four bytes.
unfoldable pub from_le_bytes : Bytes → Option ℕ
from_le_bytes (a ∷ b ∷ c ∷ d ∷ []) = some (a + b * 2 ^ 8 + c * 2 ^ 16 + d * 2 ^ 24)
from_le_bytes _ = none

-- What rkyv does with a type: its bytes, or the message of an error; and the value back.
pub record Codec (T : Type 0) : Type 0 where
  pub serialize_value : T → Result Text Bytes
  pub deserialize : Bytes → Option T

pub data InvalidView : Type 0 where
  invalid_view : InvalidView

-- The buffer and the view, which is the archive before the checksum.
pub record DataView : Type 0 where
  pub data_bytes : Bytes
  pub view : Bytes

module _ (crc : Bytes → ℕ) where
  unfoldable pub to_view_bytes : {T : Type 0} → Codec T → T → Result Text Bytes
  unfolding to_le_bytes
  to_view_bytes codec value = elim (codec.serialize_value value) [
    | ok buffer ↦ ok (buffer ++ to_le_bytes (crc buffer))
    | err e ↦ err e
  ]

  unfoldable pub using : Bytes → Result InvalidView DataView
  unfolding from_le_bytes
  using buffer =
      let end = length buffer in
      if ltb end 4 then err invalid_view else elim (from_le_bytes (drop (end - 4) buffer)) [
        | none ↦ err invalid_view
        | some expected_checksum ↦
            if expected_checksum == crc (take (end - 4) buffer)
            then ok record { data_bytes = buffer; view = take (end - 4) buffer }
            else err invalid_view
      ]

unfoldable pub to_owned : {T : Type 0} → Codec T → DataView → Result InvalidView T
to_owned codec self = elim (codec.deserialize self.view) [
  | some value ↦ ok value
  | none ↦ err invalid_view
]

take_append : (xs ys : Bytes) → take (length xs) (xs ++ ys) ≡ xs
take_append [] ys = refl
take_append (x ∷ xs) ys = ap (λ l. x ∷ l) (take_append xs ys)

drop_append : (xs ys : Bytes) → drop (length xs) (xs ++ ys) ≡ ys
drop_append [] ys = refl
drop_append (x ∷ xs) ys = drop_append xs ys

length_append : (xs ys : Bytes) → length (xs ++ ys) ≡ length xs + length ys
length_append [] ys = omega arith
length_append (x ∷ xs) ys = omega (arith, length_append xs ys)

from-to_le_bytes : (n : ℕ) → n < 2 ^ 32 → from_le_bytes (to_le_bytes n) ≡ some n
unfolding from_le_bytes to_le_bytes
from-to_le_bytes n h = ap some (omega arith)

length-to_le_bytes : (n : ℕ) → length (to_le_bytes n) ≡ 4
unfolding to_le_bytes
length-to_le_bytes n = omega arith

le_back : (bs : Bytes) (n : ℕ) → AllBytes bs → from_le_bytes bs ≡ some n → to_le_bytes n ≡ bs
unfolding from_le_bytes to_le_bytes
le_back [] n all h = cc
le_back (a ∷ []) n all h = cc
le_back (a ∷ b ∷ []) n all h = cc
le_back (a ∷ b ∷ c ∷ []) n all h = cc
le_back (a ∷ b ∷ c ∷ d ∷ []) n all h = ground arith
le_back (a ∷ b ∷ c ∷ d ∷ e ∷ bs) n all h = cc

drop-AllBytes : (n : ℕ) (bs : Bytes) → AllBytes bs → AllBytes (drop n bs)
drop-AllBytes zero bs all = all
drop-AllBytes (suc n) [] all = all
drop-AllBytes (suc n) (b ∷ bs) all = drop-AllBytes n bs all.1

take-drop : (n : ℕ) (bs : Bytes) → take n bs ++ drop n bs ≡ bs
take-drop zero bs = refl
take-drop (suc n) [] = refl
take-drop (suc n) (b ∷ bs) = ap (λ l. b ∷ l) (take-drop n bs)

module _ (crc : Bytes → ℕ) (crc_word : (bs : Bytes) → crc bs < 2 ^ 32) where
  -- The archive followed by its checksum, as `to_view_bytes` writes it.
  abbrev pub sealed : Bytes → Bytes
  sealed buffer = buffer ++ to_le_bytes (crc buffer)

  before_checksum : (buffer : Bytes) → length (sealed buffer) - 4 ≡ length buffer
  before_checksum buffer =
      omega
        (arith, length_append buffer (to_le_bytes (crc buffer)), length-to_le_bytes (crc buffer))

  pub using-sealed :
      (buffer : Bytes)
      → using crc (sealed buffer) ≡ ok record { data_bytes = sealed buffer; view = buffer }
  unfolding using
  using-sealed buffer =
      let n = length (sealed buffer) - 4 in
      let end = before_checksum buffer in
      let front : take n (sealed buffer) ≡ buffer =
        ap (λ k. take k (sealed buffer)) end ∙ take_append buffer (to_le_bytes (crc buffer)) in
      let rest : from_le_bytes (drop n (sealed buffer)) ≡ some (crc buffer) =
        ap (λ k. from_le_bytes (drop k (sealed buffer))) end
        ∙ ap from_le_bytes (drop_append buffer (to_le_bytes (crc buffer)))
        ∙ from-to_le_bytes (crc buffer) (crc_word buffer) in
      rw (using, rest, front)
        (ground
          (arith, length_append buffer (to_le_bytes (crc buffer)), length-to_le_bytes (crc buffer)))

  -- A buffer with a wrong checksum is refused: one that is accepted ends in the checksum of the rest.
  pub using_sound :
      (buffer : Bytes) {view : DataView}
      → AllBytes buffer
      → using crc buffer ≡ ok view
      → (view.data_bytes ≡ buffer) × (sealed view.view ≡ buffer)
  unfolding using
  using_sound buffer {view} bytes h =
      let n = length buffer - 4 in
      elim (Bool-cases (ltb (length buffer) 4)) [
        | inl short ↦ absurd (ground arith)
        | inr long ↦ elim (Option-cases (from_le_bytes (drop n buffer))) [
          | inl e ↦ absurd (ground arith)
          | inr (sum, e) ↦
              let back = le_back (drop n buffer) sum (drop-AllBytes n buffer bytes) e in
              let whole = take-drop n buffer in
              let parts : (view.data_bytes ≡ buffer)
                  × (view.view ≡ take n buffer)
                  × (sum ≡ crc (take n buffer)) =
                ground (arith, ==_iff sum (crc (take n buffer))) in
              (
                parts.0,
                ap sealed parts.1
                    ∙ ap (λ k. take n buffer ++ to_le_bytes k) (sym parts.2)
                    ∙ ap (λ l. take n buffer ++ l) back
                    ∙ whole,
              )
        ]
      ]
