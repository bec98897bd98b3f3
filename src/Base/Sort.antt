-- ===== src/Base/Sort.antt =====
-- The stable `sort_by_key`, as an insertion sort: a stable sort of a list by a key is unique.
use datacake.Base.Tests.{if◌then◌else◌, ltb, length, Bool-cases}
use datacake.Base.Ord.{Ord}
use datacake.Base.Assoc.{at}
use Prim.Native.Nat.{ℕ, ◌≤◌}
use mathlib.Core.Path.{◌≡◌, refl, ◌∙◌}
use mathlib.Core.Logic.{inl, inr}
use mathlib.Core.Bool.{true, false}
use mathlib.Core.List.{List, [], ◌∷◌}
use native.Mathlib.Omega.{arith}

module _ {ℓ} {A : Type ℓ} (key : A → ℕ) where
  -- Equal keys keep their order: `x` stood before the list and goes before its equals.
  unfoldable pub insert_by_key : A → List A → List A
  insert_by_key x [] = x ∷ []
  insert_by_key x (y ∷ ys) =
      let rest = insert_by_key x ys in if ltb (key y) (key x) then y ∷ rest else x ∷ y ∷ ys

  unfoldable pub sort_by_key : List A → List A
  unfolding insert_by_key
  sort_by_key [] = []
  sort_by_key (x ∷ xs) = insert_by_key x (sort_by_key xs)

  abbrev pub AtLeast : ℕ → List A → Type 0
  AtLeast n [] = Unit
  AtLeast n (y ∷ ys) = (n ≤ key y) × AtLeast n ys

  abbrev pub IsOrdered : List A → Type 0
  IsOrdered [] = Unit
  IsOrdered (y ∷ ys) = AtLeast (key y) ys × IsOrdered ys

  AtLeast-weaken : (m n : ℕ) (l : List A) → m ≤ n → AtLeast n l → AtLeast m l
  AtLeast-weaken m n [] h a = tt
  AtLeast-weaken m n (e ∷ l) h a = (omega (arith, a.0), AtLeast-weaken m n l h a.1)

  AtLeast-insert :
      (n : ℕ) (e : A) (l : List A) → n ≤ key e → AtLeast n l → AtLeast n (insert_by_key e l)
  unfolding insert_by_key
  AtLeast-insert n e [] h a = (h, tt)
  AtLeast-insert n e (x ∷ l) h a = ground (arith, AtLeast-insert n e l h a.1)

  insert-IsOrdered : (e : A) (l : List A) → IsOrdered l → IsOrdered (insert_by_key e l)
  unfolding insert_by_key
  insert-IsOrdered e [] o = (tt, tt)
  insert-IsOrdered e (x ∷ l) o = elim (Bool-cases (ltb (key x) (key e))) [
    | inl later ↦ rw later (AtLeast-insert (key x) e l (ground arith) o.0, insert-IsOrdered e l o.1)
    | inr sooner ↦
        rw sooner ((ground arith, AtLeast-weaken (key e) (key x) l (ground arith) o.0), o)
  ]

  pub sort-IsOrdered : (l : List A) → IsOrdered (sort_by_key l)
  unfolding sort_by_key
  sort-IsOrdered [] = tt
  sort-IsOrdered (e ∷ l) = insert-IsOrdered e (sort_by_key l) (sort-IsOrdered l)

abbrev pub All {ℓ κ} : {A : Type ℓ} → (A → Type κ) → List A → Type κ
All P [] = Unit
All P (x ∷ xs) = P x × All P xs

module _ {ℓ κ} {A : Type ℓ} (key : A → ℕ) (P : A → Type κ) where
  insert-All : (x : A) (l : List A) → P x → All P l → All P (insert_by_key key x l)
  unfolding insert_by_key
  insert-All x [] p all = (p, tt)
  insert-All x (y ∷ l) p all = elim (Bool-cases (ltb (key y) (key x))) [
    | inl later ↦ rw later (all.0, insert-All x l p all.1)
    | inr sooner ↦ rw sooner (p, all)
  ]

  pub sort-All : (l : List A) → All P l → All P (sort_by_key key l)
  unfolding sort_by_key
  sort-All [] all = tt
  sort-All (x ∷ l) all = insert-All x (sort_by_key key l) all.0 (sort-All l all.1)

module _ {ℓ κ} {K : Type ℓ} {V : Type κ} ⦃o : Ord K⦄ (key : K × V → ℕ) where
  at-insert_by_key_ne :
      (j : K) (x : K × V) (l : List (K × V))
      → o.beq x.0 j ≡ false
      → at j (insert_by_key key x l) ≡ at j l
  unfolding at insert_by_key
  at-insert_by_key_ne j x [] h = ground arith
  at-insert_by_key_ne j x (y ∷ ys) h = ground (arith, at-insert_by_key_ne j x ys h)

  at-insert_by_key_fresh :
      (j : K) (x : K × V) (l : List (K × V))
      → o.beq x.0 j ≡ true
      → at j l ≡ []
      → at j (insert_by_key key x l) ≡ x.1 ∷ []
  unfolding at insert_by_key
  at-insert_by_key_fresh j x [] h e = ground arith
  at-insert_by_key_fresh j x (y ∷ ys) h e = ground (arith, at-insert_by_key_fresh j x ys h)

  -- Where a key stands once at most, sorting does not change what a loop meets at it.
  pub at-sort_by_key :
      (j : K) (l : List (K × V)) → length (at j l) ≤ 1 → at j (sort_by_key key l) ≡ at j l
  unfolding at sort_by_key
  at-sort_by_key j [] h = refl
  at-sort_by_key j (x ∷ xs) h = elim (Bool-cases (o.beq x.0 j)) [
    | inl e ↦
        let alone : at j xs ≡ [] = ground arith in
        rw (e, alone)
          (at-insert_by_key_fresh j x (sort_by_key key xs) e
            (at-sort_by_key j xs (ground arith) ∙ alone))
    | inr e ↦
        rw e (at-insert_by_key_ne j x (sort_by_key key xs) e ∙ at-sort_by_key j xs (ground arith))
  ]
