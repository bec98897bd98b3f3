-- ===== src/Base/BTreeSet.antt =====
-- `BTreeSet`: a sorted list without repetitions. The laws are on what a set contains.
use datacake.Base.Tests.{if◌then◌else◌}
use datacake.Base.Ord.{Ord}
use mathlib.Core.Path.{◌≡◌, refl}
use mathlib.Core.Bool.{Bool, false, not, ◌&&◌, ◌||◌}
use mathlib.Core.List.{List, [], ◌∷◌}
use native.Mathlib.Omega.{arith}

module _ {ℓ} {K : Type ℓ} ⦃o : Ord K⦄ where
  unfoldable pub contains : K → List K → Bool
  contains k [] = false
  contains k (j ∷ s) = o.beq j k || contains k s

  unfoldable pub insert : K → List K → List K
  insert k [] = k ∷ []
  insert k (j ∷ s) =
      let rest = insert k s in if o.lt k j then k ∷ j ∷ s else if o.beq j k then j ∷ s else j ∷ rest

  -- `iter().collect()`.
  unfoldable pub collect : List K → List K
  unfolding insert
  collect [] = []
  collect (k ∷ ks) = insert k (collect ks)

  unfoldable pub difference : List K → List K → List K
  unfolding contains
  difference [] t = []
  difference (k ∷ s) t = let rest = difference s t in if contains k t then rest else k ∷ rest

  pub contains-insert :
      (j k : K) (s : List K) → contains j (insert k s) ≡ (o.beq k j || contains j s)
  unfolding contains insert
  contains-insert j k [] = refl
  contains-insert j k (i ∷ s) =
      ground (arith, o.beq_iff i k, o.beq_iff i j, o.beq_iff k j, contains-insert j k s)

  pub contains-collect : (j : K) (ks : List K) → contains j (collect ks) ≡ contains j ks
  unfolding contains collect
  contains-collect j [] = refl
  contains-collect j (k ∷ ks) =
      ground (arith, contains-insert j k (collect ks), contains-collect j ks)

  pub contains-difference :
      (k : K) (s t : List K) → contains k (difference s t) ≡ (contains k s && not (contains k t))
  unfolding contains difference
  contains-difference k [] t = refl
  contains-difference k (j ∷ s) t = ground (arith, o.beq_iff j k, contains-difference k s t)
