-- ===== src/Base/HashMap.antt =====
-- `HashMap`: the list stands in the order of iteration, which the standard library leaves open;
-- a statement about every list is one about every order. A new key is put last.
use datacake.Base.Tests.{if◌then◌else◌}
use datacake.Base.Ord.{Ord}
use datacake.Base.Assoc.{get, Unique}
use mathlib.Core.Path.{◌≡◌, refl}
use mathlib.Core.Option.{some}
use mathlib.Core.List.{List, [], ◌∷◌}
use native.Mathlib.Omega.{arith}

module _ {ℓ κ} {K : Type ℓ} {V : Type κ} ⦃o : Ord K⦄ where
  unfoldable pub insert : K → V → List (K × V) → List (K × V)
  insert k v [] = (k, v) ∷ []
  insert k v ((j, w) ∷ m) =
      let rest = insert k v m in if o.beq j k then (k, v) ∷ m else (j, w) ∷ rest

  pub get-insert :
      (j k : K) (v : V) (m : List (K × V))
      → get j (insert k v m) ≡ (if o.beq k j then some v else get j m)
  unfolding get insert
  get-insert j k v [] = refl
  get-insert j k v ((i, w) ∷ m) =
      ground (arith, o.beq_iff i k, o.beq_iff i j, o.beq_iff k j, get-insert j k v m)

  pub insert-Unique : (k : K) (v : V) (m : List (K × V)) → Unique m → Unique (insert k v m)
  unfolding insert get
  insert-Unique k v [] u = (refl, tt)
  insert-Unique k v ((j, w) ∷ m) u =
      ground (arith, o.beq_iff j k, o.beq_iff k j, get-insert j k v m, insert-Unique k v m u.1)
