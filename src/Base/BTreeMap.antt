-- ===== src/Base/BTreeMap.antt =====
-- `BTreeMap`: the list is sorted by key, and `insert` keeps it so.
use datacake.Base.Tests.{if◌then◌else◌}
use datacake.Base.Ord.{Ord}
use datacake.Base.Assoc.{get, remove, Unique}
use mathlib.Core.Path.{◌≡◌, refl}
use mathlib.Core.Bool.{true}
use mathlib.Core.Option.{none, some}
use mathlib.Core.List.{List, [], ◌∷◌}
use native.Mathlib.Omega.{arith}

module _ {ℓ κ} {K : Type ℓ} {V : Type κ} ⦃o : Ord K⦄ where
  unfoldable pub insert : K → V → List (K × V) → List (K × V)
  insert k v [] = (k, v) ∷ []
  insert k v ((j, w) ∷ m) =
      let rest = insert k v m in
      if o.lt k j then (k, v) ∷ (j, w) ∷ m else if o.beq j k then (k, v) ∷ m else (j, w) ∷ rest

  pub get-insert :
      (j k : K) (v : V) (m : List (K × V))
      → get j (insert k v m) ≡ (if o.beq k j then some v else get j m)
  unfolding get insert
  get-insert j k v [] = refl
  get-insert j k v ((i, w) ∷ m) =
      ground (arith, o.beq_iff i k, o.beq_iff i j, o.beq_iff k j, get-insert j k v m)

  -- Every key of the list is above `k`.
  abbrev pub Above : K → List (K × V) → Type 0
  Above k [] = Unit
  Above k ((j, v) ∷ m) = (o.lt k j ≡ true) × Above k m

  abbrev pub IsSorted : List (K × V) → Type 0
  IsSorted [] = Unit
  IsSorted ((k, v) ∷ m) = Above k m × IsSorted m

  pub get-Above : (k : K) (m : List (K × V)) → Above k m → get k m ≡ none
  unfolding get
  get-Above k [] a = refl
  get-Above k ((j, v) ∷ m) a = ground (arith, o.beq_iff j k, o.lt_irrefl k, get-Above k m a.1)

  pub IsSorted-Unique : (m : List (K × V)) → IsSorted m → Unique m
  IsSorted-Unique [] s = tt
  IsSorted-Unique ((k, v) ∷ m) s = (get-Above k m s.0, IsSorted-Unique m s.1)

  pub Above-trans : (i k : K) (m : List (K × V)) → o.lt i k ≡ true → Above k m → Above i m
  Above-trans i k [] h a = tt
  Above-trans i k ((j, v) ∷ m) h a = (o.lt_trans i k j h a.0, Above-trans i k m h a.1)

  Above-insert :
      (i k : K) (v : V) (m : List (K × V)) → o.lt i k ≡ true → Above i m → Above i (insert k v m)
  unfolding insert
  Above-insert i k v [] h a = (h, tt)
  Above-insert i k v ((j, w) ∷ m) h a = ground (arith, Above-insert i k v m h a.1)

  Above-remove : (i k : K) (m : List (K × V)) → Above i m → Above i (remove k m)
  unfolding remove
  Above-remove i k [] a = tt
  Above-remove i k ((j, w) ∷ m) a = ground (arith, Above-remove i k m a.1)

  pub insert-IsSorted : (k : K) (v : V) (m : List (K × V)) → IsSorted m → IsSorted (insert k v m)
  unfolding insert
  insert-IsSorted k v [] s = (tt, tt)
  insert-IsSorted k v ((j, w) ∷ m) s = ground (
    arith,
    o.beq_iff j k,
    o.beq_iff k j,
    o.lt_connex k j,
    Above-trans k j m,
    Above-insert j k v m,
    insert-IsSorted k v m s.1,
  )

  pub remove-IsSorted : (k : K) (m : List (K × V)) → IsSorted m → IsSorted (remove k m)
  unfolding remove
  remove-IsSorted k [] s = tt
  remove-IsSorted k ((j, w) ∷ m) s = ground (arith, Above-remove j k m s.0, remove-IsSorted k m s.1)
