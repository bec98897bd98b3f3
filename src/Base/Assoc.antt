-- ===== src/Base/Assoc.antt =====
-- What `BTreeMap` and `HashMap` share: an association list in the order of iteration, its lookup
-- and its removal. Lookup laws are in `if` form and hold of every list.
use datacake.Base.Tests.{if◌then◌else◌, Bool-cases}
use datacake.Base.Ord.{Ord}
use mathlib.Core.Path.{◌≡◌, refl}
use mathlib.Core.Logic.{inl, inr}
use mathlib.Core.Option.{Option, none, some}
use mathlib.Core.List.{List, [], ◌∷◌, ◌++◌}
use native.Mathlib.Omega.{arith}

module _ {ℓ κ} {K : Type ℓ} {V : Type κ} ⦃o : Ord K⦄ where
  unfoldable pub get : K → List (K × V) → Option V
  get k [] = none
  get k ((j, v) ∷ m) = if o.beq j k then some v else get k m

  unfoldable pub remove : K → List (K × V) → List (K × V)
  remove k [] = []
  remove k ((j, v) ∷ m) = let rest = remove k m in if o.beq j k then rest else (j, v) ∷ rest

  -- The values that a loop over the list meets at one key, in order.
  unfoldable pub at : K → List (K × V) → List V
  at k [] = []
  at k ((j, v) ∷ m) = let rest = at k m in if o.beq j k then v ∷ rest else rest

  -- No key occurs twice.
  abbrev pub Unique : List (K × V) → Type κ
  Unique [] = Unit
  Unique ((k, v) ∷ m) = (get k m ≡ none) × Unique m

  pub get-remove :
      (j k : K) (m : List (K × V)) → get j (remove k m) ≡ (if o.beq k j then none else get j m)
  unfolding get remove
  get-remove j k [] = ground arith
  get-remove j k ((i, v) ∷ m) =
      ground (arith, o.beq_iff i k, o.beq_iff i j, o.beq_iff k j, get-remove j k m)

  pub remove-Unique : (k : K) (m : List (K × V)) → Unique m → Unique (remove k m)
  unfolding remove
  remove-Unique k [] u = tt
  remove-Unique k ((i, v) ∷ m) u = ground (arith, get-remove i k m, remove-Unique k m u.1)

abbrev pub option_list {ℓ} : {V : Type ℓ} → Option V → List V
option_list none = []
option_list (some v) = v ∷ []

module _ {ℓ κ} {K : Type ℓ} {V : Type κ} ⦃o : Ord K⦄ where
  pub at-none : (k : K) (m : List (K × V)) → get k m ≡ none → at k m ≡ []
  unfolding get at
  at-none k [] h = refl
  at-none k ((j, v) ∷ m) h = ground (arith, at-none k m)

  pub at-Unique : (k : K) (m : List (K × V)) → Unique m → at k m ≡ option_list (get k m)
  unfolding get at
  at-Unique k [] u = refl
  at-Unique k ((j, v) ∷ m) u = elim (Bool-cases (o.beq j k)) [
    | inl e ↦ ground (arith, o.beq_iff j k, at-none k m, at-Unique k m u.1)
    | inr e ↦ ground (arith, at-Unique k m u.1)
  ]

  pub at-append : (k : K) (l m : List (K × V)) → at k (l ++ m) ≡ at k l ++ at k m
  unfolding at
  at-append k [] m = refl
  at-append k ((j, v) ∷ l) m = ground (arith, at-append k l m)

  pub get-append :
      (k : K) (l m : List (K × V))
      → get k (l ++ m) ≡ elim (get k l) [ none ↦ get k m | some v ↦ some v ]
  unfolding get
  get-append k [] m = refl
  get-append k ((j, v) ∷ l) m = ground (arith, get-append k l m)

  pub append_one-Unique :
      (k : K) (v : V) (l : List (K × V)) → Unique l → get k l ≡ none → Unique (l ++ (k, v) ∷ [])
  unfolding get
  append_one-Unique k v [] u h = (refl, tt)
  append_one-Unique k v ((j, w) ∷ l) u h = ground (
    arith,
    o.beq_iff j k,
    o.beq_iff k j,
    get-append j l ((k, v) ∷ []),
    append_one-Unique k v l u.1,
  )
