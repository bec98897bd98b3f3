-- ===== src/Orswot/Replica.antt =====
-- A replica that receives operations: the calls of `insert_with_source` and `delete_with_source`
-- in the order of their delivery (datacake-crdt/src/orswot.rs).
use datacake.Base.{
  ℕ, ◌≡◌, Bool, true, Option, some, List, [], ◌∷◌, ◌&&◌, if◌then◌else◌, arith, inl, inr, ◌≤◌, ◌==◌,
  Bool-cases,
}
use datacake.Base.Result.{◌>>=◌}
use datacake.Base.Ord.{nat_ord}
use datacake.Timestamp.Fields.{HlcTimestamp, node}
use datacake.Orswot.Versions.{NodeVersions, try_update_max_stamp}
use datacake.Orswot.Set.{
  Key, OrSWotSet, apply_insert, apply_delete, insert_with_source, delete_with_source,
}
use datacake.Orswot.Slot.{Slot, absent, alive, deleted, slot, join, IsValid}
use datacake.Orswot.Updates.{
  slot-apply_insert, slot-apply_delete, apply_insert-IsValid, apply_delete-IsValid,
}
use datacake.Orswot.Observed.{seen_by, HasSource, try_update_accepts}

-- One delivery.
pub record Op : Type 0 where
  pub source : ℕ
  pub key : Key
  pub ts : HlcTimestamp
  pub is_delete : Bool

unfoldable pub deliver : Op → OrSWotSet → Option (OrSWotSet × Bool)
deliver op s =
    if op.is_delete
    then delete_with_source op.source op.key op.ts s
    else insert_with_source op.source op.key op.ts s

unfoldable pub deliver_all : List Op → OrSWotSet → Option OrSWotSet
deliver_all [] s = some s
deliver_all (op ∷ ops) s = deliver op s >>= λ (s', has_set). deliver_all ops s'

-- What one operation says of a key.
abbrev pub effect : Op → Slot
effect op = if op.is_delete then deleted op.ts else alive op.ts

-- What a collection of operations says of a key: the latest of them.
unfoldable pub outcome : Key → List Op → Slot
outcome k [] = absent
outcome k (op ∷ ops) =
    let rest = outcome k ops in if op.key == k then join (effect op) rest else rest

-- A later operation of the same source and node is not older.
abbrev pub NotAfter : Op → List Op → Type 0
NotAfter op [] = Unit
NotAfter op (later ∷ ops) =
    (later.source ≡ op.source → node later.ts ≡ node op.ts → op.ts ≤ later.ts) × NotAfter op ops

-- Every source delivers the operations of every node in the order of their timestamps.
abbrev pub InOrder : List Op → Type 0
InOrder [] = Unit
InOrder (op ∷ ops) = NotAfter op ops × InOrder ops

-- The sources of the operations are among the N of the set.
abbrev pub Known : List Op → NodeVersions → Type 0
Known [] v = Unit
Known (op ∷ ops) v = HasSource op.source v × Known ops v

-- The set has seen nothing that is later than an operation to come.
abbrev pub Fresh : List Op → NodeVersions → Type 0
Fresh [] v = Unit
Fresh (op ∷ ops) v =
    ((last : HlcTimestamp) → seen_by op.source (node op.ts) v ≡ some last → last ≤ op.ts)
    × Fresh ops v

apply : Op → OrSWotSet → OrSWotSet × Bool
apply op s = if op.is_delete then apply_delete op.key op.ts s else apply_insert op.key op.ts s

apply-versions : (op : Op) (s : OrSWotSet) → (apply op s).0.versions ≡ s.versions
unfolding apply apply_delete apply_insert
apply-versions op s = ground arith

apply-IsValid : (op : Op) (s : OrSWotSet) → IsValid s → IsValid (apply op s).0
unfolding apply
apply-IsValid op s v = elim (Bool-cases op.is_delete) [
  | inl d ↦ rw d (apply_delete-IsValid op.key op.ts s v)
  | inr d ↦ rw d (apply_insert-IsValid op.key op.ts s v)
]

slot-apply :
    (op : Op) (k : Key) (s : OrSWotSet)
    → IsValid s
    → slot k (apply op s).0 ≡ (if op.key == k then join (slot k s) (effect op) else slot k s)
unfolding apply
slot-apply op k s v = elim (Bool-cases op.is_delete) [
  | inl d ↦ rw d (slot-apply_delete op.key k op.ts s v)
  | inr d ↦ rw d (slot-apply_insert op.key k op.ts s v)
]

deliver-accepted :
    (op : Op) (s : OrSWotSet) (w : NodeVersions)
    → try_update_max_stamp op.source op.ts s.versions ≡ some (w, true)
    → deliver op s ≡ some (apply op (record s { versions = w }))
unfolding deliver apply insert_with_source delete_with_source
deliver-accepted op s w e = elim (Bool-cases op.is_delete) [
  | inl d ↦ rw (d, e, ◌>>=◌)
  | inr d ↦ rw (d, e, ◌>>=◌)
]

-- An operation that is fresh is applied.
pub deliver_applies :
    (op : Op) (s : OrSWotSet)
    → IsValid s
    → HasSource op.source s.versions
    → ((last : HlcTimestamp) → seen_by op.source (node op.ts) s.versions ≡ some last → last ≤ op.ts)
    → (s' : OrSWotSet) × (b : Bool) × (deliver op s ≡ some (s', b))
      × IsValid s'
      × ((k : Key) → slot k s' ≡ (if op.key == k then join (slot k s) (effect op) else slot k s))
      × ((i n : ℕ)
          → seen_by i n s'.versions
            ≡ (if op.source == i && node op.ts == n then some op.ts else seen_by i n s.versions))
      × ((i : ℕ) → HasSource i s.versions → HasSource i s'.versions)
deliver_applies op s v known newer =
    let (w, e, sees, has) = try_update_accepts op.source op.ts s.versions known newer in
    let s₁ : OrSWotSet = record s { versions = w } in
    let v₁ : IsValid s₁ = record { sorted = v.sorted; unique = v.unique; disjoint = v.disjoint } in
    (
      (apply op s₁).0,
      (apply op s₁).1,
      deliver-accepted op s w e,
      apply-IsValid op s₁ v₁,
      (λ k. slot-apply op k s₁ v₁),
      (λ i n. rw (apply-versions op s₁) (sees i n)),
      (λ i h. rw (apply-versions op s₁) (has i h)),
    )
