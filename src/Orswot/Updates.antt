-- ===== src/Orswot/Updates.antt =====
-- `insert` and `delete` on the slot of one key (datacake-crdt/src/orswot.rs).
use datacake.Base.{
  ◌≡◌, false, none, if◌then◌else◌, arith, ◌⊎◌, inl, inr, ◌==◌, ==_iff, ◌↔◌, Option-cases,
}
use datacake.Base.Ord.{nat_ord}
use datacake.Base.Assoc.{get, remove, Unique, get-remove, remove-Unique}
use datacake.Base.BTreeMap
use datacake.Base.BTreeMap.{IsSorted, insert-IsSorted, remove-IsSorted}
use datacake.Base.HashMap
use datacake.Base.HashMap.{insert-Unique}
use datacake.Timestamp.Fields.{HlcTimestamp}
use datacake.Orswot.Set.{Key, OrSWotSet, apply_insert, apply_delete}
use datacake.Orswot.Slot.{alive, deleted, slot, join, IsValid}

-- Once the versions have accepted the timestamp, an insert joins the slot of its key with the new
-- entry and leaves every other slot as it was.
pub slot-apply_insert :
    (k j : Key) (ts : HlcTimestamp) (s : OrSWotSet)
    → IsValid s
    → slot j (apply_insert k ts s).0 ≡ (if k == j then join (slot j s) (alive ts) else slot j s)
unfolding apply_insert join
slot-apply_insert k j ts s v = elim (Option-cases (get k s.dead)) [
  | inl e ↦ ground (arith, get-remove j k s.dead, BTreeMap.get-insert j k ts s.entries, ==_iff k j)
  | inr (d, e) ↦ ground (
    arith,
    v.disjoint k,
    get-remove j k s.dead,
    BTreeMap.get-insert j k ts s.entries,
    HashMap.get-insert j k d (remove k s.dead),
    ==_iff k j,
  )
]

-- Likewise a delete joins the slot of its key with the tombstone.
pub slot-apply_delete :
    (k j : Key) (ts : HlcTimestamp) (s : OrSWotSet)
    → IsValid s
    → slot j (apply_delete k ts s).0 ≡ (if k == j then join (slot j s) (deleted ts) else slot j s)
unfolding apply_delete join
slot-apply_delete k j ts s v = elim (Option-cases (get k s.entries)) [
  | inl e ↦ ground (arith, get-remove j k s.entries, HashMap.get-insert j k ts s.dead, ==_iff k j)
  | inr (t, e) ↦ ground (
    arith,
    v.disjoint k,
    get-remove j k s.entries,
    HashMap.get-insert j k ts s.dead,
    BTreeMap.get-insert j k t (remove k s.entries),
    ==_iff k j,
  )
]

-- An insert that the versions have accepted answers `false` exactly where the slot of its key
-- already covers it.
pub apply_insert-eq-false :
    (k : Key) (ts : HlcTimestamp) (s : OrSWotSet)
    → IsValid s
    → ((apply_insert k ts s).1 ≡ false) ↔ (join (slot k s) (alive ts) ≡ slot k s)
unfolding apply_insert join
apply_insert-eq-false k ts s v = ground (arith, v.disjoint k)

-- A delete that the versions have accepted answers `false` exactly where the slot of its key
-- already covers it.
pub apply_delete-eq-false :
    (k : Key) (ts : HlcTimestamp) (s : OrSWotSet)
    → IsValid s
    → ((apply_delete k ts s).1 ≡ false) ↔ (join (slot k s) (deleted ts) ≡ slot k s)
unfolding apply_delete join
apply_delete-eq-false k ts s v = ground (arith, v.disjoint k)

entries_IsSorted_insert :
    (k : Key) (ts : HlcTimestamp) (s : OrSWotSet)
    → IsValid s
    → IsSorted (apply_insert k ts s).0.entries × Unique (apply_insert k ts s).0.dead
unfolding apply_insert
entries_IsSorted_insert k ts s v = elim (Option-cases (get k s.dead)) [
  | inl e ↦ ground (arith, insert-IsSorted k ts s.entries v.sorted, remove-Unique k s.dead v.unique)
  | inr (d, e) ↦ ground (
    arith,
    insert-IsSorted k ts s.entries v.sorted,
    remove-Unique k s.dead v.unique,
    insert-Unique k d (remove k s.dead) (remove-Unique k s.dead v.unique),
  )
]

disjoint_insert :
    (k j : Key) (ts : HlcTimestamp) (s : OrSWotSet)
    → IsValid s
    → let s' = (apply_insert k ts s).0 in (get j s'.entries ≡ none) ⊎ (get j s'.dead ≡ none)
unfolding apply_insert
disjoint_insert k j ts s v = elim (Option-cases (get k s.dead)) [
  | inl e ↦
      ground (arith, v.disjoint j, get-remove j k s.dead, BTreeMap.get-insert j k ts s.entries)
  | inr (d, e) ↦ ground (
    arith,
    v.disjoint j,
    v.disjoint k,
    get-remove j k s.dead,
    BTreeMap.get-insert j k ts s.entries,
    HashMap.get-insert j k d (remove k s.dead),
    ==_iff k j,
  )
]

-- An insert keeps the set valid.
pub apply_insert-IsValid :
    (k : Key) (ts : HlcTimestamp) (s : OrSWotSet) → IsValid s → IsValid (apply_insert k ts s).0
apply_insert-IsValid k ts s v =
    let (sorted, unique) = entries_IsSorted_insert k ts s v in
    record { sorted = sorted; unique = unique; disjoint = λ j. disjoint_insert k j ts s v }

entries_IsSorted_delete :
    (k : Key) (ts : HlcTimestamp) (s : OrSWotSet)
    → IsValid s
    → IsSorted (apply_delete k ts s).0.entries × Unique (apply_delete k ts s).0.dead
unfolding apply_delete
entries_IsSorted_delete k ts s v = elim (Option-cases (get k s.entries)) [
  | inl e ↦ ground (arith, insert-Unique k ts s.dead v.unique, remove-IsSorted k s.entries v.sorted)
  | inr (t, e) ↦ ground (
    arith,
    insert-Unique k ts s.dead v.unique,
    remove-IsSorted k s.entries v.sorted,
    insert-IsSorted k t (remove k s.entries) (remove-IsSorted k s.entries v.sorted),
  )
]

disjoint_delete :
    (k j : Key) (ts : HlcTimestamp) (s : OrSWotSet)
    → IsValid s
    → let s' = (apply_delete k ts s).0 in (get j s'.entries ≡ none) ⊎ (get j s'.dead ≡ none)
unfolding apply_delete
disjoint_delete k j ts s v = elim (Option-cases (get k s.entries)) [
  | inl e ↦ ground (arith, v.disjoint j, get-remove j k s.entries, HashMap.get-insert j k ts s.dead)
  | inr (t, e) ↦ ground (
    arith,
    v.disjoint j,
    v.disjoint k,
    get-remove j k s.entries,
    HashMap.get-insert j k ts s.dead,
    BTreeMap.get-insert j k t (remove k s.entries),
    ==_iff k j,
  )
]

-- A delete keeps the set valid.
pub apply_delete-IsValid :
    (k : Key) (ts : HlcTimestamp) (s : OrSWotSet) → IsValid s → IsValid (apply_delete k ts s).0
apply_delete-IsValid k ts s v =
    let (sorted, unique) = entries_IsSorted_delete k ts s v in
    record { sorted = sorted; unique = unique; disjoint = λ j. disjoint_delete k j ts s v }
