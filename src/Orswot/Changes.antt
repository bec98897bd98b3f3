-- ===== src/Orswot/Changes.antt =====
-- What `diff` lists, against what `merge` does (datacake-crdt/src/orswot.rs).
use datacake.Base.{
  ◌≡◌, ◌∙◌, Bool, true, not, Option, none, some, [], ◌∷◌, ltb, if◌then◌else◌, arith, ◌↔◌, inl, inr,
  ◌==◌, ==_iff, Bool-cases,
}
use datacake.Base.Ord.{nat_ord}
use datacake.Base.Assoc.{get, Unique, get-append}
use datacake.Base.BTreeMap.{IsSorted-Unique}
use datacake.Timestamp.Fields.{HlcTimestamp}
use datacake.Orswot.Versions.{NodeVersions, is_ts_before_last_observed_event}
use datacake.Orswot.Set.{Key, StateChanges, OrSWotSet}
use datacake.Orswot.Slot.{Slot, absent, alive, deleted, slot, join, IsValid}
use datacake.Orswot.Diff.{check_self_then_insert_to, check_all, diff}
use datacake.Orswot.Merge.{merge}
use datacake.Orswot.MergeSlots.{slot-merge}
use datacake.Orswot.MergeLaws.{NotPassed}

-- The test that decides whether a timestamp is listed, on what the set says of the key.
abbrev pub wanted : NodeVersions → Slot → HlcTimestamp → Bool
wanted v absent ts = not (is_ts_before_last_observed_event ts v)
wanted v (alive t) ts = ltb t ts
wanted v (deleted d) ts = ltb d ts

abbrev pub pick : Bool → HlcTimestamp → Option HlcTimestamp
pick b ts = if b then some ts else none

abbrev first : Option HlcTimestamp → Option HlcTimestamp → Option HlcTimestamp
first (some x) y = some x
first none y = y

get-check_self :
    (s : OrSWotSet) (k j : Key) (ts : HlcTimestamp) (vals : StateChanges)
    → get k (check_self_then_insert_to s j ts vals)
      ≡ first (get k vals) (if j == k then pick (wanted s.versions (slot k s) ts) ts else none)
unfolding check_self_then_insert_to get
get-check_self s k j ts vals = elim (Bool-cases (j == k)) [
  | inl e ↦ ground (arith, get-append k vals ((j, ts) ∷ []), (==_iff j k).0 e)
  | inr e ↦ ground (arith, get-append k vals ((j, ts) ∷ []))
]

get-check_all :
    (s : OrSWotSet) (k : Key) (l vals : StateChanges)
    → Unique l
    → get k (check_all s l vals)
      ≡ first
          (get k vals)
          (elim (get k l) [ none ↦ none | some ts ↦ pick (wanted s.versions (slot k s) ts) ts ])
unfolding check_all get
get-check_all s k [] vals u = ground arith
get-check_all s k ((j, ts) ∷ l) vals u =
    get-check_all s k l (check_self_then_insert_to s j ts vals) u.1
    ∙ ground (arith, get-check_self s k j ts vals, u.0, ==_iff j k)

-- A key is listed, with the other set's timestamp, exactly where that timestamp is later than the
-- own one, or where the own set holds nothing of the key and its versions have not passed the
-- timestamp. Entries are listed as changes and tombstones as removals.
pub get-diff :
    (s o : OrSWotSet) (k : Key)
    → IsValid o
    → (get k (diff s o).0 ≡ elim (get k o.entries) [
      | none ↦ none
      | some ts ↦ pick (wanted s.versions (slot k s) ts) ts
    ])
      × (get k (diff s o).1 ≡ elim (get k o.dead) [
        | none ↦ none
        | some ts ↦ pick (wanted s.versions (slot k s) ts) ts
      ])
unfolding diff get
get-diff s o k v = (
  get-check_all s k o.entries [] (IsSorted-Unique o.entries v.sorted),
  get-check_all s k o.dead [] v.unique,
)

-- The one case in which `diff` and `merge` order two timestamps differently: a tombstone of the own
-- set and an entry of the other with the same timestamp.
abbrev pub IsTie : Slot → Slot → Type 0
IsTie (deleted d) (alive t) = d ≡ t
IsTie x y = ⊥

-- Apart from a tie, and where the own versions have not passed the other's timestamp, `diff` lists
-- nothing of a key exactly where the other's slot adds nothing to the own one.
pub diff-none_iff :
    (s o : OrSWotSet) (k : Key)
    → IsValid s
    → IsValid o
    → NotPassed s.versions (slot k o)
    → ¬ IsTie (slot k s) (slot k o)
    → ((get k (diff s o).0 ≡ none) × (get k (diff s o).1 ≡ none))
      ↔ (join (slot k s) (slot k o) ≡ slot k s)
unfolding join
diff-none_iff s o k v w p t = ground (arith, get-diff s o k w, v.disjoint k, w.disjoint k, p)

-- At a tie `diff` lists nothing of the key, and `merge` brings the entry back.
pub diff-merge_tie :
    (s o : OrSWotSet) (k : Key)
    → IsValid s
    → IsValid o
    → (t : HlcTimestamp) → slot k s ≡ deleted t
    → slot k o ≡ alive t
    → (get k (diff s o).0 ≡ none) × (get k (diff s o).1 ≡ none) × (slot k (merge s o) ≡ alive t)
unfolding join
diff-merge_tie s o k v w t e f =
    ground (arith, get-diff s o k w, slot-merge s o k v w, v.disjoint k, w.disjoint k)

-- A key that the own set has purged, and that the other still holds with a timestamp that the own
-- versions have passed, is listed by no `diff`, and `merge` brings it back.
pub diff-merge_passed :
    (s o : OrSWotSet) (k : Key)
    → IsValid s
    → IsValid o
    → (t : HlcTimestamp) → slot k s ≡ absent
    → slot k o ≡ alive t
    → is_ts_before_last_observed_event t s.versions ≡ true
    → (get k (diff s o).0 ≡ none) × (get k (diff s o).1 ≡ none) × (slot k (merge s o) ≡ alive t)
unfolding join
diff-merge_passed s o k v w t e f b =
    ground (arith, get-diff s o k w, slot-merge s o k v w, v.disjoint k, w.disjoint k)
