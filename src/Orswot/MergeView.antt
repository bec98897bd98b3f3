-- ===== src/Orswot/MergeView.antt =====
-- What the loops of `merge` do to one key (datacake-crdt/src/orswot.rs).
use datacake.Base.{
  ◌≡◌, Option, none, some, ltb, max, if◌then◌else◌, arith, ◌==◌, ==_iff, Option-cases, inl, inr,
}
use datacake.Base.Ord.{nat_ord}
use datacake.Base.Assoc.{get, remove, get-remove}
use datacake.Base.BTreeMap
use datacake.Base.HashMap
use datacake.Timestamp.Fields.{HlcTimestamp}
use datacake.Orswot.Versions.{NodeVersions, is_ts_before_last_observed_event}
use datacake.Orswot.Set.{Key}
use datacake.Orswot.Merge.{Merging, bury, merge_delete, merge_alive, merge_insert}

-- One key in the three maps of the loops.
pub record View : Type 0 where
  pub old : Option HlcTimestamp
  pub entry : Option HlcTimestamp
  pub dead : Option HlcTimestamp

abbrev pub view : Key → Merging → View
view j m = record { old = get j m.old_entries; entry = get j m.entries; dead = get j m.dead }

abbrev pub later : Option HlcTimestamp → HlcTimestamp → HlcTimestamp
later none ts = ts
later (some v) ts = max v ts

abbrev pub alive_view : HlcTimestamp → View → View
alive_view ts x = elim x.dead [
  | none ↦ record x { entry = some ts; dead = none }
  | some d ↦ if ltb ts d then x else record x { entry = some ts; dead = none }
]

abbrev pub delete_view : NodeVersions → HlcTimestamp → View → View
delete_view v ts x =
    let buried : View = record x { entry = none; dead = some (later x.dead ts) } in
    if is_ts_before_last_observed_event ts v
    then x
    else elim x.entry [ none ↦ buried | some e ↦ if ltb ts e then x else buried ]

abbrev pub insert_view : HlcTimestamp → View → View
insert_view ts x = alive_view (later x.old ts) (record x { old = none })

pub view-merge_alive :
    (j k : Key) (ts : HlcTimestamp) (m : Merging)
    → view j (merge_alive k ts m) ≡ (if k == j then alive_view ts (view j m) else view j m)
unfolding merge_alive
view-merge_alive j k ts m = elim (Option-cases (get k m.dead)) [
  | inl e ↦ ground (arith, get-remove j k m.dead, BTreeMap.get-insert j k ts m.entries, ==_iff k j)
  | inr (d, e) ↦ ground (
    arith,
    get-remove j k m.dead,
    BTreeMap.get-insert j k ts m.entries,
    HashMap.get-insert j k d (remove k m.dead),
    ==_iff k j,
  )
]

view-bury :
    (j k : Key) (ts : HlcTimestamp) (m : Merging)
    → view j (bury k ts m)
      ≡ (if k == j then record (view j m) { dead = some (later (get j m.dead) ts) } else view j m)
unfolding bury
view-bury j k ts m = elim (Option-cases (get k m.dead)) [
  | inl e ↦ ground (arith, HashMap.get-insert j k ts m.dead, ==_iff k j)
  | inr (d, e) ↦ ground (arith, HashMap.get-insert j k (max d ts) m.dead, ==_iff k j)
]

pub view-merge_delete :
    (v : NodeVersions) (j k : Key) (ts : HlcTimestamp) (m : Merging)
    → view j (merge_delete v k ts m) ≡ (if k == j then delete_view v ts (view j m) else view j m)
unfolding merge_delete
view-merge_delete v j k ts m = elim (Option-cases (get k m.entries)) [
  | inl e ↦ ground (
    arith,
    get-remove j k m.entries,
    view-bury j k ts (record m { entries = remove k m.entries }),
    ==_iff k j,
  )
  | inr (t, e) ↦ ground (
    arith,
    get-remove j k m.entries,
    BTreeMap.get-insert j k t (remove k m.entries),
    view-bury j k ts (record m { entries = remove k m.entries }),
    ==_iff k j,
  )
]

pub view-merge_insert :
    (j k : Key) (ts : HlcTimestamp) (m : Merging)
    → view j (merge_insert k ts m) ≡ (if k == j then insert_view ts (view j m) else view j m)
unfolding merge_insert
view-merge_insert j k ts m =
    let m' : Merging = record m { old_entries = remove k m.old_entries } in
    ground (
      arith,
      get-remove j k m.old_entries,
      view-merge_alive j k (later (get k m.old_entries) ts) m',
      ==_iff k j,
    )
