-- ===== src/Orswot/MergeValid.antt =====
-- The maps of the loops of `merge`: sorted, and without repeated keys
-- (datacake-crdt/src/orswot.rs).
use datacake.Base.{true, false, List, [], ◌∷◌, max, arith, Bool-cases, Option-cases, inl, inr}
use datacake.Base.Ord.{nat_ord}
use datacake.Base.Assoc.{get, remove, Unique, remove-Unique}
use datacake.Base.BTreeMap.{IsSorted, insert-IsSorted, remove-IsSorted}
use datacake.Base.HashMap.{insert-Unique}
use datacake.Timestamp.Fields.{HlcTimestamp}
use datacake.Orswot.Versions.{NodeVersions, is_ts_before_last_observed_event}
use datacake.Orswot.Set.{Key, StateChanges}
use datacake.Orswot.Merge.{
  LogEntry, Merging, bury, merge_delete, merge_alive, merge_insert, merge_log_entry, merge_log,
  keep_entry, keep_entries,
}

pub record IsProper (m : Merging) : Type 0 where
  pub old_sorted : IsSorted m.old_entries
  pub sorted : IsSorted m.entries
  pub unique : Unique m.dead

merge_alive-IsProper :
    (k : Key) (ts : HlcTimestamp) (m : Merging) → IsProper m → IsProper (merge_alive k ts m)
unfolding merge_alive
merge_alive-IsProper k ts m p = elim (Option-cases (get k m.dead)) [
  | inl e ↦ ground (arith, insert-IsSorted k ts m.entries p.sorted, remove-Unique k m.dead p.unique)
  | inr (d, e) ↦ ground (
    arith,
    insert-IsSorted k ts m.entries p.sorted,
    remove-Unique k m.dead p.unique,
    insert-Unique k d (remove k m.dead) (remove-Unique k m.dead p.unique),
  )
]

bury-IsProper : (k : Key) (ts : HlcTimestamp) (m : Merging) → IsProper m → IsProper (bury k ts m)
unfolding bury
bury-IsProper k ts m p = elim (Option-cases (get k m.dead)) [
  | inl e ↦ ground (arith, insert-Unique k ts m.dead p.unique)
  | inr (d, e) ↦ ground (arith, insert-Unique k (max d ts) m.dead p.unique)
]

merge_delete-IsProper :
    (v : NodeVersions) (k : Key) (ts : HlcTimestamp) (m : Merging)
    → IsProper m
    → IsProper (merge_delete v k ts m)
unfolding merge_delete
merge_delete-IsProper v k ts m p =
    let m' : Merging = record m { entries = remove k m.entries } in
    let p' : IsProper m' = record {
      old_sorted = p.old_sorted;
      sorted = remove-IsSorted k m.entries p.sorted;
      unique = p.unique;
    } in
    elim (Option-cases (get k m.entries)) [
      | inl e ↦ ground (arith, bury-IsProper k ts m' p')
      | inr (t, e) ↦
          ground
            (arith, bury-IsProper k ts m' p', insert-IsSorted k t (remove k m.entries) p'.sorted)
    ]

merge_insert-IsProper :
    (k : Key) (ts : HlcTimestamp) (m : Merging) → IsProper m → IsProper (merge_insert k ts m)
unfolding merge_insert
merge_insert-IsProper k ts m p =
    merge_alive-IsProper k _ (record m { old_entries = remove k m.old_entries })
      (record {
        old_sorted = remove-IsSorted k m.old_entries p.old_sorted;
        sorted = p.sorted;
        unique = p.unique;
      })

merge_log_entry-IsProper :
    (v : NodeVersions) (e : LogEntry) (m : Merging) → IsProper m → IsProper (merge_log_entry v e m)
unfolding merge_log_entry
merge_log_entry-IsProper v (k, (ts, true)) m p = merge_delete-IsProper v k ts m p
merge_log_entry-IsProper v (k, (ts, false)) m p = merge_insert-IsProper k ts m p

pub merge_log-IsProper :
    (v : NodeVersions) (log : List LogEntry) (m : Merging)
    → IsProper m
    → IsProper (merge_log v log m)
unfolding merge_log
merge_log-IsProper v [] m p = p
merge_log-IsProper v (e ∷ log) m p =
    merge_log-IsProper v log (merge_log_entry v e m) (merge_log_entry-IsProper v e m p)

keep_entry-IsProper :
    (v : NodeVersions) (k : Key) (ts : HlcTimestamp) (m : Merging)
    → IsProper m
    → IsProper (keep_entry v k ts m)
unfolding keep_entry
keep_entry-IsProper v k ts m p = elim (Bool-cases (is_ts_before_last_observed_event ts v)) [
  | inl e ↦ rw e p
  | inr e ↦ rw e (merge_alive-IsProper k ts m p)
]

pub keep_entries-IsProper :
    (v : NodeVersions) (l : StateChanges) (m : Merging) → IsProper m → IsProper (keep_entries v l m)
unfolding keep_entries
keep_entries-IsProper v [] m p = p
keep_entries-IsProper v ((k, ts) ∷ l) m p =
    keep_entries-IsProper v l (keep_entry v k ts m) (keep_entry-IsProper v k ts m p)
