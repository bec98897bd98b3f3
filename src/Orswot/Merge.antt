-- ===== src/Orswot/Merge.antt =====
-- `OrSWotSet::merge` (datacake-crdt/src/orswot.rs): a log of the other set's entries and
-- tombstones in time order, then what is left of the own entries.
use datacake.Base.{Bool, true, false, none, some, List, [], ◌∷◌, ◌++◌, ltb, max, if◌then◌else◌}
use datacake.Base.Ord.{nat_ord}
use datacake.Base.Assoc.{get, remove}
use datacake.Base.BTreeMap
use datacake.Base.HashMap
use datacake.Base.Sort.{sort_by_key}
use datacake.Timestamp.Fields.{HlcTimestamp}
use datacake.Orswot.Versions.{NodeVersions, is_ts_before_last_observed_event, merge_versions}
use datacake.Orswot.Set.{Key, StateChanges, OrSWotSet}

-- A line of the log: the key, the timestamp, and whether it is a delete.
abbrev pub LogEntry : Type 0
LogEntry = Key × (HlcTimestamp × Bool)

-- The variables of the loops: `old_entries`, `self.entries` and `self.dead`.
pub record Merging : Type 0 where
  pub old_entries : StateChanges
  pub entries : StateChanges
  pub dead : StateChanges

-- `entry(key).and_modify(max).or_insert(ts)` on the tombstones.
unfoldable pub bury : Key → HlcTimestamp → Merging → Merging
bury key ts m = record m {
  dead = elim (get key m.dead) [
    | none ↦ HashMap.insert key ts m.dead
    | some v ↦ HashMap.insert key (max v ts) m.dead
  ];
}

unfoldable pub merge_delete : NodeVersions → Key → HlcTimestamp → Merging → Merging
unfolding bury
merge_delete versions key ts m =
    if is_ts_before_last_observed_event ts versions then m else elim (get key m.entries) [
      | none ↦ bury key ts (record m { entries = remove key m.entries })
      | some entry ↦
          if ltb ts entry
          then record m { entries = BTreeMap.insert key entry (remove key m.entries) }
          else bury key ts (record m { entries = remove key m.entries })
    ]

-- The check for a tombstone, and the insertion.
unfoldable pub merge_alive : Key → HlcTimestamp → Merging → Merging
merge_alive key timestamp m =
    let dead = remove key m.dead in
    let alive = record m { dead = dead; entries = BTreeMap.insert key timestamp m.entries } in
    elim (get key m.dead) [
      | none ↦ alive
      | some deleted_ts ↦
          if ltb timestamp deleted_ts
          then record m { dead = HashMap.insert key deleted_ts dead }
          else alive
    ]

unfoldable pub merge_insert : Key → HlcTimestamp → Merging → Merging
unfolding merge_alive
merge_insert key ts m =
    let timestamp : HlcTimestamp = elim (get key m.old_entries) [
      | none ↦ ts
      | some existing_ts ↦ max ts existing_ts
    ] in
    merge_alive key timestamp (record m { old_entries = remove key m.old_entries })

unfoldable pub merge_log_entry : NodeVersions → LogEntry → Merging → Merging
unfolding merge_delete merge_insert
merge_log_entry versions (key, (ts, is_delete)) m =
    if is_delete then merge_delete versions key ts m else merge_insert key ts m

unfoldable pub merge_log : NodeVersions → List LogEntry → Merging → Merging
unfolding merge_log_entry
merge_log versions [] m = m
merge_log versions (e ∷ log) m = merge_log versions log (merge_log_entry versions e m)

-- One of the own entries that the other set lacks.
unfoldable pub keep_entry : NodeVersions → Key → HlcTimestamp → Merging → Merging
unfolding merge_alive
keep_entry remote_versions key ts m =
    if is_ts_before_last_observed_event ts remote_versions then m else merge_alive key ts m

unfoldable pub keep_entries : NodeVersions → StateChanges → Merging → Merging
unfolding keep_entry
keep_entries remote_versions [] m = m
keep_entries remote_versions ((key, ts) ∷ rest) m =
    keep_entries remote_versions rest (keep_entry remote_versions key ts m)

unfoldable pub tag : Bool → StateChanges → List LogEntry
tag is_delete [] = []
tag is_delete ((k, ts) ∷ rest) = (k, (ts, is_delete)) ∷ tag is_delete rest

abbrev pub time_of : LogEntry → HlcTimestamp
time_of (k, (ts, is_delete)) = ts

unfoldable pub entries_log : OrSWotSet → List LogEntry
unfolding tag
entries_log other = sort_by_key time_of (tag false other.entries ++ tag true other.dead)

unfoldable pub merge : OrSWotSet → OrSWotSet → OrSWotSet
unfolding merge_log keep_entries entries_log merge_versions
merge s other =
    let start : Merging = record { old_entries = s.entries; entries = []; dead = s.dead } in
    let logged = merge_log s.versions (entries_log other) start in
    let done = keep_entries other.versions logged.old_entries logged in
    record {
      entries = done.entries;
      dead = done.dead;
      versions = merge_versions s.versions other.versions;
    }
