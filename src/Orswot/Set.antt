-- ===== src/Orswot/Set.antt =====
-- `OrSWotSet` and its operations on one key (datacake-crdt/src/orswot.rs).
use datacake.Base.{
  ℕ, Bool, true, false, Option, none, some, List, [], ◌∷◌, ◌++◌, ltb, leb, if◌then◌else◌,
}
use datacake.Base.Result.{◌>>=◌}
use datacake.Base.Ord.{nat_ord}
use datacake.Base.Assoc.{get, remove}
use datacake.Base.BTreeMap
use datacake.Base.HashMap
use datacake.Timestamp.Fields.{HlcTimestamp}
use datacake.Orswot.Versions.{
  NodeVersions, default_versions, try_update_max_stamp, is_ts_before_last_observed_event,
}

abbrev pub Key : Type 0
Key = ℕ

abbrev pub StateChanges : Type 0
StateChanges = List (Key × HlcTimestamp)

pub record OrSWotSet : Type 0 where
  pub entries : List (Key × HlcTimestamp)
  pub dead : List (Key × HlcTimestamp)
  pub versions : NodeVersions

unfoldable pub default : ℕ → OrSWotSet
unfolding default_versions
default n = record { entries = []; dead = []; versions = default_versions n }

unfoldable pub get_entry : Key → OrSWotSet → Option HlcTimestamp
get_entry k s = get k s.entries

unfoldable pub will_apply : Key → HlcTimestamp → OrSWotSet → Bool
will_apply k ts s =
    if is_ts_before_last_observed_event ts s.versions then false else elim (get k s.entries) [
      | some entry ↦ ltb entry ts
      | none ↦ elim (get k s.dead) [ some entry ↦ ltb entry ts | none ↦ true ]
    ]

-- `entry(k).and_modify(..).or_insert_with(..)` on the entries, with `has_set`.
unfoldable pub upsert_entry : Key → HlcTimestamp → OrSWotSet → OrSWotSet × Bool
upsert_entry k ts s = elim (get k s.entries) [
  | none ↦ (record s { entries = BTreeMap.insert k ts s.entries }, true)
  | some v ↦
      if ltb v ts then (record s { entries = BTreeMap.insert k ts s.entries }, true) else (s, false)
]

unfoldable pub upsert_dead : Key → HlcTimestamp → OrSWotSet → OrSWotSet × Bool
upsert_dead k ts s = elim (get k s.dead) [
  | none ↦ (record s { dead = HashMap.insert k ts s.dead }, true)
  | some v ↦ if ltb v ts then (record s { dead = HashMap.insert k ts s.dead }, true) else (s, false)
]

-- What `insert_with_source` does once the versions have accepted the timestamp.
unfoldable pub apply_insert : Key → HlcTimestamp → OrSWotSet → OrSWotSet × Bool
unfolding upsert_entry
apply_insert k ts s =
    let s' = record s { dead = remove k s.dead } in
    elim (get k s.dead) [
      | none ↦ upsert_entry k ts s'
      | some deleted_ts ↦
          if ltb ts deleted_ts
          then (record s { dead = HashMap.insert k deleted_ts (remove k s.dead) }, false)
          else upsert_entry k ts s'
    ]

unfoldable pub insert_with_source : ℕ → Key → HlcTimestamp → OrSWotSet → Option (OrSWotSet × Bool)
unfolding apply_insert
insert_with_source source k ts s = try_update_max_stamp source ts s.versions >>= λ (v, updated).
    (let s' = record s { versions = v } in
      some (if updated then apply_insert k ts s' else (s', false)))

unfoldable pub insert : Key → HlcTimestamp → OrSWotSet → Option (OrSWotSet × Bool)
unfolding insert_with_source
insert k ts s = insert_with_source 0 k ts s

-- What `delete_with_source` does once the versions have accepted the timestamp.
unfoldable pub apply_delete : Key → HlcTimestamp → OrSWotSet → OrSWotSet × Bool
unfolding upsert_dead
apply_delete k ts s =
    let s' = record s { entries = remove k s.entries } in
    elim (get k s.entries) [
      | none ↦ upsert_dead k ts s'
      | some existing_ts ↦
          if leb ts existing_ts
          then (record s { entries = BTreeMap.insert k existing_ts (remove k s.entries) }, false)
          else upsert_dead k ts s'
    ]

unfoldable pub delete_with_source : ℕ → Key → HlcTimestamp → OrSWotSet → Option (OrSWotSet × Bool)
unfolding apply_delete
delete_with_source source k ts s = try_update_max_stamp source ts s.versions >>= λ (v, updated).
    (let s' = record s { versions = v } in
      some (if updated then apply_delete k ts s' else (s', false)))

unfoldable pub delete : Key → HlcTimestamp → OrSWotSet → Option (OrSWotSet × Bool)
unfolding delete_with_source
delete k ts s = delete_with_source 0 k ts s

-- The loop of `purge_old_deletes` over the tombstones taken out: those kept, those given back.
unfoldable pub purge_loop :
    NodeVersions → StateChanges → StateChanges → StateChanges → StateChanges × StateChanges
purge_loop v [] kept deleted_keys = (kept, deleted_keys)
purge_loop v ((k, stamp) ∷ rest) kept deleted_keys =
    let old = is_ts_before_last_observed_event stamp v in
    purge_loop v rest (if old then kept else HashMap.insert k stamp kept)
      (if old then deleted_keys ++ (k, stamp) ∷ [] else deleted_keys)

unfoldable pub purge_old_deletes : OrSWotSet → OrSWotSet × StateChanges
unfolding purge_loop
purge_old_deletes s =
    let (kept, deleted_keys) = purge_loop s.versions s.dead [] [] in
    (record s { dead = kept }, deleted_keys)

unfoldable pub insert_all : StateChanges → StateChanges → StateChanges
insert_all [] dead = dead
insert_all ((k, stamp) ∷ rest) dead = insert_all rest (HashMap.insert k stamp dead)

unfoldable pub add_raw_tombstones : StateChanges → OrSWotSet → OrSWotSet
unfolding insert_all
add_raw_tombstones tombstones s = record s { dead = insert_all tombstones s.dead }
