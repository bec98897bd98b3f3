-- ===== src/Keyspace/Group.antt =====
-- The group of keyspaces (datacake-eventual-consistency/src/keyspace/group.rs).
--
-- The cell of a keyspace's change timestamp is shared by its actor and by `keyspace_timestamps`.
-- Here it is a field of the actor, and `keyspace_timestamps` is read off the group.
use datacake.Base.{ℕ, Bool, Option, none, some, List, [], ◌∷◌, if◌then◌else◌}
use datacake.Base.Result.{Result, ok, err, ◌>>=◌}
use datacake.Base.Ord.{nat_ord}
use datacake.Base.Assoc.{get}
use datacake.Base.BTreeMap
use datacake.Base.Sort.{sort_by_key}
use datacake.Timestamp.Fields.{HlcTimestamp}
use datacake.Orswot.Set.{Key, OrSWotSet, insert, delete, default}
use datacake.Keyspace.Storage.{Name, Storage}
use datacake.Keyspace.Actor.{KeyspaceActor}
use datacake.Keyspace.Timestamps.{KeyspaceTimestamps}

abbrev pub num_sources : ℕ
num_sources = 2

abbrev pub KeyspaceMap : Type 0
KeyspaceMap = List (Name × KeyspaceActor)

-- `as_serializable`.
unfoldable pub as_serializable : KeyspaceMap → KeyspaceTimestamps
as_serializable [] = []
as_serializable ((name, actor) ∷ group) = (name, actor.change_timestamp) ∷ as_serializable group

pub record KeyspaceInfo : Type 0 where
  pub timestamp : HlcTimestamp
  pub keyspace_timestamps : KeyspaceTimestamps

-- `now` is the time of the clock.
unfoldable pub get_keyspace_info : HlcTimestamp → KeyspaceMap → KeyspaceInfo
unfolding as_serializable
get_keyspace_info now group = record {
  timestamp = now;
  keyspace_timestamps = as_serializable group;
}

unfoldable pub spawn_keyspace : Name → OrSWotSet → HlcTimestamp → KeyspaceActor
spawn_keyspace name state ts = record { name = name; state = state; change_timestamp = ts }

unfoldable pub add_state :
    HlcTimestamp → Name → OrSWotSet → KeyspaceMap → KeyspaceMap × KeyspaceActor
unfolding spawn_keyspace
add_state now name state group =
    let actor = spawn_keyspace name state now in (BTreeMap.insert name actor group, actor)

unfoldable pub get_or_create_keyspace :
    HlcTimestamp → Name → KeyspaceMap → KeyspaceMap × KeyspaceActor
unfolding add_state
get_or_create_keyspace now name group = elim (get name group) [
  | some actor ↦ (group, actor)
  | none ↦ add_state now name (default num_sources) group
]

-- A key, its timestamp, and whether it is a tombstone.
abbrev pub Metadata : Type 0
Metadata = Key × (HlcTimestamp × Bool)

abbrev pub metadata_time : Metadata → HlcTimestamp
metadata_time (k, (ts, tombstone)) = ts

unfoldable pub replay_metadata : List Metadata → OrSWotSet → Option OrSWotSet
replay_metadata [] state = some state
replay_metadata ((key, (ts, tombstone)) ∷ entries) state =
    (if tombstone then delete key ts state else insert key ts state) >>= λ (state', has_set).
    replay_metadata entries state'

-- The state of one keyspace.
unfoldable pub load_state : List Metadata → Option OrSWotSet
unfolding replay_metadata
load_state entries = replay_metadata (sort_by_key metadata_time entries) (default num_sources)

-- The insertion of the loaded states; each is given the time that the clock has for its name.
unfoldable pub load_states :
    (Name → HlcTimestamp) → List (Name × OrSWotSet) → KeyspaceMap → KeyspaceMap
unfolding spawn_keyspace
load_states times [] group = group
load_states times ((name, state) ∷ states) group =
    load_states times states (BTreeMap.insert name (spawn_keyspace name state (times name)) group)

module _ {St E Ctx : Type 0} (storage : Storage St E Ctx) where
  -- The loop over the keyspaces; an error of the storage ends it.
  unfoldable pub collect_states :
      List Name → St → List (Name × OrSWotSet) → Option (Result E (List (Name × OrSWotSet)))
  unfolding load_state
  collect_states [] st states = some (ok states)
  collect_states (name ∷ names) st states = elim (storage.iter_metadata name st) [
    | err e ↦ some (err e)
    | ok entries ↦
        load_state entries >>= λ state. collect_states names st (BTreeMap.insert name state states)
  ]

  unfoldable pub load_states_from_storage :
      (Name → HlcTimestamp) → St → KeyspaceMap → Option (KeyspaceMap × Result E (Unit {0}))
  unfolding collect_states load_states
  load_states_from_storage times st group = elim (storage.get_keyspace_list st) [
    | err e ↦ some (group, err e)
    | ok names ↦ collect_states names st [] >>= λ collected. elim collected [
      | err e ↦ some (group, err e)
      | ok states ↦ some (load_states times states group, ok tt)
    ]
  ]
