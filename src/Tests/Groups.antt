-- ===== src/Tests/Groups.antt =====
-- Keyspace groups and the distributor on concrete inputs.
use datacake.Base.{◌+◌, ◌*◌, ◌^◌, ◌≡◌, refl, true, false, some, List, [], ◌∷◌, ◌++◌, arith}
use datacake.Base.Ord.{nat_ord}
use datacake.Base.Assoc.{get, Unique}
use datacake.Base.BTreeMap
use datacake.Base.HashMap
use datacake.Orswot.Versions.{contains}
use datacake.Orswot.Set.{Key, OrSWotSet}
use datacake.Orswot.Slot.{slot, IsValid}
use datacake.Keyspace.Storage.{Document}
use datacake.Keyspace.Timestamps.{KeyspaceTimestamps, timestamps_diff}
use datacake.Keyspace.Group.{Metadata, load_state}
use datacake.Keyspace.Loading
use datacake.Keyspace.Loading.{slot_of_metadata}
use datacake.Keyspace.Progress.{ProgressTracker, ProgressWatcher}
use datacake.Replication.Distributor.{
  Op, membership_change, mutation, put, multi_put, del, Tick, payload, drain, run_tick,
}
use datacake.Replication.Batches
use datacake.Replication.Batches.{puts, removals}

program : Unit {0}
unfolding get contains BTreeMap.insert HashMap.insert timestamps_diff drain run_tick
program = tt

-- Keyspace 1 agrees, 2 has moved on, 3 and 4 are known to one side.
abbrev ours : KeyspaceTimestamps
ours = (1, 10) ∷ (2, 20) ∷ (3, 30) ∷ []

abbrev theirs : KeyspaceTimestamps
theirs = (1, 10) ∷ (2, 21) ∷ (4, 40) ∷ []

diff_test : timestamps_diff ours theirs ≡ 2 ∷ 3 ∷ 4 ∷ []
unfolding program
diff_test = refl

ours-Unique : Unique ours
unfolding program
ours-Unique = ground arith

theirs-Unique : Unique theirs
unfolding program
theirs-Unique = ground arith

-- The metadata of a storage, not in the order of time.
abbrev metadata : List Metadata
metadata = (5, (30 * 2 ^ 32 + 1, false)) ∷ (6, (20 * 2 ^ 32 + 1, true)) ∷ []

metadata-Unique : Unique metadata
unfolding program
metadata-Unique = ground arith

load_state_lem_example :
    (s : OrSWotSet) × (load_state metadata ≡ some s)
    × IsValid s
    × ((k : Key) → slot k s ≡ slot_of_metadata (get k metadata))
load_state_lem_example = Loading.load_state_lem metadata metadata-Unique

abbrev document : Key → Document
document k = record { metadata = record { id = k; last_updated = 9 }; buffer = [] }

-- Node 7 joins while two keyspaces are written.
abbrev tasks : List Op
tasks =
    mutation (put 2 (document 5))
    ∷ membership_change (record {
      joined = record { node_id = 7; public_addr = 70; data_center = 0 } ∷ [];
      left = [];
    })
    ∷ mutation (multi_put 1 (document 6 ∷ []))
    ∷ mutation (put 2 (document 8))
    ∷ mutation (del 2 (record { id = 4; last_updated = 9 }))
    ∷ []

abbrev start : Tick
start = record { live_members = []; put_payloads = []; del_payloads = [] }

drain_test : drain tasks start ≡ (record {
  live_members = (7, 70) ∷ [];
  put_payloads = (1, document 6 ∷ []) ∷ (2, document 5 ∷ document 8 ∷ []) ∷ [];
  del_payloads = (2, record { id = 4; last_updated = 9 } ∷ []) ∷ [];
})
unfolding program
drain_test = refl

drain_lem_example :
    let tick' = drain tasks start in
    (payload 2 tick'.put_payloads ≡ payload 2 start.put_payloads ++ puts 2 tasks)
    × (payload 2 tick'.del_payloads ≡ payload 2 start.del_payloads ++ removals 2 tasks)
drain_lem_example = Batches.drain_lem tasks start 2

abbrev tracker : ProgressTracker
tracker = record { progress_counter = 3; done = false }

abbrev watcher : ProgressWatcher
watcher = record { timeout = 50; last_tick = 100; last_observed_counter = 3 }
