-- ===== src/Tests/Polls.antt =====
-- The poller on concrete inputs.
use datacake.Base.{
  ℕ, ◌+◌, ◌*◌, ◌≤◌, ◌≡◌, ◌≢◌, ◌↔◌, true, none, some, List, [], ◌∷◌, arith, ltb, if◌then◌else◌, ◌==◌,
}
use datacake.Base.Result.{Result, ok, err}
use datacake.Base.Ord.{nat_ord}
use datacake.Base.Assoc.{get}
use datacake.Base.BTreeMap.{IsSorted}
use datacake.Timestamp.Fields.{Duration}
use datacake.Orswot.Versions.{contains}
use datacake.Keyspace.Storage.{Name}
use datacake.Keyspace.Timestamps.{KeyspaceTimestamps}
use datacake.Keyspace.Progress.{ProgressTracker}
use datacake.Replication.Tracker.{
  KeyspaceTracker, timestamps_of, get_diff, KeyspaceDiff, Calls, sync_changes,
}
use datacake.Replication.Polling
use datacake.Replication.Polling.{synced}
use datacake.Replication.Sync.{check_interval, SyncError, await_sync}
use datacake.Replication.SyncEnd

-- Five counts of progress, and then the task is done; a check every 300 ms.
abbrev progress : ℕ → ProgressTracker
progress i = record { progress_counter = if ltb i 5 then i else 5; done = ltb 5 i }

abbrev time : ℕ → Duration
time i = 300_000_000 + i * 300_000_000

progress_bounded : (i : ℕ) → (progress i).progress_counter ≤ 5
progress_bounded i = ground arith

time_ticks : (i : ℕ) → 100_000_000 + i * check_interval ≤ time i
time_ticks i = omega arith

abbrev removal : Result (SyncError ℕ) (Unit {0})
removal = ok tt

await_sync-ends_example :
    (fuel : ℕ) × (res : Result (SyncError ℕ) (Unit {0})) × ((more : ℕ)
      → fuel ≤ more
      → await_sync more progress time 100_000_000 removal ≡ some res)
    × (res ≡ ok tt → (removal ≡ ok tt) × ((j : ℕ) × ((progress j).done ≡ true)))
await_sync-ends_example =
    SyncEnd.await_sync-ends progress time 5 100_000_000 removal progress_bounded time_ticks

-- The synchronisation of keyspace 4 fails.
abbrev calls : Calls ℕ
calls = record {
  poll_keyspace = λ addr w. (w, ok []);
  keyspace_diff = λ addr keyspace w.
      (w, ok record { keyspace = keyspace; modified = []; removed = []; last_updated = 9 });
  begin_sync = λ node_id addr change w. (w + 1, if change.keyspace == 4 then err [] else ok tt);
}

abbrev change_of : Name → KeyspaceDiff
change_of keyspace = record { keyspace = keyspace; modified = []; removed = []; last_updated = 9 }

abbrev changes : List KeyspaceDiff
changes = change_of 3 ∷ change_of 4 ∷ []

abbrev tracker : KeyspaceTracker
tracker = (7, (3, 5) ∷ (4, 5) ∷ []) ∷ []

abbrev answer : KeyspaceTimestamps
answer = (3, 9) ∷ (4, 9) ∷ []

tracker-IsSorted : IsSorted (timestamps_of 7 tracker)
unfolding get
tracker-IsSorted = ground arith

answer-IsSorted : IsSorted answer
answer-IsSorted = ground arith

get_diff-sync_changes_example :
    let tracker' = (sync_changes calls 7 70 changes tracker 0).0 in
    (contains 4 (get_diff 7 answer tracker').1 ≡ true) ↔ (
      elim (synced calls 7 70 changes 0 4) [
        | none ↦ get 4 (timestamps_of 7 tracker)
        | some ts ↦ some ts
      ]
      ≢ get 4 answer)
get_diff-sync_changes_example =
    Polling.get_diff-sync_changes calls 7 70 changes tracker 0 answer 4 tracker-IsSorted
      answer-IsSorted
