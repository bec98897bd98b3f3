-- ===== src/Replication/Sync.antt =====
-- The synchronisation of one keyspace with another node: the removals, and the loop that waits for
-- the documents (datacake-eventual-consistency/src/replication/poller.rs).
use datacake.Base.{ℕ, zero, suc, Option, none, some, List, [], ◌∷◌, if◌then◌else◌}
use datacake.Base.Result.{Result, ok, err, ◌>>=◌}
use datacake.Timestamp.Fields.{HlcTimestamp, Duration, from_secs, from_millis}
use datacake.Keyspace.Storage.{DocumentMetadata, BulkMutationError, Storage}
use datacake.Keyspace.Actor.{KeyspaceActor, on_del, on_multi_del}
use datacake.Keyspace.Progress.{ProgressTracker, ProgressWatcher, watch, has_expired}

abbrev pub keyspace_sync_timeout : Duration
keyspace_sync_timeout = from_secs 5

-- The interval of the loop.
abbrev pub check_interval : Duration
check_interval = from_millis 250

abbrev pub read_repair_source_id : ℕ
read_repair_source_id = 1

pub data SyncError (E : Type 0) : Type 0 where
  single : E → SyncError E
  bulk : BulkMutationError E → SyncError E
  timed_out : SyncError E

-- How the loop ends.
pub data LoopEnd : Type 0 where
  done expired : LoopEnd

-- The loop. At check `i` the tracker is `tracker i` and the time is `now i`; without fuel it
-- answers `none`.
unfoldable pub sync_loop :
    (ℕ → ProgressTracker) → (ℕ → Duration) → ℕ → ℕ → ProgressWatcher → Option LoopEnd
sync_loop tracker now zero i watcher = none
sync_loop tracker now (suc fuel) i watcher =
    let (watcher', has_expired) = has_expired (now i) (tracker i) watcher in
    let rest = sync_loop tracker now fuel (suc i) watcher' in
    if has_expired then some expired else if (tracker i).done then some done else rest

-- What the task returns, from how the loop ended and what the removals returned.
unfoldable pub sync_result :
    {E : Type 0} → Result (SyncError E) (Unit {0}) → LoopEnd → Result (SyncError E) (Unit {0})
sync_result removal done = removal
sync_result (ok u) expired = err timed_out
sync_result (err e) expired = err e

-- `begin_keyspace_sync` once its tasks are started at the time `start`.
unfoldable pub await_sync :
    {E : Type 0}
    → ℕ
    → (ℕ → ProgressTracker)
    → (ℕ → Duration)
    → Duration
    → Result (SyncError E) (Unit {0})
    → Option (Result (SyncError E) (Unit {0}))
unfolding sync_loop sync_result
await_sync fuel tracker now start removal = do
  end ← sync_loop tracker now fuel 0 (watch start keyspace_sync_timeout)
  some (sync_result removal end)

module _ {St E Ctx : Type 0} (storage : Storage St E Ctx) where
  unfoldable pub handle_removals :
      HlcTimestamp
      → List DocumentMetadata
      → KeyspaceActor
      → St
      → Option (KeyspaceActor × St × Result (SyncError E) (Unit {0}))
  handle_removals now [] self st = some (self, st, ok tt)
  handle_removals now (doc ∷ []) self st =
      on_del storage now (record { source = read_repair_source_id; doc = doc }) self st
      >>= λ (self', st', res). some (self', st', elim res [ ok u ↦ ok tt | err e ↦ err (single e) ])
  handle_removals now (doc ∷ doc' ∷ docs) self st =
      on_multi_del storage now (record { source = read_repair_source_id; docs = doc ∷ doc' ∷ docs })
        self st
      >>= λ (self', st', res). some (self', st', elim res [ ok u ↦ ok tt | err e ↦ err (bulk e) ])
