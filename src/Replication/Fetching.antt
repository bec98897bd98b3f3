-- ===== src/Replication/Fetching.antt =====
-- What a run over the modified documents asks for and stores
-- (datacake-eventual-consistency/src/replication/poller.rs).
use mathlib.Core.List
use datacake.Base.{ℕ, ◌+◌, ◌≡◌, true, some, List, [], ◌++◌, map, length}
use datacake.Base.Result.{Result, ok}
use datacake.Timestamp.Fields.{HlcTimestamp}
use datacake.Orswot.Set.{Key}
use datacake.Keyspace.Storage.{Document, Storage}
use datacake.Keyspace.Actor.{KeyspaceActor}
use datacake.Keyspace.Progress.{ProgressTracker}
use datacake.Rpc.Status.{Status}
use datacake.Replication.Fetch.{ModifiedError, handle_chunks}
use datacake.Replication.FetchLog.{Log, ids_of, logged, store_all}

module _ {St E Ctx : Type 0} (storage : Storage St E Ctx) (ctx : Ctx) (now : ℕ → HlcTimestamp) where
  -- What a run over chunks comes to.
  pub record Fetched {W : Type 0} (fetch : List Key → W → W × Result Status (List Document))
      (chunks : List (List Key)) (self : KeyspaceActor) (st : St) (log : Log) (w : W)
      (progress : ProgressTracker) : Type 0 where
    pub self' : KeyspaceActor
    pub st' : St
    pub calls : Log
    pub w' : W
    pub progress' : ProgressTracker
    pub res : Result (ModifiedError E) (Unit {0})
    pub rest : List (List Key)
    pub runs :
        handle_chunks storage (logged fetch) ctx now chunks self st (log, w) progress
        ≡ some (self', st', (log ++ calls, w'), progress', res)
    pub asked : map ids_of calls ++ rest ≡ chunks
    pub stored : store_all storage ctx now (length chunks) calls self st ≡ some (self', st', res)
    pub succeeds :
        res ≡ ok tt
        → (rest ≡ [])
          × (progress'.done ≡ true)
          × (progress'.progress_counter ≡ progress.progress_counter + length calls)
