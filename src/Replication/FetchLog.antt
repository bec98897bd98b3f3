-- ===== src/Replication/FetchLog.antt =====
-- The calls of a run over the modified documents, and what storing their answers comes to
-- (datacake-eventual-consistency/src/replication/poller.rs).
use datacake.Base.{ℕ, suc, ◌-◌, ◌≡◌, refl, ap, Option, some, List, [], ◌∷◌, ◌++◌, length, arith}
use datacake.Base.Result.{Result, ok, err, ◌>>=◌}
use datacake.Timestamp.Fields.{HlcTimestamp}
use datacake.Orswot.Set.{Key}
use datacake.Keyspace.Storage.{BulkMutationError, Document, Storage}
use datacake.Keyspace.Actor.{KeyspaceActor, on_multi_set}
use datacake.Keyspace.Progress.{ProgressTracker, register_progress}
use datacake.Rpc.Status.{Status}
use datacake.Replication.Fetch.{
  ModifiedError, fetch_error, storage_error, multi_set_of, handle_chunks,
}

-- The calls that a run has made: the ids asked for, and the answer.
abbrev pub Log : Type 0
Log = List (List Key × Result Status (List Document))

abbrev pub ids_of : List Key × Result Status (List Document) → List Key
ids_of (ids, answer) = ids

-- `fetch` that writes down its calls.
abbrev pub logged :
    {W : Type 0}
    → (List Key → W → W × Result Status (List Document))
    → List Key
    → Log × W
    → (Log × W) × Result Status (List Document)
logged fetch ids (log, w) =
    let (w', answer) = fetch ids w in ((log ++ (ids, answer) ∷ [], w'), answer)

module _ {St E Ctx : Type 0} (storage : Storage St E Ctx) (ctx : Ctx) (now : ℕ → HlcTimestamp) where
  -- What the calls of a log come to: a bulk set for every answer with documents, in order, up to the
  -- first answer that is an error or that cannot be stored; `left` chunks are left at the start.
  abbrev pub store_all :
      ℕ
      → Log
      → KeyspaceActor
      → St
      → Option (KeyspaceActor × St × Result (ModifiedError E) (Unit {0}))
  store_all left [] self st = some (self, st, ok tt)
  store_all left ((ids, err e) ∷ log) self st = some (self, st, err (fetch_error e))
  store_all left ((ids, ok docs) ∷ log) self st =
      on_multi_set storage (now (left - 1)) (multi_set_of ctx docs) self st >>= λ (self', st', res).
      elim res [
        | err f ↦ some (self', st', err (storage_error f))
        | ok u ↦ store_all (left - 1) log self' st'
      ]

  module _ {W : Type 0} (fetch : List Key → W → W × Result Status (List Document)) (ids : List Key)
      (chunks : List (List Key)) (self : KeyspaceActor) (st : St) (w : W)
      (progress : ProgressTracker) where
    pub run_failed :
        {w₁ : W} {e : Status}
        → fetch ids w ≡ (w₁, err e)
        → handle_chunks storage fetch ctx now (ids ∷ chunks) self st w progress
          ≡ some (self, st, w₁, progress, err (fetch_error e))
    unfolding handle_chunks
    run_failed {w₁} {e} h =
        let where_to : (fetch ids w).0 ≡ w₁ =
          ap (λ (x : W × Result Status (List Document)). x.0) h in
        let answer : (fetch ids w).1 ≡ err e =
          ap (λ (x : W × Result Status (List Document)). x.1) h in
        rw (handle_chunks, answer, where_to) refl

    pub run_stored :
        {w₁ : W} {docs : List Document} {self₁ : KeyspaceActor} {st₁ : St}
        (res : Result (BulkMutationError E) (Unit {0}))
        → fetch ids w ≡ (w₁, ok docs)
        → on_multi_set storage (now (length chunks)) (multi_set_of ctx docs) self st
          ≡ some (self₁, st₁, res)
        → handle_chunks storage fetch ctx now (ids ∷ chunks) self st w progress ≡ elim res [
          | err e ↦ some (self₁, st₁, w₁, progress, err (storage_error e))
          | ok u ↦
              handle_chunks storage fetch ctx now chunks self₁ st₁ w₁ (register_progress progress)
        ]
    unfolding handle_chunks
    run_stored {w₁} {docs} {self₁} {st₁} res h e =
        let where_to : (fetch ids w).0 ≡ w₁ =
          ap (λ (x : W × Result Status (List Document)). x.0) h in
        let answer : (fetch ids w).1 ≡ ok docs =
          ap (λ (x : W × Result Status (List Document)). x.1) h in
        rw (handle_chunks, answer, e, ◌>>=◌)
          (ap
            (λ w'.
              elim res
                as (λ r. Option (
                  KeyspaceActor × St × W × ProgressTracker × Result (ModifiedError E) (Unit {0}))) [
                    | err f ↦ some (self₁, st₁, w', progress, err (storage_error f))
                    | ok u ↦
                        handle_chunks storage fetch ctx now chunks self₁ st₁ w'
                          (register_progress progress)
                  ])
            where_to)

    pub store_next :
        {self₁ : KeyspaceActor} {st₁ : St} (res : Result (BulkMutationError E) (Unit {0}))
        (docs : List Document) (log : Log)
        → on_multi_set storage (now (length chunks)) (multi_set_of ctx docs) self st
          ≡ some (self₁, st₁, res)
        → store_all (suc (length chunks)) ((ids, ok docs) ∷ log) self st ≡ elim res [
          | err f ↦ some (self₁, st₁, err (storage_error f))
          | ok u ↦ store_all (length chunks) log self₁ st₁
        ]
    store_next (err f) docs log e =
        let one : suc (length chunks) - 1 ≡ length chunks = omega arith in rw (one, e, ◌>>=◌) refl
    store_next (ok u) docs log e =
        let one : suc (length chunks) - 1 ≡ length chunks = omega arith in
        rw (one, e, ◌>>=◌, one) refl
