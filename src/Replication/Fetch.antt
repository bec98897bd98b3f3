-- ===== src/Replication/Fetch.antt =====
-- The fetching of modified documents (datacake-eventual-consistency/src/replication/poller.rs).
use datacake.Base.{
  ℕ, zero, suc, ◌+◌, ◌≤◌, ◌≡◌, true, false, Option, some, List, [], ◌∷◌, map, length, take, drop,
  arith, inl, inr, Option-cases,
}
use datacake.Base.Result.{Result, ok, err, ◌>>=◌, is_ok, Result-cases}
use datacake.Timestamp.Fields.{HlcTimestamp}
use datacake.Orswot.Set.{Key}
use datacake.Keyspace.Storage.{Document, DocumentMetadata, BulkMutationError, Storage}
use datacake.Keyspace.Actor.{KeyspaceActor, MultiSet, on_multi_set}
use datacake.Keyspace.Progress.{ProgressTracker, register_progress, set_done}
use datacake.Rpc.Status.{Status}
use datacake.Replication.Sync.{read_repair_source_id}

abbrev pub max_number_of_docs_per_fetch : ℕ
max_number_of_docs_per_fetch = 50_000

-- `slice::chunks`: as many chunks as there are elements are enough fuel.
unfoldable pub chunks_of {ℓ} : {A : Type ℓ} → ℕ → ℕ → List A → List (List A)
chunks_of zero size xs = []
chunks_of (suc fuel) size [] = []
chunks_of (suc fuel) size (x ∷ xs) = take size (x ∷ xs) ∷ chunks_of fuel size (drop size (x ∷ xs))

unfoldable pub chunks {ℓ} : {A : Type ℓ} → ℕ → List A → List (List A)
unfolding chunks_of
chunks size xs = chunks_of (length xs) size xs

abbrev pub id_of : DocumentMetadata → Key
id_of doc = doc.id

unfoldable pub doc_id_chunks : List DocumentMetadata → List (List Key)
unfolding chunks
doc_id_chunks modified = map (map id_of) (chunks max_number_of_docs_per_fetch modified)

pub data ModifiedError (E : Type 0) : Type 0 where
  fetch_error : Status → ModifiedError E
  storage_error : BulkMutationError E → ModifiedError E

-- The message of a fetched chunk to the keyspace.
abbrev pub multi_set_of : {Ctx : Type 0} → Ctx → List Document → MultiSet Ctx
multi_set_of ctx docs = record { source = read_repair_source_id; docs = docs; ctx = some ctx }

-- `fetch` asks the other node for the documents of some ids, and `W` is what the calls change outside
-- of the keyspace; `now` are the times that the keyspace reads from the clock.
module _ {St E Ctx W : Type 0} (storage : Storage St E Ctx)
    (fetch : List Key → W → W × Result Status (List Document)) (ctx : Ctx) where
  unfoldable pub handle_chunks :
      (ℕ → HlcTimestamp)
      → List (List Key)
      → KeyspaceActor
      → St
      → W
      → ProgressTracker
      → Option (KeyspaceActor × St × W × ProgressTracker × Result (ModifiedError E) (Unit {0}))
  handle_chunks now [] self st w progress = some (self, st, w, set_done progress, ok tt)
  handle_chunks now (doc_ids ∷ chunks) self st w progress =
      let (w', answer) = fetch doc_ids w in
      elim answer [
        | err e ↦ some (self, st, w', progress, err (fetch_error e))
        | ok docs ↦
            on_multi_set storage (now (length chunks)) (multi_set_of ctx docs) self st
            >>= λ (self', st', res). elim res [
              | err e ↦ some (self', st', w', progress, err (storage_error e))
              | ok u ↦ handle_chunks now chunks self' st' w' (register_progress progress)
            ]
      ]

  unfoldable pub handle_modified :
      (ℕ → HlcTimestamp)
      → List DocumentMetadata
      → KeyspaceActor
      → St
      → W
      → ProgressTracker
      → Option (KeyspaceActor × St × W × ProgressTracker × Result (ModifiedError E) (Unit {0}))
  unfolding doc_id_chunks handle_chunks
  handle_modified now modified self st w progress =
      handle_chunks now (doc_id_chunks modified) self st w progress

  chunks_progress :
      (now : ℕ → HlcTimestamp) (chunks : List (List Key)) (self : KeyspaceActor) (st : St) (w : W)
      (progress : ProgressTracker) {self' : KeyspaceActor} {st' : St} {w' : W}
      {progress' : ProgressTracker} {res : Result (ModifiedError E) (Unit {0})}
      → handle_chunks now chunks self st w progress ≡ some (self', st', w', progress', res)
      → (progress'.progress_counter ≤ progress.progress_counter + length chunks)
        × (res ≡ ok tt
            → (progress'.done ≡ true)
              × (progress'.progress_counter ≡ progress.progress_counter + length chunks))
        × (is_ok res ≡ false → progress'.done ≡ progress.done)
  unfolding handle_chunks set_done register_progress
  chunks_progress now [] self st w progress h = ground arith
  chunks_progress now (doc_ids ∷ chunks) self st w progress {self'} {st'} {w'} {progress'} {res} h =
      let asked = fetch doc_ids w in
      elim (Result-cases asked.1) [
        | inr (e, failed) ↦ ground arith
        | inl (docs, fetched) ↦
            elim (Option-cases
              (on_multi_set storage (now (length chunks)) (multi_set_of ctx docs) self st)) [
                | inl panic ↦ absurd (ground arith)
                | inr ((self₁, st₁, r), stored) ↦ elim (Result-cases r) [
                  | inr (e, refused) ↦ ground arith
                  | inl (u, written) ↦
                      let next = register_progress progress in
                      let rest : handle_chunks now chunks self₁ st₁ asked.0 next
                          ≡ some (self', st', w', progress', res) =
                        ground arith in
                      let counted = chunks_progress now chunks self₁ st₁ asked.0 next rest in
                      ground (arith, counted)
                ]
              ]
      ]

  -- The number of chunks bounds the progress that is counted; a run that succeeds has counted every
  -- chunk and marked the task as done, and one that fails, in fetching or in storing, leaves it as it
  -- was, so that the wait for it expires.
  pub handle_modified-progress :
      (now : ℕ → HlcTimestamp) (modified : List DocumentMetadata) (self : KeyspaceActor) (st : St)
      (w : W) (progress : ProgressTracker) {self' : KeyspaceActor} {st' : St} {w' : W}
      {progress' : ProgressTracker} {res : Result (ModifiedError E) (Unit {0})}
      → handle_modified now modified self st w progress ≡ some (self', st', w', progress', res)
      → let total = progress.progress_counter + length (doc_id_chunks modified) in
        (progress'.progress_counter ≤ total)
        × (res ≡ ok tt → (progress'.done ≡ true) × (progress'.progress_counter ≡ total))
        × (is_ok res ≡ false → progress'.done ≡ progress.done)
  unfolding handle_modified
  handle_modified-progress now modified self st w progress h =
      chunks_progress now (doc_id_chunks modified) self st w progress h
