-- ===== src/Tests/Bulks.antt =====
-- Bulk writes of a keyspace over the storage in memory on concrete inputs.
use datacake.Base.{
  List, false, ◌-◌, ◌+◌, ℕ, ◌≡◌, refl, inl, ◌&&◌, none, some, [], ◌∷◌, map, if◌then◌else◌, arith,
}
use datacake.Base.Result.{ok, Result}
use datacake.Base.Text.{Text}
use datacake.Base.Ord.{nat_ord}
use datacake.Base.Assoc.{get, Unique}
use datacake.Base.Sort.{All}
use datacake.Timestamp.Fields.{HlcTimestamp, node}
use datacake.Orswot.Versions.{default_versions}
use datacake.Orswot.Set.{Key, default, will_apply}
use datacake.Orswot.Slot.{alive, deleted, slot, IsValid}
use datacake.Orswot.Observed.{seen_by}
use datacake.Orswot.Convergence.{default-IsValid}
use datacake.Keyspace.Storage.{DocumentMetadata, Document, BulkMutationError, Storage}
use datacake.Keyspace.Actor.{
  KeyspaceActor, MultiSet, MultiDel, entry_of, on_multi_set, on_multi_del,
}
use datacake.Keyspace.Agreement.{Agree}
use datacake.Keyspace.Bulk.{wrote, AcceptsEntry}
use datacake.Keyspace.BulkAgreement
use datacake.Keyspace.BulkAgreement.{IsBulkDurable, entries}
use datacake.Keyspace.MemStore.{MemStore, mem_store, view}
use datacake.Keyspace.BulkContract
use datacake.Keyspace.BulkContract.{mem_store-IsBulkDurable}
use datacake.Rpc.Status.{Status}
use datacake.Keyspace.Progress.{ProgressTracker}
use datacake.Replication.Fetching

program : Unit {0}
unfolding default default_versions seen_by get view mem_store node
program = tt

abbrev storage : Storage MemStore Text ℕ
storage = mem_store

abbrev empty : MemStore
empty = record { documents = []; metadata = [] }

abbrev keyspace : KeyspaceActor
keyspace = record { name = 3; state = default 2; change_timestamp = 0 }

abbrev document : Key → HlcTimestamp → Document
document id ts = record { metadata = record { id = id; last_updated = ts }; buffer = 1 ∷ [] }

abbrev sets : MultiSet ℕ
sets = record { source = 0; docs = document 5 9 ∷ document 6 10 ∷ []; ctx = none }

abbrev dels : MultiDel
dels = record {
  source = 0;
  docs = record { id = 5; last_updated = 9 } ∷ record { id = 6; last_updated = 10 } ∷ [];
}

sets-Unique : Unique (entries sets.docs)
unfolding program
sets-Unique = ground arith

dels-Unique : Unique (map entry_of dels.docs)
unfolding program
dels-Unique = ground arith

sets-Accepts : All (AcceptsEntry 0 (default 2)) (entries sets.docs)
unfolding program
sets-Accepts = ((cc, λ last h. cc), ((cc, λ last h. cc), tt))

empty-Agree : (k : Key) → Agree (view 3 empty k) (slot k (default 2))
unfolding program
empty-Agree k = inl refl

on_multi_set-Agrees_example :
    (self' : KeyspaceActor) × (st' : MemStore) × (res : Result (BulkMutationError Text) (Unit {0}))
    × (on_multi_set storage 11 sets keyspace empty ≡ some (self', st', res))
    × IsValid self'.state
    × ((k : Key) → Agree (view self'.name st' k) (slot k self'.state))
    × ((k : Key)
        → slot k self'.state ≡ elim (get k (entries sets.docs)) [
          | none ↦ slot k keyspace.state
          | some ts ↦
              if wrote res k && will_apply k ts keyspace.state
              then alive ts
              else slot k keyspace.state
        ])
on_multi_set-Agrees_example =
    BulkAgreement.on_multi_set-Agrees storage view (mem_store-IsBulkDurable Text ℕ) 11 sets keyspace
      empty (default-IsValid 2) sets-Unique sets-Accepts empty-Agree

on_multi_del-Agrees_example :
    (self' : KeyspaceActor) × (st' : MemStore) × (res : Result (BulkMutationError Text) (Unit {0}))
    × (on_multi_del storage 11 dels keyspace empty ≡ some (self', st', res))
    × IsValid self'.state
    × ((k : Key) → Agree (view self'.name st' k) (slot k self'.state))
    × ((k : Key)
        → slot k self'.state ≡ elim (get k (map entry_of dels.docs)) [
          | none ↦ slot k keyspace.state
          | some ts ↦
              if wrote res k && will_apply k ts keyspace.state
              then deleted ts
              else slot k keyspace.state
        ])
on_multi_del-Agrees_example =
    BulkAgreement.on_multi_del-Agrees storage view (mem_store-IsBulkDurable Text ℕ) 11 dels keyspace
      empty (default-IsValid 2) dels-Unique sets-Accepts empty-Agree

mem_store-IsBulkDurable_example : IsBulkDurable storage view
mem_store-IsBulkDurable_example = BulkContract.mem_store-IsBulkDurable Text ℕ

abbrev modified : List DocumentMetadata
modified = record { id = 5; last_updated = 9 } ∷ record { id = 6; last_updated = 10 } ∷ []

-- The other node counts its calls, and has a document of each id.
abbrev documents_of : List Key → List Document
documents_of [] = []
documents_of (id ∷ ids) = document id 9 ∷ documents_of ids

abbrev fetch : List Key → ℕ → ℕ × Result Status (List Document)
fetch ids w = (w + 1, ok (documents_of ids))

abbrev times : ℕ → HlcTimestamp
times left = 20 - left

abbrev progress : ProgressTracker
progress = record { progress_counter = 0; done = false }
