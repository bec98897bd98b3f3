-- ===== src/Keyspace/MemStore.antt =====
-- The storage in memory (datacake-eventual-consistency/src/test_utils.rs): documents and metadata
-- in two hash maps of hash maps. Its calls never fail.
use datacake.Base.{Bool, true, false, Option, none, some, List, [], ◌∷◌, if◌then◌else◌, length, map}
use datacake.Base.Result.{ok}
use datacake.Base.Ord.{nat_ord}
use datacake.Base.Assoc.{get, remove}
use datacake.Base.HashMap
use datacake.Timestamp.Fields.{HlcTimestamp}
use datacake.Orswot.Set.{Key}
use datacake.Orswot.Slot.{Slot, absent, alive, deleted}
use datacake.Keyspace.Storage.{Name, DocumentMetadata, Document, Storage}

abbrev pub Documents : Type 0
Documents = List (Key × Document)

abbrev pub Metadata : Type 0
Metadata = List (Key × (HlcTimestamp × Bool))

pub record MemStore : Type 0 where
  pub documents : List (Name × Documents)
  pub metadata : List (Name × Metadata)

unfoldable pub insert_docs : List Document → Documents → Documents
insert_docs [] entries = entries
insert_docs (doc ∷ docs) entries = insert_docs docs (HashMap.insert doc.metadata.id doc entries)

unfoldable pub insert_metadata : List Document → Metadata → Metadata
insert_metadata [] entries = entries
insert_metadata (doc ∷ docs) entries =
    insert_metadata docs (HashMap.insert doc.metadata.id (doc.metadata.last_updated, false) entries)

-- `entry(keyspace).and_modify(change).or_insert_with(|| default)`.
unfoldable pub upsert : {V : Type 0} → Name → (V → V) → V → List (Name × V) → List (Name × V)
upsert keyspace change default maps = elim (get keyspace maps) [
  | some entries ↦ HashMap.insert keyspace (change entries) maps
  | none ↦ HashMap.insert keyspace default maps
]

-- `entry(keyspace).and_modify(change)`, and `get_mut`.
unfoldable pub modify : {V : Type 0} → Name → (V → V) → List (Name × V) → List (Name × V)
modify keyspace change maps = elim (get keyspace maps) [
  | some entries ↦ HashMap.insert keyspace (change entries) maps
  | none ↦ maps
]

unfoldable pub multi_put : Name → List Document → MemStore → MemStore
unfolding insert_docs insert_metadata upsert
multi_put keyspace docs self = record {
  documents = upsert keyspace (insert_docs docs) (insert_docs docs []) self.documents;
  metadata = upsert keyspace (insert_metadata docs) (insert_metadata docs []) self.metadata;
}

unfoldable pub put : Name → Document → MemStore → MemStore
unfolding multi_put
put keyspace document self = multi_put keyspace (document ∷ []) self

unfoldable pub remove_docs : List DocumentMetadata → Documents → Documents
remove_docs [] entries = entries
remove_docs (doc ∷ docs) entries = remove_docs docs (remove doc.id entries)

unfoldable pub mark_metadata : List DocumentMetadata → Metadata → Metadata
mark_metadata [] entries = entries
mark_metadata (doc ∷ docs) entries =
    mark_metadata docs (HashMap.insert doc.id (doc.last_updated, true) entries)

unfoldable pub mark_many_as_tombstone : Name → List DocumentMetadata → MemStore → MemStore
unfolding remove_docs mark_metadata modify
mark_many_as_tombstone keyspace docs self = record {
  documents = modify keyspace (remove_docs docs) self.documents;
  metadata = modify keyspace (mark_metadata docs) self.metadata;
}

unfoldable pub mark_as_tombstone : Name → Key → HlcTimestamp → MemStore → MemStore
unfolding mark_many_as_tombstone
mark_as_tombstone keyspace doc_id timestamp self =
    mark_many_as_tombstone keyspace (record { id = doc_id; last_updated = timestamp } ∷ []) self

unfoldable pub remove_keys : List Key → Metadata → Metadata
remove_keys [] entries = entries
remove_keys (key ∷ keys) entries = remove_keys keys (remove key entries)

unfoldable pub remove_tombstones : Name → List Key → MemStore → MemStore
unfolding remove_keys modify
remove_tombstones keyspace keys self = record self {
  metadata = modify keyspace (remove_keys keys) self.metadata;
}

abbrev pub name_of {ℓ} : {V : Type ℓ} → Name × V → Name
name_of (name, v) = name

unfoldable pub get_keyspace_list : MemStore → List Name
get_keyspace_list self = map name_of self.metadata

unfoldable pub iter_metadata : Name → MemStore → Metadata
iter_metadata keyspace self = elim (get keyspace self.metadata) [ none ↦ [] | some ks ↦ ks ]

unfoldable pub get_doc : Name → Key → MemStore → Option Document
get_doc keyspace doc_id self = elim (get keyspace self.documents) [
  | none ↦ none
  | some ks ↦ get doc_id ks
]

unfoldable pub multi_get : Name → List Key → MemStore → List Document
unfolding get_doc
multi_get keyspace [] self = []
multi_get keyspace (doc_id ∷ doc_ids) self =
    let docs = multi_get keyspace doc_ids self in
    elim (get_doc keyspace doc_id self) [ none ↦ docs | some doc ↦ doc ∷ docs ]

-- `impl Storage for MemStore`. A context is ignored, as the trait's default methods do.
unfoldable pub mem_store : {E Ctx : Type 0} → Storage MemStore E Ctx
unfolding put mark_as_tombstone remove_tombstones get_keyspace_list iter_metadata
mem_store = record {
  put_with_ctx = λ name doc ctx st. (put name doc st, ok tt);
  multi_put_with_ctx = λ name docs ctx st. (multi_put name docs st, length docs, ok tt);
  mark_as_tombstone = λ name id ts st. (mark_as_tombstone name id ts st, ok tt);
  mark_many_as_tombstone =
      λ name docs st. (mark_many_as_tombstone name docs st, length docs, ok tt);
  remove_tombstones = λ name keys st. (remove_tombstones name keys st, ok tt);
  get_keyspace_list = λ st. ok (get_keyspace_list st);
  iter_metadata = λ name st. ok (iter_metadata name st);
}

-- What the metadata says of a key.
unfoldable pub view : Name → MemStore → Key → Slot
view name st k = elim (get name st.metadata) [
  | none ↦ absent
  | some ks ↦ elim (get k ks) [
    | none ↦ absent
    | some (ts, tombstone) ↦ if tombstone then deleted ts else alive ts
  ]
]
