-- ===== src/Keyspace/MemStoreInvariant.antt =====
-- The two maps of the storage in memory stay in step
-- (datacake-eventual-consistency/src/test_utils.rs).
use datacake.Base.{
  ◌≡◌, refl, Bool, true, false, Option, none, some, List, [], ◌∷◌, ◌==◌, ==_iff, if◌then◌else◌,
  arith, inl, inr, Option-cases,
}
use datacake.Base.Ord.{nat_ord}
use datacake.Base.Assoc.{get, remove, get-remove}
use datacake.Base.HashMap
use datacake.Timestamp.Fields.{HlcTimestamp}
use datacake.Orswot.Set.{Key}
use datacake.Keyspace.Storage.{Name, DocumentMetadata, Document}
use datacake.Keyspace.Contract.{entries_of, entries_of-upsert}
use datacake.Keyspace.MemStore.{
  MemStore, Documents, Metadata, modify, insert_docs, insert_metadata, remove_docs, mark_metadata,
  multi_put, mark_many_as_tombstone,
}

-- A document against the entry of the metadata: the same key and time where there is a document,
-- and no live entry where there is none.
abbrev pub InStep : Option Document → Option (HlcTimestamp × Bool) → Type 0
InStep none none = Unit
InStep none (some (ts, tombstone)) = tombstone ≡ true
InStep (some doc) none = ⊥
InStep (some doc) (some (ts, tombstone)) = (tombstone ≡ false) × (doc.metadata.last_updated ≡ ts)

abbrev pub Matches : Documents → Metadata → Type 0
Matches docs meta = (k : Key) → InStep (get k docs) (get k meta)

-- In every keyspace the documents are those that the metadata says are alive.
abbrev pub IsConsistent : MemStore → Type 0
IsConsistent st =
    (name : Name) → Matches (entries_of name st.documents) (entries_of name st.metadata)

insert-Matches :
    (docs : List Document) (entries : Documents) (meta : Metadata)
    → Matches entries meta
    → Matches (insert_docs docs entries) (insert_metadata docs meta)
unfolding insert_docs insert_metadata
insert-Matches [] entries meta h = h
insert-Matches (doc ∷ docs) entries meta h =
    let id = doc.metadata.id in
    let ts = doc.metadata.last_updated in
    insert-Matches docs (HashMap.insert id doc entries) (HashMap.insert id (ts, false) meta) (λ k.
      ground
        (arith, h k, HashMap.get-insert k id doc entries, HashMap.get-insert k id (ts, false) meta))

mark-Matches :
    (docs : List DocumentMetadata) (entries : Documents) (meta : Metadata)
    → Matches entries meta
    → Matches (remove_docs docs entries) (mark_metadata docs meta)
unfolding remove_docs mark_metadata
mark-Matches [] entries meta h = h
mark-Matches (doc ∷ docs) entries meta h =
    mark-Matches docs (remove doc.id entries) (HashMap.insert doc.id (doc.last_updated, true) meta)
      (λ k. ground (
        arith,
        h k,
        get-remove k doc.id entries,
        HashMap.get-insert k doc.id (doc.last_updated, true) meta,
      ))

-- Putting documents keeps the documents and the metadata of every keyspace in step, with any
-- repetitions among them.
pub multi_put-IsConsistent :
    (keyspace : Name) (docs : List Document) (st : MemStore)
    → IsConsistent st
    → IsConsistent (multi_put keyspace docs st)
unfolding multi_put
multi_put-IsConsistent keyspace docs st h name k =
    let inserted =
      insert-Matches docs (entries_of name st.documents) (entries_of name st.metadata) (h name) k in
    ground (
      arith,
      h name k,
      inserted,
      entries_of-upsert keyspace name (insert_docs docs) st.documents,
      entries_of-upsert keyspace name (insert_metadata docs) st.metadata,
    )

entries_of-modify :
    {A : Type 0} (name other : Name) (change : List A → List A) (maps : List (Name × List A))
    → entries_of other (modify name change maps) ≡ (
        if name == other
        then elim (get name maps) [ none ↦ [] | some entries ↦ change entries ]
        else entries_of other maps)
unfolding modify
entries_of-modify name other change maps = elim (Option-cases (get name maps)) [
  | inl e ↦ ground (arith, ==_iff name other)
  | inr (entries, e) ↦
      ground (arith, ==_iff name other, HashMap.get-insert other name (change entries) maps)
]

remove_docs_nil : (docs : List DocumentMetadata) → remove_docs docs [] ≡ []
unfolding remove_docs remove
remove_docs_nil [] = refl
remove_docs_nil (doc ∷ docs) = remove_docs_nil docs

remove_docs-none :
    (docs : List DocumentMetadata) (entries : Documents) (k : Key)
    → get k entries ≡ none
    → get k (remove_docs docs entries) ≡ none
unfolding remove_docs
remove_docs-none [] entries k h = h
remove_docs-none (doc ∷ docs) entries k h =
    remove_docs-none docs (remove doc.id entries) k (ground (arith, get-remove k doc.id entries))

-- Marking documents as tombstones keeps the documents and the metadata of every keyspace in step,
-- also where the keyspace does not exist yet.
pub mark_many-IsConsistent :
    (keyspace : Name) (docs : List DocumentMetadata) (st : MemStore)
    → IsConsistent st
    → IsConsistent (mark_many_as_tombstone keyspace docs st)
unfolding mark_many_as_tombstone get
mark_many-IsConsistent keyspace docs st h name k =
    let docs_of = entries_of name st.documents in
    let meta_of = entries_of name st.metadata in
    let marked = mark-Matches docs docs_of meta_of (h name) k in
    let left = entries_of-modify keyspace name (remove_docs docs) st.documents in
    let right = entries_of-modify keyspace name (mark_metadata docs) st.metadata in
    ground (
      arith,
      h name k,
      marked,
      left,
      right,
      ==_iff keyspace name,
      remove_docs_nil docs,
      remove_docs-none docs docs_of k,
    )
