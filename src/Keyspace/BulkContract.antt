-- ===== src/Keyspace/BulkContract.antt =====
-- The bulk writes of the storage in memory against what a keyspace relies on
-- (datacake-eventual-consistency/src/test_utils.rs and storage.rs).
use datacake.Base.{
  ◌≡◌, refl, ap, ◌⊎◌, true, false, none, some, List, [], ◌∷◌, map, ◌==◌, ==_iff, arith, length,
  take, inl, inr, Option-cases,
}
use datacake.Base.Ord.{nat_ord}
use datacake.Base.Assoc.{get, at, Unique}
use datacake.Base.HashMap
use datacake.Orswot.Set.{Key}
use datacake.Orswot.Slot.{absent, alive, deleted}
use datacake.Keyspace.Storage.{Name, DocumentMetadata, Document}
use datacake.Keyspace.Actor.{entry_of}
use datacake.Keyspace.BulkAgreement.{IsBulkDurable, entries}
use datacake.Keyspace.Contract.{entries_of, entries_of-upsert, view_lem}
use datacake.Keyspace.MemStore.{
  MemStore, Metadata, modify, insert_metadata, mark_metadata, put, multi_put,
  mark_many_as_tombstone, mem_store, view,
}

get-insert_metadata :
    (k : Key) (docs : List Document) (meta : Metadata)
    → Unique (entries docs)
    → get k (insert_metadata docs meta)
      ≡ elim (get k (entries docs)) [ none ↦ get k meta | some ts ↦ some (ts, false) ]
unfolding insert_metadata get
get-insert_metadata k [] meta u = refl
get-insert_metadata k (doc ∷ docs) meta u =
    let id = doc.metadata.id in
    let ts = doc.metadata.last_updated in
    ground (
      arith,
      ==_iff id k,
      u.0,
      get-insert_metadata k docs (HashMap.insert id (ts, false) meta) u.1,
      HashMap.get-insert k id (ts, false) meta,
    )

get-mark_metadata :
    (k : Key) (docs : List DocumentMetadata) (meta : Metadata)
    → Unique (map entry_of docs)
    → get k (mark_metadata docs meta)
      ≡ elim (get k (map entry_of docs)) [ none ↦ get k meta | some ts ↦ some (ts, true) ]
unfolding mark_metadata get
get-mark_metadata k [] meta u = refl
get-mark_metadata k (doc ∷ docs) meta u = ground (
  arith,
  ==_iff doc.id k,
  u.0,
  get-mark_metadata k docs (HashMap.insert doc.id (doc.last_updated, true) meta) u.1,
  HashMap.get-insert k doc.id (doc.last_updated, true) meta,
)

take_docs : (docs : List Document) → take (length docs) (entries docs) ≡ entries docs
take_docs [] = refl
take_docs (doc ∷ docs) = ap (λ l. entry_of doc.metadata ∷ l) (take_docs docs)

take_metas :
    (docs : List DocumentMetadata) → take (length docs) (map entry_of docs) ≡ map entry_of docs
take_metas [] = refl
take_metas (doc ∷ docs) = ap (λ l. entry_of doc ∷ l) (take_metas docs)

view-multi_put :
    (name : Name) (docs : List Document) (st : MemStore) (k : Key)
    → Unique (entries docs)
    → view name (multi_put name docs st) k
      ≡ elim (get k (entries docs)) [ none ↦ view name st k | some ts ↦ alive ts ]
unfolding multi_put
view-multi_put name docs st k u = ground (
  arith,
  view_lem name st k,
  view_lem name (multi_put name docs st) k,
  entries_of-upsert name name (insert_metadata docs) st.metadata,
  get-insert_metadata k docs (entries_of name st.metadata) u,
)

view-mark_many :
    (name : Name) (docs : List DocumentMetadata) (st : MemStore) (k : Key)
    → Unique (map entry_of docs)
    → let st' = mark_many_as_tombstone name docs st in
      (view name st' k
        ≡ elim (get k (map entry_of docs)) [ none ↦ view name st k | some ts ↦ deleted ts ])
      ⊎ ((view name st k ≡ absent) × (view name st' k ≡ absent))
unfolding view mark_many_as_tombstone modify get
view-mark_many name docs st k u = elim (Option-cases (get name st.metadata)) [
  | inl e ↦ inr (ground arith, ground arith)
  | inr (meta, e) ↦ inl (
      ground (
        arith,
        HashMap.get-insert name name (mark_metadata docs meta) st.metadata,
        get-mark_metadata k docs meta u,
      ))
]

-- The bulk writes of the storage in memory are durable in the sense of the contract.
pub mem_store-IsBulkDurable : (E Ctx : Type 0) → IsBulkDurable (mem_store {E = E} {Ctx = Ctx}) view
unfolding mem_store
mem_store-IsBulkDurable E Ctx = record {
  multi_put = λ name docs ctx st u k.
      (view-multi_put name docs st k u, λ written. ap (at k) (take_docs docs));
  mark_many =
      λ name docs st u k. (view-mark_many name docs st k u, λ written. ap (at k) (take_metas docs));
}

-- A put to one keyspace of the storage in memory leaves the others alone.
pub view-put_other :
    (name other : Name) (doc : Document) (st : MemStore) (k : Key)
    → (name == other) ≡ false
    → view other (put name doc st) k ≡ view other st k
unfolding put multi_put
view-put_other name other doc st k ne = ground (
  arith,
  view_lem other st k,
  view_lem other (put name doc st) k,
  entries_of-upsert name other (insert_metadata (doc ∷ [])) st.metadata,
)
