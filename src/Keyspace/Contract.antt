-- ===== src/Keyspace/Contract.antt =====
-- The storage in memory against what a keyspace relies on
-- (datacake-eventual-consistency/src/test_utils.rs and storage.rs).
use datacake.Base.{
  ◌≡◌, refl, Bool, true, false, Option, none, some, List, [], ◌∷◌, ◌==◌, ==_iff, if◌then◌else◌,
  arith, inl, inr, ◌⊎◌, Option-cases,
}
use datacake.Base.Ord.{nat_ord}
use datacake.Base.Assoc.{get, remove, get-remove}
use datacake.Base.HashMap
use datacake.Timestamp.Fields.{HlcTimestamp}
use datacake.Orswot.Versions.{contains}
use datacake.Orswot.Set.{Key}
use datacake.Orswot.Slot.{Slot, absent, alive, deleted}
use datacake.Keyspace.Storage.{Name, Document}
use datacake.Keyspace.Agreement.{IsDurable}
use datacake.Keyspace.Purging.{RemovesTombstones}
use datacake.Keyspace.MemStore.{
  MemStore, Metadata, upsert, modify, insert_metadata, mark_metadata, remove_keys, multi_put, put,
  mark_many_as_tombstone, mark_as_tombstone, remove_tombstones, mem_store, view,
}

-- The slot of an entry of the metadata.
abbrev entry_slot : Option (HlcTimestamp × Bool) → Slot
entry_slot none = absent
entry_slot (some (ts, tombstone)) = if tombstone then deleted ts else alive ts

-- What the maps of one keyspace hold, nothing where the keyspace is missing.
abbrev pub entries_of : {A : Type 0} → Name → List (Name × List A) → List A
entries_of name maps = elim (get name maps) [ none ↦ [] | some entries ↦ entries ]

pub entries_of-upsert :
    {A : Type 0} (name other : Name) (change : List A → List A) (maps : List (Name × List A))
    → entries_of other (upsert name change (change []) maps)
      ≡ (if name == other then change (entries_of other maps) else entries_of other maps)
unfolding upsert
entries_of-upsert name other change maps = elim (Option-cases (get name maps)) [
  | inl e ↦ ground (arith, ==_iff name other, HashMap.get-insert other name (change []) maps)
  | inr (entries, e) ↦
      ground (arith, ==_iff name other, HashMap.get-insert other name (change entries) maps)
]

pub view_lem :
    (name : Name) (st : MemStore) (k : Key)
    → view name st k ≡ entry_slot (get k (entries_of name st.metadata))
unfolding view get
view_lem name st k = elim (Option-cases (get name st.metadata)) [
  | inl e ↦ ground arith
  | inr (entries, e) ↦ ground arith
]

pub get-insert_metadata_one :
    (doc : Document) (k : Key) (entries : Metadata)
    → get k (insert_metadata (doc ∷ []) entries)
      ≡ (if doc.metadata.id == k then some (doc.metadata.last_updated, false) else get k entries)
unfolding insert_metadata
get-insert_metadata_one doc k entries =
    HashMap.get-insert k doc.metadata.id (doc.metadata.last_updated, false) entries

view-put :
    (name : Name) (doc : Document) (st : MemStore) (k : Key)
    → view name (put name doc st) k
      ≡ (if doc.metadata.id == k then alive doc.metadata.last_updated else view name st k)
unfolding put multi_put
view-put name doc st k =
    let change : Metadata → Metadata = insert_metadata (doc ∷ []) in
    ground (
      arith,
      view_lem name st k,
      view_lem name (put name doc st) k,
      entries_of-upsert name name change st.metadata,
      get-insert_metadata_one doc k (entries_of name st.metadata),
    )

view-mark :
    (name : Name) (id : Key) (ts : HlcTimestamp) (st : MemStore) (k : Key)
    → let st' = mark_as_tombstone name id ts st in
      (view name st' k ≡ (if id == k then deleted ts else view name st k))
      ⊎ ((view name st k ≡ absent) × (view name st' k ≡ absent))
unfolding view mark_as_tombstone mark_many_as_tombstone modify mark_metadata get
view-mark name id ts st k = elim (Option-cases (get name st.metadata)) [
  | inl e ↦ inr (ground arith, ground arith)
  | inr (entries, e) ↦ inl (
      ground (
        arith,
        HashMap.get-insert name name (HashMap.insert id (ts, true) entries) st.metadata,
        HashMap.get-insert k id (ts, true) entries,
      ))
]

-- The single writes of the storage in memory are durable in the sense of the contract.
pub mem_store-IsDurable : (E Ctx : Type 0) → IsDurable (mem_store {E = E} {Ctx = Ctx}) view
unfolding mem_store
mem_store-IsDurable E Ctx = record {
  put = λ name doc ctx st k. view-put name doc st k;
  mark = λ name id ts st k. view-mark name id ts st k;
}

get-remove_keys :
    (k : Key) (keys : List Key) (entries : Metadata)
    → get k (remove_keys keys entries) ≡ (if contains k keys then none else get k entries)
unfolding remove_keys contains
get-remove_keys k [] entries = refl
get-remove_keys k (key ∷ keys) entries =
    ground
      (arith, ==_iff key k, get-remove_keys k keys (remove key entries), get-remove k key entries)

view-remove :
    (name : Name) (keys : List Key) (st : MemStore) (k : Key)
    → view name (remove_tombstones name keys st) k
      ≡ (if contains k keys then absent else view name st k)
unfolding view remove_tombstones modify
view-remove name keys st k = elim (Option-cases (get name st.metadata)) [
  | inl e ↦ ground arith
  | inr (entries, e) ↦ ground (
    arith,
    HashMap.get-insert name name (remove_keys keys entries) st.metadata,
    get-remove_keys k keys entries,
  )
]

-- Removing keys that are no live documents from the storage in memory is what the contract asks.
pub mem_store-RemovesTombstones :
    (E Ctx : Type 0) → RemovesTombstones (mem_store {E = E} {Ctx = Ctx}) view
unfolding mem_store
mem_store-RemovesTombstones E Ctx name keys st dead k =
    ground (arith, view-remove name keys st k, dead k)
