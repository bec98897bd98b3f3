-- ===== src/Service/Replication.antt =====
-- The handlers of the replication service
-- (datacake-eventual-consistency/src/rpc/services/replication_impl.rs).
use datacake.Base.{◌≡◌, refl, Option-cases, inl, inr, ℕ, Option, none, some, List, [], ◌∷◌}
use datacake.Base.Result.{Result, ok, err}
use datacake.Base.Text.{Text}
use datacake.Timestamp.Fields.{HlcTimestamp}
use datacake.Orswot.Set.{Key, OrSWotSet}
use datacake.Keyspace.Storage.{Name, Document}
use datacake.Keyspace.Actor.{on_last_updated}
use datacake.Keyspace.Group.{KeyspaceInfo, get_keyspace_info, get_or_create_keyspace}
use datacake.Keyspace.MemStore.{MemStore, get_doc, multi_get}
use datacake.Rpc.Status.{Status, internal}
use datacake.Service.Node.{asked_after, is_new, Node, register_ts, get_time}

-- The reads of a storage that the service makes.
pub record StorageReads (St E : Type 0) : Type 0 where
  pub get : Name → Key → St → Result E (Option Document)
  pub multi_get : Name → List Key → St → Result E (List Document)

pub record GetState : Type 0 where
  pub keyspace : Name
  pub timestamp : HlcTimestamp

pub record KeyspaceOrSwotSet : Type 0 where
  pub timestamp : HlcTimestamp
  pub last_updated : HlcTimestamp
  pub set : List ℕ

pub record FetchDocs : Type 0 where
  pub keyspace : Name
  pub doc_ids : List Key
  pub timestamp : HlcTimestamp

pub record FetchedDocs : Type 0 where
  pub documents : List Document
  pub timestamp : HlcTimestamp

module _ {St Channel : Type 0} (time : ℕ → HlcTimestamp) where
  unfoldable pub on_poll_keyspace : HlcTimestamp → Node St Channel → Node St Channel × KeyspaceInfo
  unfolding register_ts get_time
  on_poll_keyspace msg node =
      let (node', now) = get_time time (register_ts msg node) in
      (node', get_keyspace_info now node'.group)

  -- `serialize` is the archive of a set.
  unfoldable pub on_get_state :
      (OrSWotSet → Result Text (List ℕ))
      → GetState
      → Node St Channel
      → Node St Channel × Result Status KeyspaceOrSwotSet
  unfolding register_ts get_time asked_after
  on_get_state serialize msg node =
      let node₁ = register_ts msg.timestamp node in
      let (group, keyspace) = get_or_create_keyspace (time node₁.asked) msg.keyspace node₁.group in
      let node₂ : Node St Channel = record node₁ {
        group = group;
        asked = asked_after (is_new msg.keyspace node₁.group) node₁.asked;
      } in
      elim (serialize keyspace.state) [
        | err e ↦ (node₂, err (internal e))
        | ok set ↦
            let (node₃, timestamp) = get_time time node₂ in
            (
              node₃,
              ok record {
                timestamp = timestamp;
                last_updated = on_last_updated keyspace;
                set = set;
              },
            )
      ]

module _ {St E : Type 0} (reads : StorageReads St E) where
  abbrev option_docs : Option Document → List Document
  option_docs none = []
  option_docs (some doc) = doc ∷ []

  -- A single document is read with `get`, any other number with `multi_get`.
  unfoldable pub read_docs : FetchDocs → St → Result E (List Document)
  read_docs msg st = elim msg.doc_ids [
    | [] ↦ reads.multi_get msg.keyspace msg.doc_ids st
    | id ∷ ids ↦ elim ids [
      | [] ↦ elim (reads.get msg.keyspace id st) [ ok doc ↦ ok (option_docs doc) | err e ↦ err e ]
      | id' ∷ ids' ↦ reads.multi_get msg.keyspace msg.doc_ids st
    ]
  ]

module _ {St E Channel : Type 0} (time : ℕ → HlcTimestamp) (reads : StorageReads St E)
    (to_string : E → Text) where
  unfoldable pub on_fetch_docs :
      FetchDocs → Node St Channel → Node St Channel × Result Status FetchedDocs
  unfolding register_ts get_time read_docs
  on_fetch_docs msg node =
      let node₁ = register_ts msg.timestamp node in
      elim (read_docs reads msg node₁.storage) [
        | err e ↦ (node₁, err (internal (to_string e)))
        | ok documents ↦
            let (node₂, timestamp) = get_time time node₁ in
            (node₂, ok record { documents = documents; timestamp = timestamp })
      ]

-- The reads of the storage in memory.
abbrev pub mem_reads : {E : Type 0} → StorageReads MemStore E
mem_reads = record {
  get = λ name id st. ok (get_doc name id st);
  multi_get = λ name ids st. ok (multi_get name ids st);
}

-- On the storage in memory the read of a single document finds what a read of many would: for every
-- request the documents of the ids that are stored, in the order of the ids.
pub read_docs-multi_get :
    (E : Type 0) (msg : FetchDocs) (st : MemStore)
    → read_docs (mem_reads {E = E}) msg st ≡ ok (multi_get msg.keyspace msg.doc_ids st)
unfolding read_docs multi_get
read_docs-multi_get E msg st = go msg.keyspace msg.timestamp msg.doc_ids
  where
    go :
        (keyspace : Name) (ts : HlcTimestamp) (ids : List Key)
        → read_docs
            (mem_reads {E = E})
            (record { keyspace = keyspace; timestamp = ts; doc_ids = ids })
            st
          ≡ ok (multi_get keyspace ids st)
    go keyspace ts [] = refl
    go keyspace ts (id ∷ []) = elim (Option-cases (get_doc keyspace id st)) [
      | inl e ↦ rw (multi_get, e) refl
      | inr (doc, e) ↦ rw (multi_get, e) refl
    ]
    go keyspace ts (id ∷ id' ∷ ids) = refl
