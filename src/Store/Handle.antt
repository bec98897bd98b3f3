-- ===== src/Store/Handle.antt =====
-- The four mutations of a store handle (datacake-eventual-consistency/src/lib.rs).
--
-- `selected` is the answer of the node selector, `client` the call of the consistency client to a
-- node, and `arrange` puts the answers in the order in which they come.
use datacake.Base.{ℕ, Option, none, some, List, [], ◌∷◌, ◌++◌, map}
use datacake.Base.Result.{Result, ok, err, ◌>>=◌}
use datacake.Timestamp.Fields.{HlcTimestamp}
use datacake.Orswot.Set.{Key}
use datacake.Selector.Cycler.{SocketAddr, Nodes}
use datacake.Selector.Select.{ConsistencyError}
use datacake.Keyspace.Storage.{Name, DocumentMetadata, Document, Storage}
use datacake.Rpc.Status.{Status}
use datacake.Replication.Distributor.{Op, Mutation, mutation}
use datacake.Service.Node.{
  PutContext, Node, Message, set, multi_set, del, multi_del, StorageFailure, single, bulk, failure,
  consistency_source_id, get_time, send_keyspace,
}
use datacake.Store.Distribution.{
  StoreError, storage_error, bulk_storage_error, consistency_error, rpc_error,
  handle_consistency_distribution,
}

-- The node, and what is queued for the distributor.
pub record Store (St Channel : Type 0) : Type 0 where
  pub node : Node St Channel
  pub queue : List Op

unfoldable pub new_document : Key → HlcTimestamp → List ℕ → Document
new_document id last_updated buffer = record {
  metadata = record { id = id; last_updated = last_updated };
  buffer = buffer;
}

unfoldable pub new_documents : HlcTimestamp → List (Key × List ℕ) → List Document
unfolding new_document
new_documents last_updated [] = []
new_documents last_updated ((id, buffer) ∷ documents) =
    new_document id last_updated buffer ∷ new_documents last_updated documents

unfoldable pub new_metadata : HlcTimestamp → List Key → List DocumentMetadata
new_metadata last_updated [] = []
new_metadata last_updated (id ∷ doc_ids) =
    record { id = id; last_updated = last_updated } ∷ new_metadata last_updated doc_ids

-- The conversions of the storage's errors by `?`.
abbrev pub store_failure : {E : Type 0} → StorageFailure E → StoreError E
store_failure (single e) = storage_error e
store_failure (bulk e) = bulk_storage_error e

-- `client` with its status as an error of the store.
abbrev pub factory :
    {E : Type 0}
    → (SocketAddr → Result Status (Unit {0}))
    → SocketAddr
    → Result (StoreError E) (Unit {0})
factory client node = failure (rpc_error node) (client node)

module _ {St E Channel : Type 0} (storage : Storage St E (PutContext Channel))
    (time : ℕ → HlcTimestamp)
    (arrange : List (Result (StoreError E) (Unit {0}))
      → List (Result (StoreError E) (Unit {0}))) where
  -- What the mutations share: the message to the keyspace, the registration of the mutation, and
  -- the distribution to the selected nodes.
  unfoldable pub distribute :
      Nodes
      → Name
      → Message (PutContext Channel)
      → Mutation
      → (SocketAddr → Result Status (Unit {0}))
      → Node St Channel
      → List Op
      → Option (Store St Channel × Result (StoreError E) (Unit {0}))
  distribute nodes keyspace msg change client node queue =
      send_keyspace storage time keyspace msg node >>= λ (node', res). elim res [
        | err e ↦ some (record { node = node'; queue = queue }, err (store_failure e))
        | ok u ↦ some (
          record { node = node'; queue = queue ++ mutation change ∷ [] },
          handle_consistency_distribution nodes (arrange (map (factory client) nodes)),
        )
      ]

  unfoldable pub put :
      Result ConsistencyError Nodes
      → (Document → SocketAddr → Result Status (Unit {0}))
      → Name
      → Key
      → List ℕ
      → Store St Channel
      → Option (Store St Channel × Result (StoreError E) (Unit {0}))
  unfolding distribute new_document get_time
  put selected client keyspace doc_id buffer store = elim selected [
    | err e ↦ some (store, err (consistency_error e))
    | ok nodes ↦
        let (node, last_updated) = get_time time store.node in
        let document = new_document doc_id last_updated buffer in
        distribute nodes keyspace
          (set record { source = consistency_source_id; doc = document; ctx = none })
          (Mutation.put keyspace document) (client document) node store.queue
  ]

  unfoldable pub put_many :
      Result ConsistencyError Nodes
      → (List Document → SocketAddr → Result Status (Unit {0}))
      → Name
      → List (Key × List ℕ)
      → Store St Channel
      → Option (Store St Channel × Result (StoreError E) (Unit {0}))
  unfolding distribute new_documents get_time
  put_many selected client keyspace documents store = elim selected [
    | err e ↦ some (store, err (consistency_error e))
    | ok nodes ↦
        let (node, last_updated) = get_time time store.node in
        let docs = new_documents last_updated documents in
        distribute nodes keyspace
          (multi_set record { source = consistency_source_id; docs = docs; ctx = none })
          (Mutation.multi_put keyspace docs) (client docs) node store.queue
  ]

  unfoldable pub del_one :
      Result ConsistencyError Nodes
      → (DocumentMetadata → SocketAddr → Result Status (Unit {0}))
      → Name
      → Key
      → Store St Channel
      → Option (Store St Channel × Result (StoreError E) (Unit {0}))
  unfolding distribute get_time
  del_one selected client keyspace doc_id store = elim selected [
    | err e ↦ some (store, err (consistency_error e))
    | ok nodes ↦
        let (node, last_updated) = get_time time store.node in
        let doc : DocumentMetadata = record { id = doc_id; last_updated = last_updated } in
        distribute nodes keyspace (del record { source = consistency_source_id; doc = doc })
          (Mutation.del keyspace doc) (client doc) node store.queue
  ]

  unfoldable pub del_many :
      Result ConsistencyError Nodes
      → (List DocumentMetadata → SocketAddr → Result Status (Unit {0}))
      → Name
      → List Key
      → Store St Channel
      → Option (Store St Channel × Result (StoreError E) (Unit {0}))
  unfolding distribute new_metadata get_time
  del_many selected client keyspace doc_ids store = elim selected [
    | err e ↦ some (store, err (consistency_error e))
    | ok nodes ↦
        let (node, last_updated) = get_time time store.node in
        let docs = new_metadata last_updated doc_ids in
        distribute nodes keyspace (multi_del record { source = consistency_source_id; docs = docs })
          (Mutation.multi_del keyspace docs) (client docs) node store.queue
  ]
