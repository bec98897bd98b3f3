-- ===== src/Tests/Stores.antt =====
-- A store over the storage in memory on concrete inputs.
use datacake.Base.{
  ℕ, ◌+◌, ◌*◌, ◌^◌, ◌<◌, ◌≡◌, refl, ◌⊎◌, inl, ◌&&◌, false, some, List, [], ◌∷◌, ◌++◌, map, ◌==◌,
  if◌then◌else◌, length,
}
use datacake.Base.Result.{Result, ok, err}
use datacake.Base.Text.{Text, codes}
use datacake.Base.Ord.{nat_ord}
use datacake.Base.Assoc.{get}
use datacake.Timestamp.Fields.{HlcTimestamp, node}
use datacake.Orswot.Versions.{default_versions}
use datacake.Orswot.Set.{Key, default, will_apply}
use datacake.Orswot.Slot.{alive, slot}
use datacake.Orswot.Observed.{seen_by}
use datacake.Orswot.Convergence.{default-IsValid}
use datacake.Selector.Cycler.{SocketAddr, Nodes}
use datacake.Selector.Select.{ConsistencyError}
use datacake.Keyspace.Storage.{Name, Document, Storage}
use datacake.Keyspace.Agreement.{Accepts}
use datacake.Keyspace.MemStore.{MemStore, mem_store, view}
use datacake.Keyspace.Contract.{mem_store-IsDurable}
use datacake.Keyspace.BulkContract.{view-put_other}
use datacake.Rpc.Status.{Status, internal}
use datacake.Replication.Distributor.{Mutation, mutation}
use datacake.Service.Node.{PutContext, Node, StorageFailure}
use datacake.Service.Consistency.{PutPayload}
use datacake.Service.Agreement
use datacake.Service.Agreement.{PutsLocally, GroupAgrees, state_of}
use datacake.Store.Distribution
use datacake.Store.Distribution.{
  StoreError, consistency_error, rpc_error, timeout, acknowledged, all_acknowledge,
  handle_consistency_distribution,
}
use datacake.Store.Handle.{Store, new_document, store_failure, factory}
use datacake.Store.Handle
use datacake.Store.Writes
use datacake.Selector.Select.{consistency_failure}
use mathlib.Core.List.Perm

program : Unit {0}
unfolding default default_versions seen_by get view mem_store node
program = tt

abbrev Channel : Type 0
Channel = ℕ

abbrev storage : Storage MemStore Text (PutContext Channel)
storage = mem_store

-- The clock answers whole seconds, of node 1.
abbrev time : ℕ → HlcTimestamp
time n = (n + 100) * 2 ^ 32 + 1

abbrev empty : MemStore
empty = record { documents = []; metadata = [] }

abbrev empty_node : Node MemStore Channel
empty_node = record {
  node_id = 1;
  group = [];
  storage = empty;
  clients = [];
  registered = [];
  asked = 0;
}

abbrev store : Store MemStore Channel
store = record { node = empty_node; queue = [] }

storage-PutsLocally : PutsLocally storage view
unfolding mem_store
storage-PutsLocally name other doc ctx st k ne = view-put_other name other doc st k ne

empty-GroupAgrees : GroupAgrees view [] empty
unfolding program
empty-GroupAgrees name = (default-IsValid 2, (λ k. inl refl), λ actor h. cc)

default-Accepts : (ts : HlcTimestamp) → Accepts 0 ts (default 2)
unfolding program
default-Accepts ts = (cc, λ last h. cc)

empty-Accepts : (keyspace : Name) (ts : HlcTimestamp) → Accepts 0 ts (state_of keyspace [])
unfolding program
empty-Accepts keyspace ts = default-Accepts ts

abbrev selected : Result ConsistencyError Nodes
selected = ok (80 ∷ 81 ∷ [])

-- The node at 81 does not answer.
abbrev client : Document → SocketAddr → Result Status (Unit {0})
client doc node = if node == 81 then err (internal (codes "down")) else ok tt

abbrev arrange :
    List (Result (StoreError Text) (Unit {0})) → List (Result (StoreError Text) (Unit {0}))
arrange answers = answers

put-Agrees_example :
    let document = new_document 5 (time 0) (1 ∷ 2 ∷ []) in
    (store' : Store MemStore Channel) × (result : Result (StoreError Text) (Unit {0})) × (Handle.put
        storage time arrange selected client 3 5
        (1 ∷ 2 ∷ [])
        store
      ≡ some (store', result))
    × GroupAgrees view store'.node.group store'.node.storage
    × (((e : ConsistencyError) × (selected ≡ err e)
          × (result ≡ err (consistency_error e))
          × (store' ≡ store))
        ⊎ ((f : StorageFailure Text) × (result ≡ err (store_failure f))
            × (store'.queue ≡ store.queue))
        ⊎ ((nodes : Nodes) × (selected ≡ ok nodes)
            × (store'.queue ≡ store.queue ++ mutation (Mutation.put 3 document) ∷ [])
            × (result
                ≡ handle_consistency_distribution nodes
                    (arrange (map (factory (client document)) nodes)))
            × ((other : Name) (j : Key)
                → slot j (state_of other store'.node.group) ≡ (
                    if will_apply 5 (time 0) (state_of 3 store.node.group) && 3 == other && 5 == j
                    then alive (time 0)
                    else slot j (state_of other store.node.group)))))
put-Agrees_example =
    Writes.put-Agrees storage view (mem_store-IsDurable Text (PutContext Channel))
      storage-PutsLocally time arrange client selected 3 5 (1 ∷ 2 ∷ []) store empty-GroupAgrees
      (empty-Accepts 3 (time 0))

abbrev payload : PutPayload
payload = record {
  keyspace = 3;
  ctx = some record { node_id = 7; node_addr = 70 };
  document = record { metadata = record { id = 5; last_updated = 9 }; buffer = [] };
  timestamp = 9;
}

abbrev to_string : StorageFailure Text → Text
to_string f = codes "failed"

-- Three nodes answer, the second with an error.
abbrev acknowledge : SocketAddr → Result (StoreError Text) (Unit {0})
acknowledge node = if node == 81 then err (rpc_error 81 (internal (codes "down"))) else ok tt

abbrev three : Nodes
three = 80 ∷ 81 ∷ 82 ∷ []

handle_consistency_distribution_lem_example :
    let n = acknowledged acknowledge three in
    (handle_consistency_distribution three (map acknowledge three) ≡ (
      if all_acknowledge acknowledge three
      then ok tt
      else err (consistency_error (consistency_failure n (length three) timeout))))
    × (all_acknowledge acknowledge three ≡ false → n < length three)
handle_consistency_distribution_lem_example =
    Distribution.handle_consistency_distribution_lem acknowledge three (map acknowledge three)
      (Perm.refl (map acknowledge three))
