-- ===== src/Store/Writes.antt =====
-- What a put through the handle does, locally and towards the other nodes
-- (datacake-eventual-consistency/src/lib.rs).
use datacake.Base.{
  ℕ, ◌≡◌, refl, ◌∙◌, ◌⊎◌, inl, inr, ◌&&◌, none, some, List, [], ◌∷◌, ◌++◌, map, ◌==◌, if◌then◌else◌,
}
use datacake.Base.Result.{Result, ok, err, ◌>>=◌, Result-cases}
use datacake.Base.Ord.{nat_ord}
use datacake.Timestamp.Fields.{HlcTimestamp}
use datacake.Orswot.Set.{Key, will_apply}
use datacake.Orswot.Slot.{Slot, alive, slot}
use datacake.Selector.Cycler.{SocketAddr, Nodes}
use datacake.Selector.Select.{ConsistencyError}
use datacake.Keyspace.Storage.{Name, Document, Storage}
use datacake.Keyspace.Actor.{Set}
use datacake.Keyspace.Agreement.{Accepts, IsDurable}
use datacake.Rpc.Status.{Status}
use datacake.Replication.Distributor.{Mutation, mutation}
use datacake.Service.Node.{PutContext, StorageFailure, consistency_source_id, get_time}
use datacake.Service.Agreement.{PutsLocally, GroupAgrees, state_of, send_keyspace-set}
use datacake.Store.Distribution.{StoreError, consistency_error, handle_consistency_distribution}
use datacake.Store.Handle.{Store, new_document, store_failure, factory, distribute, put}

module _ {St E Channel : Type 0} (storage : Storage St E (PutContext Channel))
    (view : Name → St → Key → Slot) (durable : IsDurable storage view)
    (local : PutsLocally storage view) (time : ℕ → HlcTimestamp)
    (arrange : List (Result (StoreError E) (Unit {0})) → List (Result (StoreError E) (Unit {0})))
    (client : Document → SocketAddr → Result Status (Unit {0})) where
  -- Over a durable storage whose puts touch only their keyspace, on a node whose keyspaces are
  -- valid and agree with the storage, where the keyspace has the consistency source and the time
  -- that the clock answers is not older than the last that this source has sent of the same node: a
  -- put for which no nodes can be selected changes nothing. Any other never panics and keeps the
  -- node's keyspaces valid and in agreement with the storage. If the storage fails, its error is
  -- the result, and nothing is queued or sent. Else the document, stamped with the clock's time, is
  -- the last that is queued for the distributor, its slot is the document's if it is newer, no
  -- other slot has changed, and the result is that of the distribution to the selected nodes: a
  -- distribution that fails does not take the put back.
  pub put-Agrees :
      (selected : Result ConsistencyError Nodes) (keyspace : Name) (id : Key) (buffer : List ℕ)
      (store : Store St Channel)
      → let ts = time store.node.asked in
        let document = new_document id ts buffer in
        GroupAgrees view store.node.group store.node.storage
        → Accepts consistency_source_id ts (state_of keyspace store.node.group)
        → (store' : Store St Channel) × (result : Result (StoreError E) (Unit {0})) × (put storage
              time arrange selected client keyspace id buffer store
            ≡ some (store', result))
          × GroupAgrees view store'.node.group store'.node.storage
          × (((e : ConsistencyError) × (selected ≡ err e)
                × (result ≡ err (consistency_error e))
                × (store' ≡ store))
              ⊎ ((f : StorageFailure E) × (result ≡ err (store_failure f))
                  × (store'.queue ≡ store.queue))
              ⊎ ((nodes : Nodes) × (selected ≡ ok nodes)
                  × (store'.queue ≡ store.queue ++ mutation (Mutation.put keyspace document) ∷ [])
                  × (result
                      ≡ handle_consistency_distribution nodes
                          (arrange (map (factory (client document)) nodes)))
                  × ((other : Name) (j : Key)
                      → slot j (state_of other store'.node.group) ≡ (
                          if will_apply id ts (state_of keyspace store.node.group)
                            && keyspace == other
                            && id == j
                          then alive ts
                          else slot j (state_of other store.node.group)))))
  unfolding put distribute new_document get_time
  put-Agrees (err e) keyspace id buffer store agrees accepts =
      (store, err (consistency_error e), refl, agrees, inl (e, refl, refl, refl))
  put-Agrees (ok nodes) keyspace id buffer store agrees accepts =
      let (node, ts) = get_time time store.node in
      let document = new_document id ts buffer in
      let msg : Set (PutContext Channel) = record {
        source = consistency_source_id;
        doc = document;
        ctx = none;
      } in
      let (node', res, e, agrees', slots) =
        send_keyspace-set storage view durable local time keyspace msg node agrees accepts in
      elim (Result-cases res) [
        | inr (f, failed) ↦ (
          record { node = node'; queue = store.queue },
          err (store_failure f),
          rw (put, distribute, e, ◌>>=◌, failed) refl,
          agrees',
          inr (inl (f, refl, refl)),
        )
        | inl (u, done) ↦ (
          record {
            node = node';
            queue = store.queue ++ mutation (Mutation.put keyspace document) ∷ [];
          },
          handle_consistency_distribution nodes (arrange (map (factory (client document)) nodes)),
          rw (put, distribute, e, ◌>>=◌, done) refl,
          agrees',
          inr (inr (nodes, refl, refl, refl, λ other j. slots other j ∙ rw done refl)),
        )
      ]
