-- ===== src/Service/Consistency.antt =====
-- The handlers of the consistency service
-- (datacake-eventual-consistency/src/rpc/services/consistency_impl.rs). A payload that cannot be
-- read back from its archive is refused before them.
use datacake.Base.{ℕ, Option, some, List, [], ◌∷◌}
use datacake.Base.Result.{Result, ok, err, ◌>>=◌}
use datacake.Base.Text.{Text}
use datacake.Timestamp.Fields.{HlcTimestamp}
use datacake.Selector.Cycler.{SocketAddr}
use datacake.Keyspace.Storage.{Name, DocumentMetadata, Document, Storage}
use datacake.Rpc.Status.{Status}
use datacake.Replication.Distributor.{Context, MultiPutPayload, MultiRemovePayload, BatchPayload}
use datacake.Service.Node.{
  PutContext, Node, set, multi_set, del, multi_del, StorageFailure, consistency_source_id,
  register_ts, get_time, get_put_ctx, try_send,
}

pub record PutPayload : Type 0 where
  pub keyspace : Name
  pub ctx : Option Context
  pub document : Document
  pub timestamp : HlcTimestamp

pub record RemovePayload : Type 0 where
  pub keyspace : Name
  pub document : DocumentMetadata
  pub timestamp : HlcTimestamp

module _ {St E Channel : Type 0} (storage : Storage St E (PutContext Channel))
    (time : ℕ → HlcTimestamp) (connect : SocketAddr → Channel)
    (to_string : StorageFailure E → Text) where
  -- The reply: the time, or the status of the step before.
  unfoldable pub reply :
      Node St Channel × Result Status (Unit {0}) → Node St Channel × Result Status HlcTimestamp
  reply (node, err status) = (node, err status)
  reply (node, ok u) = let (node', now) = get_time time node in (node', ok now)

  unfoldable pub on_put :
      PutPayload → Node St Channel → Option (Node St Channel × Result Status HlcTimestamp)
  unfolding reply
  on_put payload node = do
    let (node₁, ctx) = get_put_ctx connect payload.ctx node
    let msg = set record { source = consistency_source_id; doc = payload.document; ctx = ctx }
    sent ←
        try_send storage time to_string payload.keyspace msg (register_ts payload.timestamp node₁)
    some (reply sent)

  unfoldable pub on_multi_put :
      MultiPutPayload → Node St Channel → Option (Node St Channel × Result Status HlcTimestamp)
  unfolding reply
  on_multi_put payload node = do
    let (node₁, ctx) = get_put_ctx connect payload.ctx node
    let msg =
        multi_set record { source = consistency_source_id; docs = payload.documents; ctx = ctx }
    sent ←
        try_send storage time to_string payload.keyspace msg (register_ts payload.timestamp node₁)
    some (reply sent)

  unfoldable pub on_remove :
      RemovePayload → Node St Channel → Option (Node St Channel × Result Status HlcTimestamp)
  unfolding reply
  on_remove payload node = do
    let msg = del record { source = consistency_source_id; doc = payload.document }
    sent ← try_send storage time to_string payload.keyspace msg (register_ts payload.timestamp node)
    some (reply sent)

  unfoldable pub on_multi_remove :
      MultiRemovePayload → Node St Channel → Option (Node St Channel × Result Status HlcTimestamp)
  unfolding reply
  on_multi_remove payload node = do
    let msg = multi_del record { source = consistency_source_id; docs = payload.documents }
    sent ← try_send storage time to_string payload.keyspace msg (register_ts payload.timestamp node)
    some (reply sent)

  -- `for payload in msg.removed`; the first error ends it.
  unfoldable pub apply_removed :
      List MultiRemovePayload
      → Node St Channel
      → Option (Node St Channel × Result Status (Unit {0}))
  apply_removed [] node = some (node, ok tt)
  apply_removed (payload ∷ removed) node =
      try_send storage time to_string payload.keyspace
        (multi_del record { source = consistency_source_id; docs = payload.documents }) node
      >>= λ (node', res). elim res [
        | err e ↦ some (node', err e)
        | ok u ↦ apply_removed removed node'
      ]

  unfoldable pub apply_modified :
      List MultiPutPayload → Node St Channel → Option (Node St Channel × Result Status (Unit {0}))
  apply_modified [] node = some (node, ok tt)
  apply_modified (payload ∷ modified) node =
      let (node₁, ctx) = get_put_ctx connect payload.ctx node in
      try_send storage time to_string payload.keyspace
        (multi_set record { source = consistency_source_id; docs = payload.documents; ctx = ctx })
        node₁
      >>= λ (node', res). elim res [
        | err e ↦ some (node', err e)
        | ok u ↦ apply_modified modified node'
      ]

  unfoldable pub on_batch :
      BatchPayload → Node St Channel → Option (Node St Channel × Result Status HlcTimestamp)
  unfolding apply_removed apply_modified reply
  on_batch msg node = apply_removed msg.removed (register_ts msg.timestamp node) >>= λ (node', res).
      elim res [
        | err e ↦ some (node', err e)
        | ok u ↦ apply_modified msg.modified node' >>= λ sent. some (reply sent)
      ]
