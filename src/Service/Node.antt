-- ===== src/Service/Node.antt =====
-- A node, and a message to one of its keyspaces
-- (datacake-eventual-consistency/src/rpc/services/consistency_impl.rs and storage.rs).
use datacake.Base.{
  Bool, true, false, ◌&&◌, ◌==◌, if◌then◌else◌, ℕ, ◌+◌, Option, none, some, List, ◌∷◌,
}
use datacake.Base.Result.{Result, ok, err, ◌>>=◌, is_ok}
use datacake.Base.Ord.{nat_ord}
use datacake.Base.Assoc.{get}
use datacake.Base.BTreeMap
use datacake.Base.Text.{Text}
use datacake.Timestamp.Fields.{HlcTimestamp, node}
use datacake.Orswot.Set.{will_apply}
use datacake.Selector.Cycler.{SocketAddr}
use datacake.Membership.Member.{NodeId}
use datacake.Membership.Network.{get_or_connect}
use datacake.Keyspace.Storage.{Name, BulkMutationError, Storage}
use datacake.Keyspace.Actor.{
  KeyspaceActor, Set, MultiSet, Del, MultiDel, on_set, on_multi_set, on_del, on_multi_del,
}
use datacake.Keyspace.Progress.{ProgressTracker}
use datacake.Keyspace.Group.{KeyspaceMap, get_or_create_keyspace}
use datacake.Rpc.Status.{Status, internal}
use datacake.Replication.Distributor.{Context}

abbrev pub consistency_source_id : ℕ
consistency_source_id = 0

pub record PutContext (Channel : Type 0) : Type 0 where
  pub progress : ProgressTracker
  pub remote_node_id : NodeId
  pub remote_addr : SocketAddr
  pub remote_rpc_channel : Channel

-- `asked` counts the timestamps that the clock has handed out.
pub record Node (St Channel : Type 0) : Type 0 where
  pub node_id : NodeId
  pub group : KeyspaceMap
  pub storage : St
  pub clients : List (SocketAddr × Channel)
  pub registered : List HlcTimestamp
  pub asked : ℕ

-- What is sent to a keyspace.
pub data Message (Ctx : Type 0) : Type 0 where
  set : Set Ctx → Message Ctx
  multi_set : MultiSet Ctx → Message Ctx
  del : Del → Message Ctx
  multi_del : MultiDel → Message Ctx

pub data StorageFailure (E : Type 0) : Type 0 where
  single : E → StorageFailure E
  bulk : BulkMutationError E → StorageFailure E

abbrev pub failure {ℓ} : {E F : Type 0} {A : Type ℓ} → (E → F) → Result E A → Result F A
failure f (ok a) = ok a
failure f (err e) = err (f e)

-- `Clock::register_ts`: what the clock is sent; a timestamp of the node itself is not.
unfoldable pub register_ts :
    {St Channel : Type 0} → HlcTimestamp → Node St Channel → Node St Channel
register_ts ts self =
    if node ts == self.node_id then self else record self { registered = ts ∷ self.registered }

unfoldable pub get_time :
    {St Channel : Type 0} → (ℕ → HlcTimestamp) → Node St Channel → Node St Channel × HlcTimestamp
get_time time node = (record node { asked = node.asked + 1 }, time node.asked)

-- The number of timestamps handed out once one more has been asked for, or not.
unfoldable pub asked_after : Bool → ℕ → ℕ
asked_after asks asked = if asks then asked + 1 else asked

-- Whether a keyspace has to be created.
abbrev pub is_new : Name → KeyspaceMap → Bool
is_new name group = elim (get name group) [ none ↦ true | some actor ↦ false ]

-- `get_put_ctx`, which connects to the node that the payload names. It always succeeds.
unfoldable pub get_put_ctx :
    {St Channel : Type 0}
    → (SocketAddr → Channel)
    → Option Context
    → Node St Channel
    → Node St Channel × Option (PutContext Channel)
get_put_ctx connect none node = (node, none)
get_put_ctx connect (some info) node =
    let (clients, channel) = get_or_connect connect info.node_addr node.clients in
    (
      record node { clients = clients },
      some record {
        progress = record { progress_counter = 0; done = false };
        remote_node_id = info.node_id;
        remote_addr = info.node_addr;
        remote_rpc_channel = channel;
      },
    )

module _ {St E Channel : Type 0} (storage : Storage St E (PutContext Channel))
    (time : ℕ → HlcTimestamp) where
  unfoldable pub handle :
      HlcTimestamp
      → Message (PutContext Channel)
      → KeyspaceActor
      → St
      → Option (KeyspaceActor × St × Result (StorageFailure E) (Unit {0}))
  handle now (set msg) self st =
      on_set storage now msg self st >>= λ (self', st', res). some (self', st', failure single res)
  handle now (multi_set msg) self st = on_multi_set storage now msg self st >>= λ (self', st', res).
      some (self', st', failure bulk res)
  handle now (del msg) self st =
      on_del storage now msg self st >>= λ (self', st', res). some (self', st', failure single res)
  handle now (multi_del msg) self st = on_multi_del storage now msg self st >>= λ (self', st', res).
      some (self', st', failure bulk res)

  -- Whether a keyspace asks the clock for the time of a change: after a single write only where it
  -- is applied, after a bulk write always.
  unfoldable pub asks_time :
      Message (PutContext Channel) → KeyspaceActor → Result (StorageFailure E) (Unit {0}) → Bool
  asks_time (set msg) self res =
      will_apply msg.doc.metadata.id msg.doc.metadata.last_updated self.state && is_ok res
  asks_time (multi_set msg) self res = true
  asks_time (del msg) self res = will_apply msg.doc.id msg.doc.last_updated self.state && is_ok res
  asks_time (multi_del msg) self res = true

  -- `get_or_create_keyspace` and the message to the keyspace. A keyspace that is there takes no
  -- timestamp to be found.
  unfoldable pub send_keyspace :
      Name
      → Message (PutContext Channel)
      → Node St Channel
      → Option (Node St Channel × Result (StorageFailure E) (Unit {0}))
  unfolding handle asks_time asked_after
  send_keyspace name msg node =
      let (group, keyspace) = get_or_create_keyspace (time node.asked) name node.group in
      let asked = asked_after (is_new name node.group) node.asked in
      handle (time asked) msg keyspace node.storage >>= λ (keyspace', st, res). some (
        record node {
          group = BTreeMap.insert name keyspace' group;
          storage = st;
          asked = asked_after (asks_time msg keyspace res) asked;
        },
        res,
      )

  -- `try_send!`; `to_string` is the message of a storage's error.
  unfoldable pub try_send :
      (StorageFailure E → Text)
      → Name
      → Message (PutContext Channel)
      → Node St Channel
      → Option (Node St Channel × Result Status (Unit {0}))
  unfolding send_keyspace
  try_send to_string name msg node = send_keyspace name msg node >>= λ (node', res).
      some (node', failure (λ e. internal (to_string e)) res)
