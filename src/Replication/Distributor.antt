-- ===== src/Replication/Distributor.antt =====
-- The task distributor (datacake-eventual-consistency/src/replication/distributor.rs).
use datacake.Base.{
  Bool, true, false, not, ◌||◌, Option, none, some, List, [], ◌∷◌, ◌++◌, if◌then◌else◌,
}
use datacake.Base.Ord.{nat_ord}
use datacake.Base.Assoc.{get, remove}
use datacake.Base.BTreeMap
use datacake.Timestamp.Fields.{HlcTimestamp}
use datacake.Selector.Cycler.{SocketAddr}
use datacake.Membership.Member.{NodeId, ClusterMember, MembershipChange}
use datacake.Keyspace.Storage.{Name, DocumentMetadata, Document}

pub data Mutation : Type 0 where
  put : Name → Document → Mutation
  multi_put : Name → List Document → Mutation
  del : Name → DocumentMetadata → Mutation
  multi_del : Name → List DocumentMetadata → Mutation

pub data Op : Type 0 where
  membership_change : MembershipChange → Op
  mutation : Mutation → Op

abbrev pub LiveMembers : Type 0
LiveMembers = List (NodeId × SocketAddr)

abbrev pub Payloads : Type 0 → Type 0
Payloads D = List (Name × List D)

-- The payload of a keyspace, `entry(keyspace).or_default()`.
abbrev pub payload : {D : Type 0} → Name → Payloads D → List D
payload name payloads = elim (get name payloads) [ none ↦ [] | some docs ↦ docs ]

-- `entry(keyspace).or_default().extend(docs)`; a `push` extends by one.
unfoldable pub extend : {D : Type 0} → Name → List D → Payloads D → Payloads D
extend name docs payloads = BTreeMap.insert name (payload name payloads ++ docs) payloads

-- The variables of a tick.
pub record Tick : Type 0 where
  pub live_members : LiveMembers
  pub put_payloads : Payloads Document
  pub del_payloads : Payloads DocumentMetadata

unfoldable pub register_mutation : Mutation → Tick → Tick
unfolding extend
register_mutation (put keyspace doc) tick = record tick {
  put_payloads = extend keyspace (doc ∷ []) tick.put_payloads;
}
register_mutation (multi_put keyspace docs) tick = record tick {
  put_payloads = extend keyspace docs tick.put_payloads;
}
register_mutation (del keyspace doc) tick = record tick {
  del_payloads = extend keyspace (doc ∷ []) tick.del_payloads;
}
register_mutation (multi_del keyspace docs) tick = record tick {
  del_payloads = extend keyspace docs tick.del_payloads;
}

unfoldable pub remove_members : List ClusterMember → LiveMembers → LiveMembers
remove_members [] live = live
remove_members (member ∷ left) live = remove_members left (remove member.node_id live)

unfoldable pub insert_members : List ClusterMember → LiveMembers → LiveMembers
insert_members [] live = live
insert_members (member ∷ joined) live =
    insert_members joined (BTreeMap.insert member.node_id member.public_addr live)

unfoldable pub handle_task : Op → Tick → Tick
unfolding register_mutation remove_members insert_members
handle_task (membership_change changes) tick = record tick {
  live_members = insert_members changes.joined (remove_members changes.left tick.live_members);
}
handle_task (mutation m) tick = register_mutation m tick

-- `while let Ok(task) = rx.try_recv()`.
unfoldable pub drain : List Op → Tick → Tick
unfolding handle_task
drain [] tick = tick
drain (task ∷ tasks) tick = drain tasks (handle_task task tick)

pub record Context : Type 0 where
  pub node_id : NodeId
  pub node_addr : SocketAddr

pub record MultiPutPayload : Type 0 where
  pub keyspace : Name
  pub ctx : Option Context
  pub documents : List Document
  pub timestamp : HlcTimestamp

pub record MultiRemovePayload : Type 0 where
  pub keyspace : Name
  pub documents : List DocumentMetadata
  pub timestamp : HlcTimestamp

pub record BatchPayload : Type 0 where
  pub timestamp : HlcTimestamp
  pub modified : List MultiPutPayload
  pub removed : List MultiRemovePayload

unfoldable pub put_batch : Context → HlcTimestamp → Payloads Document → List MultiPutPayload
put_batch ctx timestamp [] = []
put_batch ctx timestamp ((keyspace, docs) ∷ rest) =
    (record { keyspace = keyspace; ctx = some ctx; documents = docs; timestamp = timestamp })
    ∷ put_batch ctx timestamp rest

unfoldable pub remove_batch : HlcTimestamp → Payloads DocumentMetadata → List MultiRemovePayload
remove_batch timestamp [] = []
remove_batch timestamp ((keyspace, docs) ∷ rest) =
    (record { keyspace = keyspace; documents = docs; timestamp = timestamp })
    ∷ remove_batch timestamp rest

abbrev pub is_empty {ℓ} : {A : Type ℓ} → List A → Bool
is_empty [] = true
is_empty (x ∷ xs) = false

-- A turn of the service that is not killed: the members for the next turn, and the batch to send
-- to each of them, if any. `now` is the time of the clock.
unfoldable pub run_tick :
    Context → HlcTimestamp → List Op → LiveMembers → LiveMembers × Option BatchPayload
unfolding drain put_batch remove_batch
run_tick ctx now tasks live =
    let tick = drain tasks (record { live_members = live; put_payloads = []; del_payloads = [] }) in
    (
      tick.live_members,
      if not (is_empty tick.put_payloads) || not (is_empty tick.del_payloads)
          then some (record {
            timestamp = now;
            modified = put_batch ctx now tick.put_payloads;
            removed = remove_batch now tick.del_payloads;
          })
          else none,
    )
