-- ===== src/Replication/Tracker.antt =====
-- What the poller remembers of other nodes, and a round of polls
-- (datacake-eventual-consistency/src/replication/poller.rs).
use datacake.Base.{none, some, List, [], ◌∷◌}
use datacake.Base.Result.{Result, ok, err}
use datacake.Base.Ord.{nat_ord}
use datacake.Base.Assoc.{get, remove}
use datacake.Base.BTreeMap
use datacake.Base.Text.{Text}
use datacake.Timestamp.Fields.{HlcTimestamp}
use datacake.Orswot.Set.{OrSWotSet, StateChanges}
use datacake.Selector.Cycler.{SocketAddr}
use datacake.Membership.Member.{NodeId, ClusterMember, MembershipChange}
use datacake.Keyspace.Storage.{Name, DocumentMetadata}
use datacake.Keyspace.Actor.{on_diff}
use datacake.Keyspace.Timestamps.{KeyspaceTimestamps, timestamps_diff}
use datacake.Keyspace.Group.{KeyspaceMap, get_or_create_keyspace}
use datacake.Rpc.Status.{Status}
use datacake.Replication.Distributor.{LiveMembers, insert_members}

abbrev pub KeyspaceTracker : Type 0
KeyspaceTracker = List (NodeId × KeyspaceTimestamps)

unfoldable pub remove_node : NodeId → KeyspaceTracker → KeyspaceTracker
remove_node node_id self = remove node_id self

-- `self.inner.entry(node_id).or_default()`.
abbrev pub timestamps_of : NodeId → KeyspaceTracker → KeyspaceTimestamps
timestamps_of node_id self = elim (get node_id self) [ none ↦ [] | some ts ↦ ts ]

unfoldable pub get_diff :
    NodeId → KeyspaceTimestamps → KeyspaceTracker → KeyspaceTracker × List Name
get_diff node_id other self =
    let own = timestamps_of node_id self in
    (BTreeMap.insert node_id own self, timestamps_diff own other)

unfoldable pub set_keyspace : NodeId → Name → HlcTimestamp → KeyspaceTracker → KeyspaceTracker
set_keyspace node_id keyspace ts self =
    BTreeMap.insert node_id (BTreeMap.insert keyspace ts (timestamps_of node_id self)) self

-- The changes queued at a tick of the cycle: `while let Ok(op) = rx.try_recv()`.
unfoldable pub forget_members :
    List ClusterMember → LiveMembers → KeyspaceTracker → LiveMembers × KeyspaceTracker
unfolding remove_node
forget_members [] live tracker = (live, tracker)
forget_members (member ∷ left) live tracker =
    forget_members left (remove member.node_id live) (remove_node member.node_id tracker)

unfoldable pub drain_changes :
    List MembershipChange → LiveMembers → KeyspaceTracker → LiveMembers × KeyspaceTracker
unfolding forget_members
drain_changes [] live tracker = (live, tracker)
drain_changes (changes ∷ ops) live tracker =
    let (live', tracker') = forget_members changes.left live tracker in
    drain_changes ops (insert_members changes.joined live') tracker'

pub record KeyspaceDiff : Type 0 where
  pub keyspace : Name
  pub modified : List DocumentMetadata
  pub removed : List DocumentMetadata
  pub last_updated : HlcTimestamp

unfoldable pub to_metadata : StateChanges → List DocumentMetadata
to_metadata [] = []
to_metadata ((id, ts) ∷ changes) = record { id = id; last_updated = ts } ∷ to_metadata changes

-- `state` is the answer of the other node to `get_state`.
unfoldable pub get_keyspace_diff :
    HlcTimestamp
    → Name
    → Result Status (HlcTimestamp × OrSWotSet)
    → KeyspaceMap
    → KeyspaceMap × Result Status KeyspaceDiff
unfolding to_metadata
get_keyspace_diff now keyspace_name state group =
    let (group', keyspace) = get_or_create_keyspace now keyspace_name group in
    elim state [
      | err e ↦ (group', err e)
      | ok (last_updated, set) ↦
          let (modified, removed) = on_diff set keyspace in
          (
            group',
            ok record {
              keyspace = keyspace_name;
              modified = to_metadata modified;
              removed = to_metadata removed;
              last_updated = last_updated;
            },
          )
    ]

-- What a round calls, over the state of the world that the calls change: the poll of a node's
-- timestamps, the difference of one keyspace, and the synchronisation of a difference.
pub record Calls (W : Type 0) : Type 0 where
  pub poll_keyspace : SocketAddr → W → W × Result Status KeyspaceTimestamps
  pub keyspace_diff : SocketAddr → Name → W → W × Result Status KeyspaceDiff
  pub begin_sync : NodeId → SocketAddr → KeyspaceDiff → W → W × Result Text (Unit {0})

module _ {W : Type 0} (calls : Calls W) where
  -- The differences that are obtained; a failure is logged.
  unfoldable pub collect_diffs : SocketAddr → List Name → W → W × List KeyspaceDiff
  collect_diffs addr [] w = (w, [])
  collect_diffs addr (keyspace ∷ diff) w =
      let (w', res) = calls.keyspace_diff addr keyspace w in
      let (w'', changes) = collect_diffs addr diff w' in
      (w'', elim res [ err e ↦ changes | ok change ↦ change ∷ changes ])

  unfoldable pub check_node_changes :
      NodeId
      → SocketAddr
      → KeyspaceTracker
      → W
      → KeyspaceTracker × W × Result Status (List KeyspaceDiff)
  unfolding get_diff collect_diffs
  check_node_changes target_node_id addr tracker w =
      let (w', polled) = calls.poll_keyspace addr w in
      elim polled [
        | err e ↦ (tracker, w', err e)
        | ok timestamps ↦
            let (tracker', diff) = get_diff target_node_id timestamps tracker in
            let (w'', changes) = collect_diffs addr diff w' in (tracker', w'', ok changes)
      ]

  -- `for change in info.changes`.
  unfoldable pub sync_changes :
      NodeId → SocketAddr → List KeyspaceDiff → KeyspaceTracker → W → KeyspaceTracker × W
  unfolding set_keyspace
  sync_changes node_id addr [] tracker w = (tracker, w)
  sync_changes node_id addr (change ∷ changes) tracker w =
      let (w', res) = calls.begin_sync node_id addr change w in
      sync_changes node_id addr changes
        (elim res [
          | err e ↦ tracker
          | ok u ↦ set_keyspace node_id change.keyspace change.last_updated tracker
        ])
        w'

  unfoldable pub repair_member : NodeId → SocketAddr → KeyspaceTracker → W → KeyspaceTracker × W
  unfolding check_node_changes sync_changes
  repair_member node_id addr tracker w =
      let (tracker', w', res) = check_node_changes node_id addr tracker w in
      elim res [
        | err e ↦ (tracker', w')
        | ok changes ↦ sync_changes node_id addr changes tracker' w'
      ]

  unfoldable pub repair_members : LiveMembers → KeyspaceTracker → W → KeyspaceTracker × W
  unfolding repair_member
  repair_members [] tracker w = (tracker, w)
  repair_members ((node_id, addr) ∷ live) tracker w =
      let (tracker', w') = repair_member node_id addr tracker w in repair_members live tracker' w'
