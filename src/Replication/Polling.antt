-- ===== src/Replication/Polling.antt =====
-- What the next poll of a node asks for, after a round of synchronisations
-- (datacake-eventual-consistency/src/replication/poller.rs).
use datacake.Base.{
  ◌≡◌, ◌≢◌, ◌↔◌, refl, true, ◌&&◌, Option, none, some, List, [], ◌∷◌, ◌==◌, if◌then◌else◌, arith,
  inl, inr,
}
use datacake.Base.Result.{is_ok, Result-cases}
use datacake.Base.Ord.{nat_ord}
use datacake.Base.Assoc.{get}
use datacake.Base.BTreeMap
use datacake.Base.BTreeMap.{IsSorted, IsSorted-Unique, insert-IsSorted}
use datacake.Timestamp.Fields.{HlcTimestamp}
use datacake.Orswot.Versions.{contains}
use datacake.Selector.Cycler.{SocketAddr}
use datacake.Membership.Member.{NodeId}
use datacake.Keyspace.Storage.{Name}
use datacake.Keyspace.Timestamps.{KeyspaceTimestamps, contains-timestamps_diff}
use datacake.Replication.Tracker.{
  KeyspaceTracker, timestamps_of, get_diff, set_keyspace, KeyspaceDiff, Calls, sync_changes,
}

module _ {W : Type 0} (calls : Calls W) (node_id : NodeId) (addr : SocketAddr) where
  -- The last change of a keyspace whose synchronisation succeeds.
  abbrev pub synced : List KeyspaceDiff → W → Name → Option HlcTimestamp
  synced [] w k = none
  synced (change ∷ changes) w k =
      let (w', res) = calls.begin_sync node_id addr change w in
      elim (synced changes w' k) [
        | some ts ↦ some ts
        | none ↦ if is_ok res && change.keyspace == k then some change.last_updated else none
      ]

  get-set_keyspace :
      (keyspace k : Name) (ts : HlcTimestamp) (tracker : KeyspaceTracker)
      → get k (timestamps_of node_id (set_keyspace node_id keyspace ts tracker))
        ≡ (if keyspace == k then some ts else get k (timestamps_of node_id tracker))
  unfolding set_keyspace
  get-set_keyspace keyspace k ts tracker =
      let own = BTreeMap.insert keyspace ts (timestamps_of node_id tracker) in
      ground (
        arith,
        BTreeMap.get-insert node_id node_id own tracker,
        BTreeMap.get-insert k keyspace ts (timestamps_of node_id tracker),
      )

  set_keyspace-IsSorted :
      (keyspace : Name) (ts : HlcTimestamp) (tracker : KeyspaceTracker)
      → IsSorted (timestamps_of node_id tracker)
      → IsSorted (timestamps_of node_id (set_keyspace node_id keyspace ts tracker))
  unfolding set_keyspace
  set_keyspace-IsSorted keyspace ts tracker sorted =
      let own = BTreeMap.insert keyspace ts (timestamps_of node_id tracker) in
      let there : timestamps_of node_id (set_keyspace node_id keyspace ts tracker) ≡ own =
        ground (arith, BTreeMap.get-insert node_id node_id own tracker) in
      rw there (insert-IsSorted keyspace ts (timestamps_of node_id tracker) sorted)

  tracker-sync_changes :
      (changes : List KeyspaceDiff) (tracker : KeyspaceTracker) (w : W)
      → IsSorted (timestamps_of node_id tracker)
      → let tracker' = (sync_changes calls node_id addr changes tracker w).0 in
        IsSorted (timestamps_of node_id tracker')
        × ((k : Name)
            → get k (timestamps_of node_id tracker') ≡ elim (synced changes w k) [
              | none ↦ get k (timestamps_of node_id tracker)
              | some ts ↦ some ts
            ])
  unfolding sync_changes
  tracker-sync_changes [] tracker w sorted = (sorted, λ k. refl)
  tracker-sync_changes (change ∷ changes) tracker w sorted =
      let call = calls.begin_sync node_id addr change w in
      elim (Result-cases call.1) [
        | inr (e, failed) ↦
            let (sorted', rest) = tracker-sync_changes changes tracker call.0 sorted in
            (
              rw (sync_changes, failed) sorted',
              λ k. rw (sync_changes, failed) (ground (arith, rest k)),
            )
        | inl (u, done) ↦
            let ts = change.last_updated in
            let marked = set_keyspace node_id change.keyspace ts tracker in
            let (sorted', rest) =
              tracker-sync_changes changes marked call.0
                (set_keyspace-IsSorted change.keyspace ts tracker sorted) in
            (
              rw (sync_changes, done) sorted',
              λ k.
                  rw (sync_changes, done)
                    (ground (arith, rest k, get-set_keyspace change.keyspace k ts tracker)),
            )
      ]

  -- After the differences of a node are synchronised, the next poll asks for a keyspace exactly where
  -- the node's answer differs from what the last successful synchronisation of it saw, or, where none
  -- succeeded, from what was known before: what failed is asked for again.
  pub get_diff-sync_changes :
      (changes : List KeyspaceDiff) (tracker : KeyspaceTracker) (w : W) (other : KeyspaceTimestamps)
      (k : Name)
      → IsSorted (timestamps_of node_id tracker)
      → IsSorted other
      → let tracker' = (sync_changes calls node_id addr changes tracker w).0 in
        (contains k (get_diff node_id other tracker').1 ≡ true) ↔ (
          elim (synced changes w k) [
            | none ↦ get k (timestamps_of node_id tracker)
            | some ts ↦ some ts
          ]
          ≢ get k other)
  unfolding get_diff
  get_diff-sync_changes changes tracker w other k sorted sorted' =
      let tracker' = (sync_changes calls node_id addr changes tracker w).0 in
      let (s, known) = tracker-sync_changes changes tracker w sorted in
      rw (← known k) (
        contains-timestamps_diff (timestamps_of node_id tracker') other k
          (IsSorted-Unique (timestamps_of node_id tracker') s) (IsSorted-Unique other sorted'))
