-- ===== src/Membership/Live.antt =====
-- The distributor's live members against the members of the cluster
-- (datacake-node/src/lib.rs and
-- datacake-eventual-consistency/src/replication/distributor.rs).
use datacake.Base.{
  ==_iff, ◌≡◌, ◌∙◌, true, false, not, ◌&&◌, none, some, ◌==◌, if◌then◌else◌, arith, inl, inr,
  Bool-cases,
}
use datacake.Base.Ord.{nat_ord, pair_ord}
use datacake.Base.Assoc.{get}
use datacake.Base.BTreeMap.{IsSorted, IsSorted-Unique}
use datacake.Base.BTreeSet.{contains, difference, contains-collect, contains-difference}
use datacake.Selector.Cycler.{SocketAddr}
use datacake.Selector.Actor.{Selector}
use datacake.Membership.Member.{
  ClusterMember, NodeId, MembershipChange, NodeMembership, ClusterStatistics, IsKeyed,
}
use datacake.Membership.Watch.{pick, NetworkSet, remote_addrs, network_set, Turn, on_members}
use datacake.Membership.Changes.{
  mentions, has_id, addr_in, present, has_id-contains, contains-has_id, get-remove_members,
  get-insert_members, mentions-pick, last_addr-pick, contains-remote_addrs,
}
use datacake.Replication.Distributor.{LiveMembers, remove_members, insert_members}

abbrev pub IsMembership : NodeMembership → Type 0
IsMembership members = IsSorted members × IsKeyed members

-- The distributor after a membership change.
abbrev pub follow : MembershipChange → LiveMembers → LiveMembers
follow changes live = insert_members changes.joined (remove_members changes.left live)

contains-network_set :
    (self id : NodeId) (a : SocketAddr) (members : NodeMembership)
    → IsMembership members
    → contains (id, a) (network_set self members)
      ≡ elim (addr_in id members) [ none ↦ false | some b ↦ not (id == self) && (b == a) ]
unfolding network_set
contains-network_set self id a members (sorted, keyed) =
    contains-collect (id, a) (remote_addrs self members)
    ∙ contains-remote_addrs self id a members keyed (IsSorted-Unique members sorted)

-- Whether a difference names an id, from the pairs it contains.
has_id-difference :
    (id : NodeId) (s t : NetworkSet)
    → has_id id (difference s t) ≡ true
    → (a : SocketAddr) × (contains (id, a) s ≡ true) × (contains (id, a) t ≡ false)
has_id-difference id s t h =
    let (a, e) = has_id-contains id (difference s t) h in
    (
      a,
      ground (arith, contains-difference (id, a) s t),
      ground (arith, contains-difference (id, a) s t),
    )

difference-has_id :
    (id : NodeId) (a : SocketAddr) (s t : NetworkSet)
    → contains (id, a) s ≡ true
    → contains (id, a) t ≡ false
    → has_id id (difference s t) ≡ true
difference-has_id id a s t h k =
    contains-has_id id a (difference s t) (ground (arith, contains-difference (id, a) s t))

module _ (self : NodeId) (members : NodeMembership) (last : NetworkSet) (selector : Selector)
    (statistics : ClusterStatistics) where
  abbrev turn : Turn
  turn = on_members self members last selector statistics

  -- After a turn every remote node of the membership is listed with its address in the kept set;
  -- nothing else is.
  pub network-on_members :
      IsMembership members
      → (id : NodeId) (a : SocketAddr)
      → contains (id, a) (on_members self members last selector statistics).network
        ≡ elim (addr_in id members) [ none ↦ false | some b ↦ not (id == self) && (b == a) ]
  unfolding on_members
  network-on_members valid id a = contains-network_set self id a members valid

  -- A node that is no longer in the membership is not among the members that left, and so the
  -- distributor keeps sending to it.
  pub departed_stays :
      IsMembership members
      → (id : NodeId) (live : LiveMembers) → get id members ≡ none
      → let changes = (on_members self members last selector statistics).changes in
        (mentions id changes.left ≡ false) × (get id (follow changes live) ≡ get id live)
  unfolding on_members
  departed_stays valid id live h =
      let new = network_set self members in
      let l = mentions-pick id members (difference last new) valid.1 in
      let j = last_addr-pick id members (difference new last) valid.1 in
      let stays : mentions id turn.changes.left ≡ false = ground (arith, l) in
      (
        stays,
        ground (
          arith,
          j,
          get-insert_members id turn.changes.joined (remove_members turn.changes.left live),
          get-remove_members id turn.changes.left live,
        ),
      )

-- Every node of the kept set is a live member with its address.
abbrev pub Tracks : NetworkSet → LiveMembers → Type 0
Tracks network live =
    (id : NodeId) (a : SocketAddr) → contains (id, a) network ≡ true → get id live ≡ some a

module _ (self : NodeId) (members : NodeMembership) (last : NetworkSet)
    (valid : IsMembership members) where
  abbrev new : NetworkSet
  new = network_set self members

  -- The set has one address for an id.
  new_unique :
      (id : NodeId) (a b : SocketAddr)
      → contains (id, a) new ≡ true
      → contains (id, b) new ≡ true
      → (a ≡ b) × (addr_in id members ≡ some a)
  new_unique id a b h k = ground (
    arith,
    contains-network_set self id a members valid,
    contains-network_set self id b members valid,
  )

  kept-left :
      (id : NodeId) (a : SocketAddr) (live : LiveMembers)
      → Tracks last live
      → contains (id, a) new ≡ true
      → contains (id, a) last ≡ true
      → has_id id (difference last new) ≡ false
  kept-left id a live tracks h k = elim (Bool-cases (has_id id (difference last new))) [
    | inl e ↦
        let (b, was, is) = has_id-difference id last new e in
        absurd (ground (arith, tracks id a k, tracks id b was))
    | inr e ↦ e
  ]

  kept-joined :
      (id : NodeId) (a : SocketAddr)
      → contains (id, a) new ≡ true
      → contains (id, a) last ≡ true
      → has_id id (difference new last) ≡ false
  kept-joined id a h k = elim (Bool-cases (has_id id (difference new last))) [
    | inl e ↦
        let (b, is, was) = has_id-difference id new last e in
        absurd (ground (arith, new_unique id a b h is))
    | inr e ↦ e
  ]

  follow-pick :
      (id : NodeId) (live : LiveMembers)
      → let joined = difference new last in
        let left = difference last new in
        get id (follow (record { joined = pick members joined; left = pick members left }) live) ≡ (
          if has_id id joined && present id members
          then addr_in id members
          else if has_id id left && present id members
          then none
          else get id live)
  follow-pick id live =
      let left = pick members (difference last new) in
      let joined = pick members (difference new last) in
      ground (
        arith,
        mentions-pick id members (difference last new) valid.1,
        last_addr-pick id members (difference new last) valid.1,
        get-insert_members id joined (remove_members left live),
        get-remove_members id left live,
      )

-- A turn keeps the live members in step with the kept set.
turn-Tracks :
    (self : NodeId) (members : NodeMembership) (last : NetworkSet) (selector : Selector)
    (statistics : ClusterStatistics) (live : LiveMembers)
    → IsMembership members
    → Tracks last live
    → let t = on_members self members last selector statistics in
      Tracks t.network (follow t.changes live)
unfolding on_members
turn-Tracks self members last selector statistics live valid tracks id a h =
    let moved = follow-pick self members last valid id live in
    let whose = new_unique self members last valid id a a h h in
    elim (Bool-cases (contains (id, a) last)) [
      | inl k ↦ ground (
        arith,
        moved,
        whose,
        tracks id a k,
        kept-left self members last valid id a live tracks h k,
        kept-joined self members last valid id a h k,
      )
      | inr k ↦
          ground (arith, moved, whose, difference-has_id id a (network_set self members) last h k)
    ]

-- For a membership sorted by the id of each member, where every node that the watch has kept is a
-- live member of the distributor with its address, and the distributor follows the change that the
-- turn sends: afterwards every member of the cluster but the node itself is a live member under its
-- address in the membership, also where it is new or has come back under another address, and every
-- node kept for the next turn is one again.
pub follow-Tracks :
    (self : NodeId) (members : NodeMembership) (last : NetworkSet) (selector : Selector)
    (statistics : ClusterStatistics) (live : LiveMembers)
    → IsMembership members
    → Tracks last live
    → let t = on_members self members last selector statistics in
      let live' = follow t.changes live in
      ((id : NodeId) (m : ClusterMember)
        → get id members ≡ some m
        → (id == self) ≡ false
        → get id live' ≡ some m.public_addr)
      × Tracks t.network live'
follow-Tracks self members last selector statistics live valid tracks =
    let kept = turn-Tracks self members last selector statistics live valid tracks in
    (
      λ id m h other. kept id m.public_addr (
          ground (
            arith,
            network-on_members self members last selector statistics valid id m.public_addr,
            ==_iff m.public_addr m.public_addr,
          )),
      kept,
    )
