-- ===== src/Membership/Changes.antt =====
-- What a membership change lists, and the distributor that follows it
-- (datacake-node/src/lib.rs and
-- datacake-eventual-consistency/src/replication/distributor.rs).
use datacake.Base.{
  ◌≡◌, refl, Bool, true, false, not, ◌&&◌, ◌||◌, Option, none, some, List, [], ◌∷◌, ◌==◌, ==_iff,
  if◌then◌else◌, arith, inl, inr, Bool-cases, Option-cases,
}
use datacake.Base.Ord.{nat_ord, pair_ord}
use datacake.Base.Assoc.{get, remove, Unique, get-remove}
use datacake.Base.BTreeMap
use datacake.Base.BTreeSet.{contains}
use datacake.Selector.Cycler.{SocketAddr}
use datacake.Membership.Member.{NodeId, ClusterMember, NodeMembership, IsKeyed, get-IsKeyed}
use datacake.Membership.Watch.{NetworkSet, remote_addrs, pick}
use datacake.Replication.Distributor.{LiveMembers, remove_members, insert_members}

abbrev pub mentions : NodeId → List ClusterMember → Bool
mentions id [] = false
mentions id (m ∷ ms) = m.node_id == id || mentions id ms

-- The address of the last member of an id in a list.
abbrev pub last_addr : NodeId → List ClusterMember → Option SocketAddr
last_addr id [] = none
last_addr id (m ∷ ms) = elim (last_addr id ms) [
  | none ↦ if m.node_id == id then some m.public_addr else none
  | some a ↦ some a
]

abbrev pub has_id : NodeId → NetworkSet → Bool
has_id id [] = false
has_id id ((j, a) ∷ set) = j == id || has_id id set

abbrev pub present : NodeId → NodeMembership → Bool
present id members = elim (get id members) [ none ↦ false | some m ↦ true ]

abbrev pub addr_in : NodeId → NodeMembership → Option SocketAddr
addr_in id members = elim (get id members) [ none ↦ none | some m ↦ some m.public_addr ]

pub has_id-contains :
    (id : NodeId) (set : NetworkSet)
    → has_id id set ≡ true
    → (a : SocketAddr) × (contains (id, a) set ≡ true)
unfolding contains
has_id-contains id [] h = absurd (ground arith)
has_id-contains id ((j, a) ∷ set) h = elim (Bool-cases (j == id)) [
  | inl same ↦ (a, ground arith)
  | inr other ↦ let (b, e) = has_id-contains id set (ground arith) in (b, ground arith)
]

pub contains-has_id :
    (id : NodeId) (a : SocketAddr) (set : NetworkSet)
    → contains (id, a) set ≡ true
    → has_id id set ≡ true
unfolding contains
contains-has_id id a [] h = cc
contains-has_id id a ((j, b) ∷ set) h = ground (arith, contains-has_id id a set)

pub get-remove_members :
    (id : NodeId) (left : List ClusterMember) (live : LiveMembers)
    → get id (remove_members left live) ≡ (if mentions id left then none else get id live)
unfolding remove_members
get-remove_members id [] live = refl
get-remove_members id (m ∷ left) live =
    ground (arith, get-remove_members id left (remove m.node_id live), get-remove id m.node_id live)

pub get-insert_members :
    (id : NodeId) (joined : List ClusterMember) (live : LiveMembers)
    → get id (insert_members joined live)
      ≡ elim (last_addr id joined) [ none ↦ get id live | some a ↦ some a ]
unfolding insert_members
get-insert_members id [] live = refl
get-insert_members id (m ∷ joined) live = ground (
  arith,
  get-insert_members id joined (BTreeMap.insert m.node_id m.public_addr live),
  BTreeMap.get-insert id m.node_id m.public_addr live,
)

pub mentions-pick :
    (id : NodeId) (members : NodeMembership) (set : NetworkSet)
    → IsKeyed members
    → mentions id (pick members set) ≡ (has_id id set && present id members)
unfolding pick
mentions-pick id members [] keyed = refl
mentions-pick id members ((j, a) ∷ set) keyed = elim (Option-cases (get j members)) [
  | inl e ↦ ground (arith, ==_iff j id, mentions-pick id members set keyed)
  | inr (m, e) ↦
      ground
        (arith, ==_iff j id, get-IsKeyed j m members keyed e, mentions-pick id members set keyed)
]

pub last_addr-pick :
    (id : NodeId) (members : NodeMembership) (set : NetworkSet)
    → IsKeyed members
    → last_addr id (pick members set) ≡ (if has_id id set then addr_in id members else none)
unfolding pick
last_addr-pick id members [] keyed = refl
last_addr-pick id members ((j, a) ∷ set) keyed = elim (Option-cases (get j members)) [
  | inl e ↦ ground (arith, ==_iff j id, last_addr-pick id members set keyed)
  | inr (m, e) ↦
      ground
        (arith, ==_iff j id, get-IsKeyed j m members keyed e, last_addr-pick id members set keyed)
]

-- What the network set contains.
pub contains-remote_addrs :
    (self id : NodeId) (a : SocketAddr) (members : NodeMembership)
    → IsKeyed members
    → Unique members
    → contains (id, a) (remote_addrs self members)
      ≡ elim (addr_in id members) [ none ↦ false | some b ↦ not (id == self) && (b == a) ]
unfolding remote_addrs contains get
contains-remote_addrs self id a [] keyed u = refl
contains-remote_addrs self id a ((j, m) ∷ members) keyed u =
    ground (arith, ==_iff j id, contains-remote_addrs self id a members keyed.1 u.1)
