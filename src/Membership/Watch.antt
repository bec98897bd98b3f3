-- ===== src/Membership/Watch.antt =====
-- The watch over the membership (datacake-node/src/lib.rs): what a turn of
-- `watch_membership_changes` does with the members it sees.
use datacake.Base.{none, some, List, [], ◌∷◌, ◌++◌, ◌==◌, if◌then◌else◌, length, map}
use datacake.Base.Ord.{nat_ord, pair_ord}
use datacake.Base.Assoc.{get}
use datacake.Base.BTreeMap
use datacake.Base.BTreeSet.{collect, difference}
use datacake.Selector.Cycler.{SocketAddr, Nodes}
use datacake.Selector.Select.{DcName}
use datacake.Selector.Actor.{Selector, set_nodes}
use datacake.Membership.Member.{
  NodeId, ClusterMember, MembershipChange, NodeMembership, ClusterStatistics,
}

abbrev pub NetworkSet : Type 0
NetworkSet = List (NodeId × SocketAddr)

-- The ids and addresses of the members but the node itself.
unfoldable pub remote_addrs : NodeId → NodeMembership → NetworkSet
remote_addrs self_node_id [] = []
remote_addrs self_node_id ((node_id, member) ∷ members) =
    let rest = remote_addrs self_node_id members in
    if node_id == self_node_id then rest else (member.node_id, member.public_addr) ∷ rest

unfoldable pub network_set : NodeId → NodeMembership → NetworkSet
unfolding remote_addrs
network_set self_node_id members = collect (remote_addrs self_node_id members)

-- `data_centers.entry(dc).or_default().push(addr)`.
unfoldable pub push_addr : DcName → SocketAddr → List (DcName × Nodes) → List (DcName × Nodes)
push_addr dc addr dcs =
    BTreeMap.insert dc (elim (get dc dcs) [ none ↦ [] | some nodes ↦ nodes ] ++ addr ∷ []) dcs

unfoldable pub collect_dcs : NodeMembership → List (DcName × Nodes) → List (DcName × Nodes)
unfolding push_addr
collect_dcs [] dcs = dcs
collect_dcs ((node_id, member) ∷ members) dcs =
    collect_dcs members (push_addr member.data_center member.public_addr dcs)

-- `if let Some(member) = members.get(node_id)`, over a difference.
unfoldable pub pick : NodeMembership → NetworkSet → List ClusterMember
pick members [] = []
pick members ((node_id, addr) ∷ set) =
    let rest = pick members set in
    elim (get node_id members) [ none ↦ rest | some member ↦ member ∷ rest ]

-- What a turn does: the members sent on, the addresses that are disconnected, the new state of the
-- selector and of the statistics, and the set kept for the next turn.
pub record Turn : Type 0 where
  pub changes : MembershipChange
  pub disconnected : List SocketAddr
  pub selector : Selector
  pub statistics : ClusterStatistics
  pub network : NetworkSet

abbrev pub addr_of : NodeId × SocketAddr → SocketAddr
addr_of (node_id, addr) = addr

unfoldable pub on_members :
    NodeId → NodeMembership → NetworkSet → Selector → ClusterStatistics → Turn
unfolding network_set collect_dcs pick
on_members self_node_id members last_network_set selector statistics =
    let new_network_set = network_set self_node_id members in
    let data_centers = collect_dcs members [] in
    let gone = difference last_network_set new_network_set in
    record {
      changes = record {
        left = pick members gone;
        joined = pick members (difference new_network_set last_network_set);
      };
      disconnected = map addr_of gone;
      selector = set_nodes data_centers selector;
      statistics = record statistics { num_data_centers = length data_centers };
      network = new_network_set;
    }
