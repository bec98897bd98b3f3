-- ===== src/Membership/Network.antt =====
-- The connections of a node (datacake-node/src/rpc/network.rs), and the selector that follows the
-- membership (datacake-node/src/lib.rs).
use datacake.Base.{
  true, false, map, ℕ, ◌+◌, ◌≡◌, refl, ◌∙◌, false, none, some, List, [], ◌∷◌, ◌++◌, ltb, ◌==◌,
  ==_iff, if◌then◌else◌, arith, length, inl, inr, Bool-cases,
}
use datacake.Base.Ord.{nat_ord, pair_ord}
use datacake.Base.Assoc.{get, remove, get-remove}
use datacake.Base.BTreeMap
use datacake.Base.BTreeMap.{IsSorted, get-Above, Above-trans, insert-IsSorted}
use datacake.Base.BTreeSet
use datacake.Base.HashMap
use datacake.Selector.Cycler.{SocketAddr, Nodes}
use datacake.Selector.Select.{DcName}
use datacake.Selector.Actor.{Selector, count_nodes, set_nodes}
use datacake.Membership.Member.{NodeId, NodeMembership, ClusterStatistics}
use datacake.Membership.Watch.{addr_of, network_set, NetworkSet, push_addr, collect_dcs, on_members}

-- `Channel::connect` is the RPC library's; a channel is what it answers.
module _ {Channel : Type 0} (channel_connect : SocketAddr → Channel) where
  unfoldable pub connect :
      SocketAddr → List (SocketAddr × Channel) → List (SocketAddr × Channel) × Channel
  connect addr clients =
      let channel = channel_connect addr in (HashMap.insert addr channel clients, channel)

  unfoldable pub get_or_connect :
      SocketAddr → List (SocketAddr × Channel) → List (SocketAddr × Channel) × Channel
  unfolding connect
  get_or_connect addr clients = elim (get addr clients) [
    | some channel ↦ (clients, channel)
    | none ↦ connect addr clients
  ]

unfoldable pub disconnect {ℓ} :
    {Channel : Type ℓ} → SocketAddr → List (SocketAddr × Channel) → List (SocketAddr × Channel)
disconnect addr clients = remove addr clients

-- The loop of the watch over the nodes that are gone.
unfoldable pub disconnect_all {ℓ} :
    {Channel : Type ℓ} → List SocketAddr → List (SocketAddr × Channel) → List (SocketAddr × Channel)
unfolding disconnect
disconnect_all [] clients = clients
disconnect_all (addr ∷ addrs) clients = disconnect_all addrs (disconnect addr clients)

module _ {Channel : Type 0} (channel_connect : SocketAddr → Channel) where
  -- A client that was handed out is handed out again, without a new connection, until the address
  -- is disconnected; then the next call connects anew. Other addresses are not touched.
  pub get_or_connect-again :
      (addr other : SocketAddr) (clients : List (SocketAddr × Channel))
      → let (clients', channel) = get_or_connect channel_connect addr clients in
        (get_or_connect channel_connect addr clients' ≡ (clients', channel))
        × ((get_or_connect channel_connect addr (disconnect addr clients')).1
            ≡ channel_connect addr)
        × ((other == addr) ≡ false
            → (get other clients' ≡ get other clients)
              × (get other (disconnect addr clients') ≡ get other clients))
  unfolding get_or_connect connect disconnect
  get_or_connect-again addr other clients = ground (
    arith,
    HashMap.get-insert addr addr (channel_connect addr) clients,
    HashMap.get-insert other addr (channel_connect addr) clients,
    get-remove addr addr clients,
    get-remove other addr clients,
    get-remove addr addr (HashMap.insert addr (channel_connect addr) clients),
    get-remove other addr (HashMap.insert addr (channel_connect addr) clients),
  )

abbrev pub held : DcName → List (DcName × Nodes) → ℕ
held dc dcs = elim (get dc dcs) [ none ↦ 0 | some nodes ↦ length nodes ]

count_nodes-insert :
    (dc : DcName) (nodes : Nodes) (dcs : List (DcName × Nodes))
    → IsSorted dcs
    → count_nodes (BTreeMap.insert dc nodes dcs) + held dc dcs ≡ count_nodes dcs + length nodes
unfolding count_nodes BTreeMap.insert get
count_nodes-insert dc nodes [] sorted = ground arith
count_nodes-insert dc nodes ((j, v) ∷ dcs) sorted = elim (Bool-cases (ltb dc j)) [
  | inl below ↦ ground (arith, get-Above dc dcs (Above-trans dc j dcs below sorted.0))
  | inr above ↦ ground (arith, ==_iff j dc, count_nodes-insert dc nodes dcs sorted.1)
]

length-push : (nodes : Nodes) (addr : SocketAddr) → length (nodes ++ addr ∷ []) ≡ length nodes + 1
length-push [] addr = omega arith
length-push (n ∷ nodes) addr = omega (arith, length-push nodes addr)

abbrev nodes_at : DcName → List (DcName × Nodes) → Nodes
nodes_at dc dcs = elim (get dc dcs) [ none ↦ [] | some nodes ↦ nodes ]

count_nodes-push_addr :
    (dc : DcName) (addr : SocketAddr) (dcs : List (DcName × Nodes))
    → IsSorted dcs
    → count_nodes (push_addr dc addr dcs) ≡ count_nodes dcs + 1
unfolding push_addr
count_nodes-push_addr dc addr dcs sorted = ground (
  arith,
  count_nodes-insert dc (nodes_at dc dcs ++ addr ∷ []) dcs sorted,
  length-push (nodes_at dc dcs) addr,
)

count_nodes-collect_dcs :
    (members : NodeMembership) (dcs : List (DcName × Nodes))
    → IsSorted dcs
    → count_nodes (collect_dcs members dcs) ≡ count_nodes dcs + length members
unfolding collect_dcs push_addr
count_nodes-collect_dcs [] dcs sorted = omega arith
count_nodes-collect_dcs ((id, m) ∷ members) dcs sorted = omega (
  arith,
  count_nodes-collect_dcs members (push_addr m.data_center m.public_addr dcs)
      (insert-IsSorted m.data_center (nodes_at m.data_center dcs ++ m.public_addr ∷ []) dcs sorted),
  count_nodes-push_addr m.data_center m.public_addr dcs sorted,
)

-- After a turn of the watch the selector counts as many nodes as the membership has.
pub total_nodes-on_members :
    (self : NodeId) (members : NodeMembership) (last : NetworkSet) (selector : Selector)
    (statistics : ClusterStatistics)
    → (on_members self members last selector statistics).selector.total_nodes ≡ length members
unfolding on_members set_nodes count_nodes
total_nodes-on_members self members last selector statistics =
    count_nodes-collect_dcs members [] tt ∙ omega arith

get-disconnect_all {ℓ} :
    {Channel : Type ℓ} (addr : SocketAddr) (addrs : List SocketAddr)
    (clients : List (SocketAddr × Channel))
    → get addr (disconnect_all addrs clients)
      ≡ (if BTreeSet.contains addr addrs then none else get addr clients)
unfolding disconnect_all disconnect BTreeSet.contains
get-disconnect_all addr [] clients = refl
get-disconnect_all addr (a ∷ addrs) clients = ground (
  arith,
  ==_iff a addr,
  get-disconnect_all addr addrs (remove a clients),
  get-remove addr a clients,
)

contains-map_addr :
    (id : NodeId) (a : SocketAddr) (set : NetworkSet)
    → BTreeSet.contains (id, a) set ≡ true
    → BTreeSet.contains a (map addr_of set) ≡ true
unfolding BTreeSet.contains
contains-map_addr id a [] h = h
contains-map_addr id a ((j, b) ∷ set) h = ground (arith, contains-map_addr id a set)

-- The address of a node that is no longer in the membership, and that of a node which has moved,
-- has no client after the turn.
pub disconnect-on_members {ℓ} :
    {Channel : Type ℓ} (self : NodeId) (members : NodeMembership) (last : NetworkSet)
    (selector : Selector) (statistics : ClusterStatistics) (id : NodeId) (a : SocketAddr)
    (clients : List (SocketAddr × Channel))
    → let t = on_members self members last selector statistics in
      BTreeSet.contains (id, a) last ≡ true
      → BTreeSet.contains (id, a) t.network ≡ false
      → get a (disconnect_all t.disconnected clients) ≡ none
unfolding on_members
disconnect-on_members self members last selector statistics id a clients was now =
    let gone = BTreeSet.difference last (network_set self members) in
    ground (
      arith,
      get-disconnect_all a (map addr_of gone) clients,
      contains-map_addr id a gone,
      BTreeSet.contains-difference (id, a) last (network_set self members),
    )
