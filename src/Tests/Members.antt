-- ===== src/Tests/Members.antt =====
-- The membership of a cluster on concrete inputs.
use datacake.Base.{◌≡◌, refl, false, none, some, ◌==◌, [], ◌∷◌, arith}
use datacake.Base.Ord.{nat_ord, pair_ord}
use datacake.Base.Assoc.{get, remove}
use datacake.Base.BTreeSet.{contains, collect, difference}
use datacake.Selector.Actor.{Selector, set_nodes, count_nodes}
use datacake.Membership.Member.{NodeId, ClusterMember, NodeMembership, ClusterStatistics}
use datacake.Membership.Watch.{
  NetworkSet, remote_addrs, network_set, push_addr, collect_dcs, pick, on_members,
}
use datacake.Membership.Changes.{mentions}
use datacake.Membership.Live
use datacake.Membership.Live.{IsMembership, follow, Tracks}
use datacake.Replication.Distributor.{LiveMembers, remove_members, insert_members}

program : Unit {0}
unfolding get remove contains collect difference remote_addrs network_set push_addr collect_dcs pick
    on_members set_nodes count_nodes remove_members insert_members
program = tt

abbrev first : ClusterMember
first = record { node_id = 1; public_addr = 81; data_center = 0 }

-- Node 2 has come back under another address, and node 3 is gone.
abbrev moved : ClusterMember
moved = record { node_id = 2; public_addr = 92; data_center = 1 }

abbrev members : NodeMembership
members = (1, first) ∷ (2, moved) ∷ []

abbrev last : NetworkSet
last = (2, 82) ∷ (3, 83) ∷ []

abbrev live : LiveMembers
live = (2, 82) ∷ (3, 83) ∷ []

abbrev selector : Selector
selector = record { total_nodes = 0; data_centers = []; cached_nodes = [] }

abbrev statistics : ClusterStatistics
statistics = record { num_live_members = 2; num_dead_members = 0; num_data_centers = 1 }

members-IsMembership : IsMembership members
unfolding program
members-IsMembership = ((ground arith, (tt, tt)), (refl, (refl, tt)))

last-Tracks : Tracks last live
unfolding program
last-Tracks id a h = ground arith

follow-Tracks_example :
    let t = on_members 1 members last selector statistics in
    let live' = follow t.changes live in
    ((id : NodeId) (m : ClusterMember)
      → get id members ≡ some m
      → (id == 1) ≡ false
      → get id live' ≡ some m.public_addr)
    × Tracks t.network live'
follow-Tracks_example =
    Live.follow-Tracks 1 members last selector statistics live members-IsMembership last-Tracks

left_test :
    (on_members 1 members last selector statistics).changes
    ≡ record { joined = moved ∷ []; left = moved ∷ [] }
unfolding program
left_test = refl

third_gone : get 3 members ≡ none
unfolding program
third_gone = refl

departed_stays_example :
    let changes = (on_members 1 members last selector statistics).changes in
    (mentions 3 changes.left ≡ false) × (get 3 (follow changes live) ≡ get 3 live)
departed_stays_example =
    Live.departed_stays 1 members last selector statistics members-IsMembership 3 live third_gone
