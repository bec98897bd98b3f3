-- ===== src/Membership/Member.antt =====
-- Members, and how they are built from the gossip library's state (datacake-node/src/node.rs).
use datacake.Base.{
  ℕ, ◌^◌, ◌<◌, ◌≡◌, inl, inr, refl, Option, none, some, List, [], ◌∷◌, length, arith, ==_iff,
}
use datacake.Base.Result.{Result, ok, err, Result-cases}
use datacake.Base.Ord.{nat_ord}
use datacake.Base.Assoc.{get}
use datacake.Base.BTreeMap
use datacake.Base.Text.{Text, decimal, print, from_str_radix}
use datacake.Base.Digits.{from_str_radix-print}
use datacake.Selector.Cycler.{SocketAddr}
use datacake.Selector.Select.{DcName}

-- A `u8`.
abbrev pub NodeId : Type 0
NodeId = ℕ

pub record ClusterMember : Type 0 where
  pub node_id : NodeId
  pub public_addr : SocketAddr
  pub data_center : DcName

pub record MembershipChange : Type 0 where
  pub joined : List ClusterMember
  pub left : List ClusterMember

abbrev pub NodeMembership : Type 0
NodeMembership = List (NodeId × ClusterMember)

-- The node id of the gossip library.
pub record ChitchatId : Type 0 where
  pub id : Text
  pub gossip_public_address : SocketAddr

unfoldable pub chitchat_id : ClusterMember → Text
chitchat_id self = print decimal self.node_id

-- `impl From<ClusterMember> for NodeId`.
unfoldable pub to_chitchat : ClusterMember → ChitchatId
unfolding chitchat_id
to_chitchat member = record { id = chitchat_id member; gossip_public_address = member.public_addr }

-- What the error strings say.
pub data BuildError : Type 0 where
  not_in_state : Text → BuildError
  invalid_node_id : BuildError

-- The statistics of the cluster.
pub record ClusterStatistics : Type 0 where
  pub num_live_members : ℕ
  pub num_dead_members : ℕ
  pub num_data_centers : ℕ

-- `node_states` is the snapshot of the gossip library, here only the data center that each node
-- has set for itself, if it has; `default_data_center` the constant of that name.
module _ (node_states : Text → Option (Option DcName)) (default_data_center : DcName) where
  unfoldable pub build_cluster_member : ChitchatId → Result BuildError ClusterMember
  build_cluster_member chitchat = elim (node_states chitchat.id) [
    | none ↦ err (not_in_state chitchat.id)
    | some node_state ↦ elim (from_str_radix decimal 0xFF chitchat.id) [
      | none ↦ err invalid_node_id
      | some node_id ↦ ok record {
        node_id = node_id;
        public_addr = chitchat.gossip_public_address;
        data_center = elim node_state [ none ↦ default_data_center | some dc ↦ dc ];
      }
    ]
  ]

  -- The members that can be built; the others are logged and ignored. A later one of the same id
  -- replaces an earlier one.
  unfoldable pub build_members : List ChitchatId → NodeMembership → NodeMembership
  unfolding build_cluster_member
  build_members [] members = members
  build_members (chitchat ∷ ids) members = elim (build_cluster_member chitchat) [
    | ok member ↦ build_members ids (BTreeMap.insert member.node_id member members)
    | err e ↦ build_members ids members
  ]

  -- A turn of the task that follows the gossip: the members that are sent on.
  unfoldable pub on_ready_nodes :
      ClusterMember → List ChitchatId → ℕ → ClusterStatistics → NodeMembership × ClusterStatistics
  unfolding build_members
  on_ready_nodes me members_set dead_member_count statistics =
      let members = BTreeMap.insert me.node_id me (build_members members_set []) in
      (
        members,
        record statistics {
          num_live_members = length members;
          num_dead_members = dead_member_count;
        },
      )

  -- A member that is in the gossip's state under its own name is built as it was announced.
  pub build-to_chitchat :
      (member : ClusterMember)
      → member.node_id < 2 ^ 8
      → node_states (chitchat_id member) ≡ some (some member.data_center)
      → build_cluster_member (to_chitchat member) ≡ ok member
  unfolding build_cluster_member to_chitchat chitchat_id
  build-to_chitchat member h known =
      rw
        (
          build_cluster_member,
          to_chitchat,
          chitchat_id,
          known,
          from_str_radix-print decimal 0xFF member.node_id (omega arith) (omega arith),
        )
        refl

-- Every member stands under its own id.
abbrev pub IsKeyed : NodeMembership → Type 0
IsKeyed [] = Unit
IsKeyed ((id, m) ∷ members) = (m.node_id ≡ id) × IsKeyed members

insert-IsKeyed :
    (m : ClusterMember) (members : NodeMembership)
    → IsKeyed members
    → IsKeyed (BTreeMap.insert m.node_id m members)
unfolding BTreeMap.insert
insert-IsKeyed m [] keyed = (refl, tt)
insert-IsKeyed m ((id, m') ∷ members) keyed = ground (arith, insert-IsKeyed m members keyed.1)

pub get-IsKeyed :
    (id : NodeId) (m : ClusterMember) (members : NodeMembership)
    → IsKeyed members
    → get id members ≡ some m
    → m.node_id ≡ id
unfolding get
get-IsKeyed id m [] keyed h = cc
get-IsKeyed id m ((id', m') ∷ members) keyed h =
    ground (arith, ==_iff id' id, get-IsKeyed id m members keyed.1)

module _ (node_states : Text → Option (Option DcName)) (default_data_center : DcName) where
  build-IsKeyed :
      (ids : List ChitchatId) (members : NodeMembership)
      → BTreeMap.IsSorted members × IsKeyed members
      → let members' = build_members node_states default_data_center ids members in
        BTreeMap.IsSorted members' × IsKeyed members'
  unfolding build_members
  build-IsKeyed [] members h = h
  build-IsKeyed (chitchat ∷ ids) members h =
      elim (Result-cases (build_cluster_member node_states default_data_center chitchat)) [
        | inl (m, e) ↦
            rw (build_members, e)
              (build-IsKeyed ids (BTreeMap.insert m.node_id m members)
                (BTreeMap.insert-IsSorted m.node_id m members h.0, insert-IsKeyed m members h.1))
        | inr (error, e) ↦ rw (build_members, e) (build-IsKeyed ids members h)
      ]

  -- What is sent on is sorted, each member stands under its own id, and the node itself is in it.
  pub on_ready_nodes-IsKeyed :
      (me : ClusterMember) (ids : List ChitchatId) (dead : ℕ) (statistics : ClusterStatistics)
      → let members = (on_ready_nodes node_states default_data_center me ids dead statistics).0 in
        BTreeMap.IsSorted members × IsKeyed members × (get me.node_id members ≡ some me)
  unfolding on_ready_nodes
  on_ready_nodes-IsKeyed me ids dead statistics =
      let built = build_members node_states default_data_center ids [] in
      let (sorted, keyed) = build-IsKeyed ids [] (tt, tt) in
      (
        BTreeMap.insert-IsSorted me.node_id me built sorted,
        insert-IsKeyed me built keyed,
        ground (arith, BTreeMap.get-insert me.node_id me.node_id me built),
      )
