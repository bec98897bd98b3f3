-- ===== src/Selector/Actor.antt =====
-- The node selector actor with its cache (datacake-node/src/nodes_selector.rs). An `Instant` is a
-- number of nanoseconds; `now` is the time at which an operation is handled.
use datacake.Base.{
  ℕ, ◌+◌, ◌-◌, Option, none, some, List, [], ◌∷◌, ltb, if◌then◌else◌, length, ◌≡◌, ◌≤◌, arith, refl,
  ==_iff, Option-cases, inl, inr,
}
use datacake.Base.Result.{Result, ok, err, ◌>>=◌}
use datacake.Base.Ord.{nat_ord}
use datacake.Base.Assoc.{get, Unique}
use datacake.Base.BTreeMap
use datacake.Base.HashMap
use datacake.Timestamp.Fields.{Duration, from_secs}
use datacake.Selector.Cycler.{SocketAddr, Nodes, cycler_of}
use datacake.Selector.Select.{
  ConsistencyError, Consistency, no_replica, one, two, three, quorum, local_quorum, all,
  each_quorum, DcName, DataCenters, select_nodes,
}

abbrev pub node_cache_timeout : Duration
node_cache_timeout = from_secs 2

-- The derived `Hash` and `Eq` of `Consistency`, as a number.
abbrev pub level : Consistency → ℕ
level no_replica = 0
level one = 1
level two = 2
level three = 3
level quorum = 4
level local_quorum = 5
level all = 6
level each_quorum = 7

pub record Selector : Type 0 where
  pub total_nodes : ℕ
  pub data_centers : DataCenters
  pub cached_nodes : List (ℕ × (Duration × Nodes))

unfoldable pub insert_data_centers : List (DcName × Nodes) → DataCenters → DataCenters
insert_data_centers [] dcs = dcs
insert_data_centers ((name, nodes) ∷ new) dcs =
    insert_data_centers new (BTreeMap.insert name (cycler_of nodes) dcs)

unfoldable pub count_nodes : List (DcName × Nodes) → ℕ
count_nodes [] = 0
count_nodes ((name, nodes) ∷ new) = length nodes + count_nodes new

-- `Op::SetNodes`.
unfoldable pub set_nodes : List (DcName × Nodes) → Selector → Selector
unfolding insert_data_centers count_nodes
set_nodes new self = record {
  total_nodes = count_nodes new;
  data_centers = insert_data_centers new self.data_centers;
  cached_nodes = [];
}

-- `Op::GetNodes` where the cache does not answer. `later` is the time after the selection.
unfoldable pub refresh :
    (ℕ → DataCenters → DataCenters)
    → SocketAddr
    → DcName
    → Duration
    → Consistency
    → Selector
    → Option (Selector × Result ConsistencyError Nodes)
refresh choose local_node local_dc later consistency self =
    select_nodes choose local_node local_dc self.total_nodes self.data_centers consistency
    >>= λ (dcs, res). some (
      record self {
        data_centers = dcs;
        cached_nodes = elim res [
          | ok nodes ↦ HashMap.insert (level consistency) (later, nodes) self.cached_nodes
          | err e ↦ self.cached_nodes
        ];
      },
      res,
    )

-- `Op::GetNodes`.
unfoldable pub get_nodes :
    (ℕ → DataCenters → DataCenters)
    → SocketAddr
    → DcName
    → Duration
    → Duration
    → Consistency
    → Selector
    → Option (Selector × Result ConsistencyError Nodes)
unfolding refresh
get_nodes choose local_node local_dc now later consistency self =
    let fresh = refresh choose local_node local_dc later consistency self in
    elim (get (level consistency) self.cached_nodes) [
      | none ↦ fresh
      | some cached ↦
          if ltb (now - cached.0) node_cache_timeout then some (self, ok cached.1) else fresh
    ]

get-insert_data_centers :
    (name : DcName) (new : List (DcName × Nodes)) (dcs : DataCenters)
    → Unique new
    → get name (insert_data_centers new dcs)
      ≡ elim (get name new) [ none ↦ get name dcs | some nodes ↦ some (cycler_of nodes) ]
unfolding insert_data_centers get
get-insert_data_centers name [] dcs u = refl
get-insert_data_centers name ((n, nodes) ∷ new) dcs u = ground (
  arith,
  get-insert_data_centers name new (BTreeMap.insert n (cycler_of nodes) dcs) u.1,
  BTreeMap.get-insert name n (cycler_of nodes) dcs,
  ==_iff n name,
)

-- A new set of nodes replaces the data centers it names, with cyclers that start over, and empties
-- the cache. A data center that it does not name stays selectable, although its nodes are no longer
-- part of the total.
pub set_nodes_lem :
    (new : List (DcName × Nodes)) (self : Selector) (name : DcName)
    → Unique new
    → let self' = set_nodes new self in
      (get name self'.data_centers ≡ elim (get name new) [
        | none ↦ get name self.data_centers
        | some nodes ↦ some (cycler_of nodes)
      ])
      × (self'.total_nodes ≡ count_nodes new)
      × (self'.cached_nodes ≡ [])
unfolding set_nodes
set_nodes_lem new self name u = (get-insert_data_centers name new self.data_centers u, refl, refl)

-- Within two seconds of a successful selection the same consistency level gets the same nodes
-- again, and the state does not change, not even the cursors.
pub get_nodes_again :
    (choose : ℕ → DataCenters → DataCenters) (local_node : SocketAddr) (local_dc : DcName)
    (later now' later' : Duration) (consistency : Consistency) (self : Selector) {self' : Selector}
    {nodes : Nodes}
    → refresh choose local_node local_dc later consistency self ≡ some (self', ok nodes)
    → now' - later ≤ 1_999_999_999
    → get_nodes choose local_node local_dc now' later' consistency self' ≡ some (self', ok nodes)
unfolding get_nodes refresh
get_nodes_again choose local_node local_dc later now' later' consistency self {self'} {nodes} h t =
    elim (Option-cases
      (select_nodes choose local_node local_dc self.total_nodes self.data_centers consistency)) [
        | inl dead ↦ absurd (ground arith)
        | inr ((dcs, err e), sel) ↦ absurd (ground arith)
        | inr ((dcs, ok found), sel) ↦
            let c = level consistency in
            let cached : get c self'.cached_nodes ≡ some (later, nodes) =
              ground (arith, HashMap.get-insert c c (later, found) self.cached_nodes) in
            rw (get_nodes, cached) (ground arith)
      ]
