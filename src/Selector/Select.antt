-- ===== src/Selector/Select.antt =====
-- `DCAwareSelector::select_nodes` and `select_n_nodes` (datacake-node/src/nodes_selector.rs).
use datacake.Base.{
  ℕ, zero, suc, ◌+◌, ◌-◌, ◌/◌, max, Bool, ◌&&◌, ◌||◌, Option, none, some, List, [], ◌∷◌, ◌++◌, ltb,
  leb, ◌==◌, if◌then◌else◌, length, take,
}
use datacake.Base.Result.{Result, ok, err, ◌>>=◌}
use datacake.Base.Ord.{nat_ord}
use datacake.Base.Assoc.{get}
use datacake.Base.BTreeMap
use datacake.Timestamp.Fields.{Duration}
use datacake.Orswot.Versions.{contains}
use datacake.Selector.Cycler.{SocketAddr, Nodes, NodeCycler, len, next}

pub data ConsistencyError : Type 0 where
  not_enough_nodes : ℕ → ℕ → ConsistencyError
  consistency_failure : ℕ → ℕ → Duration → ConsistencyError

-- `Consistency::None` is `no_replica`.
pub data Consistency : Type 0 where
  no_replica one two three quorum local_quorum all each_quorum : Consistency

abbrev pub DcName : Type 0
DcName = ℕ

abbrev pub DataCenters : Type 0
DataCenters = List (DcName × NodeCycler)

-- `.filter(|addr| addr != &local_node)`.
unfoldable pub others : SocketAddr → Nodes → Nodes
others local_node [] = []
others local_node (addr ∷ addrs) =
    let rest = others local_node addrs in if addr == local_node then rest else addr ∷ rest

unfoldable pub dcs_iterators : SocketAddr → DataCenters → List Nodes
unfolding others
dcs_iterators local_node [] = []
dcs_iterators local_node ((name, nodes) ∷ dcs) =
    others local_node nodes.nodes ∷ dcs_iterators local_node dcs

-- `dcs_iterators.iter_mut().filter_map(|iter| iter.next())`: what is yielded, and what is left.
unfoldable pub round : List Nodes → Nodes × List Nodes
round [] = ([], [])
round ([] ∷ iters) = let (nodes, left) = round iters in (nodes, [] ∷ left)
round ((addr ∷ addrs) ∷ iters) = let (nodes, left) = round iters in (addr ∷ nodes, addrs ∷ left)

-- The `while` loop. Every turn but the last selects a node, so the majority and one turn more
-- are enough fuel; without fuel it answers `none`.
unfoldable pub quorum_loop : ℕ → ℕ → List Nodes → Nodes → Option (Result ConsistencyError Nodes)
unfolding round
quorum_loop zero majority iters selected = none
quorum_loop (suc fuel) majority iters selected =
    let (nodes, left) = round iters in
    let rest = quorum_loop fuel majority left (selected ++ nodes) in
    if ltb (length selected) majority
    then if length selected == length (selected ++ nodes)
      then some (err (not_enough_nodes (length (selected ++ nodes)) majority))
      else rest
    else some (ok selected)

unfoldable pub select_quorum : SocketAddr → ℕ → DataCenters → Option (Result ConsistencyError Nodes)
unfolding quorum_loop dcs_iterators
select_quorum local_node total_nodes dcs =
    let majority = total_nodes / 2 in
    quorum_loop (suc majority) majority (dcs_iterators local_node dcs) []

unfoldable pub select_local_quorum : SocketAddr → DcName → DataCenters → Nodes
unfolding others
select_local_quorum local_node local_dc dcs = elim (get local_dc dcs) [
  | none ↦ []
  | some nodes ↦ take (len nodes / 2) (others local_node nodes.nodes)
]

unfoldable pub select_all : SocketAddr → DataCenters → Nodes
unfolding others
select_all local_node [] = []
select_all local_node ((name, nodes) ∷ dcs) =
    others local_node nodes.nodes ++ select_all local_node dcs

unfoldable pub select_each_quorum : SocketAddr → DcName → DataCenters → Nodes
unfolding others
select_each_quorum local_node local_dc [] = []
select_each_quorum local_node local_dc ((name, nodes) ∷ dcs) =
    let majority = if name == local_dc then len nodes / 2 else len nodes / 2 + 1 in
    take majority (others local_node nodes.nodes) ++ select_each_quorum local_node local_dc dcs

-- The variables of the loop of `select_n_nodes`.
pub record Selecting : Type 0 where
  pub num_extra_nodes : ℕ
  pub dc_count : ℕ
  pub selected_nodes : Nodes

-- `for _ in 0..num_extra_nodes_per_dc`.
unfoldable pub take_extra : SocketAddr → ℕ → NodeCycler → Selecting → NodeCycler × Selecting
take_extra local_node zero dc_nodes x = (dc_nodes, x)
take_extra local_node (suc k) dc_nodes x =
    let (dc_nodes', node) = next dc_nodes in
    elim node [
      | none ↦ take_extra local_node k dc_nodes' x
      | some addr ↦ take_extra local_node k dc_nodes' (
          if addr == local_node || contains addr x.selected_nodes then x else record x {
            num_extra_nodes = x.num_extra_nodes - 1;
            selected_nodes = x.selected_nodes ++ addr ∷ [];
          })
    ]

-- The rest of a turn, with the node of the data center.
unfoldable pub push_node : SocketAddr → SocketAddr → NodeCycler → Selecting → NodeCycler × Selecting
unfolding take_extra
push_node local_node node dc_nodes x =
    let x' = record x { selected_nodes = x.selected_nodes ++ node ∷ [] } in
    let per_dc = x.num_extra_nodes / max (x.dc_count - 1) 1 in
    let (dc_nodes', y) = take_extra local_node per_dc dc_nodes x' in
    if x.num_extra_nodes == 0
    then (dc_nodes, x')
    else (dc_nodes', record y { dc_count = y.dc_count - 1 })

-- One turn of the loop over the data centers.
unfoldable pub select_dc : SocketAddr → NodeCycler → Selecting → Option (NodeCycler × Selecting)
unfolding push_node
select_dc local_node dc_nodes x =
    let skipped : Selecting = record x {
      num_extra_nodes = x.num_extra_nodes + 1;
      dc_count = x.dc_count - 1;
    } in
    let (after, first) = next dc_nodes in
    elim first [
      | none ↦ some (after, skipped)
      | some node ↦
          if node == local_node
          then if leb (len after) 1
            then some (after, skipped)
            else (let (again, second) = next after in
                second >>= λ other. some (push_node local_node other again x))
          else some (push_node local_node node after x)
    ]

-- The loop, which also writes the advanced cyclers back into the map.
unfoldable pub select_dcs :
    SocketAddr → DataCenters → Selecting → DataCenters → Option (DataCenters × Selecting)
unfolding select_dc
select_dcs local_node [] x dcs = some (dcs, x)
select_dcs local_node ((name, nodes) ∷ selected) x dcs =
    select_dc local_node nodes x >>= λ (nodes', y).
    select_dcs local_node selected y (BTreeMap.insert name nodes' dcs)

unfoldable pub without_local : Bool → DcName → DataCenters → DataCenters
without_local can_skip local_dc [] = []
without_local can_skip local_dc ((name, nodes) ∷ dcs) =
    let rest = without_local can_skip local_dc dcs in
    if can_skip && name == local_dc then rest else (name, nodes) ∷ rest

-- `a - b` on `usize`.
abbrev pub checked_sub : ℕ → ℕ → Option ℕ
checked_sub a b = if ltb a b then none else some (a - b)

unfoldable pub local_len : DcName → DataCenters → ℕ
local_len local_dc dcs = elim (get local_dc dcs) [ none ↦ 0 | some nodes ↦ len nodes ]

-- `choose_multiple` is the random choice of that many elements.
unfoldable pub select_n_nodes :
    (ℕ → DataCenters → DataCenters)
    → SocketAddr
    → DcName
    → ℕ
    → ℕ
    → DataCenters
    → Option (DataCenters × Result ConsistencyError Nodes)
unfolding select_dcs without_local local_len
select_n_nodes choose_multiple local_node local_dc n total_nodes dcs =
    checked_sub total_nodes (local_len local_dc dcs) >>= λ num_nodes_outside_dc.
    (let can_skip = leb n num_nodes_outside_dc in
      checked_sub (length dcs) (if can_skip then 1 else 0) >>= λ num_data_centers.
      (let eligible = without_local can_skip local_dc dcs in
        let few = leb num_data_centers n in
        let selected = if few then eligible else choose_multiple n eligible in
        let start : Selecting = record {
          num_extra_nodes = if few then n - num_data_centers else 0;
          dc_count = length selected;
          selected_nodes = [];
        } in
        select_dcs local_node selected start dcs >>= λ (dcs', x). some (
          dcs',
          if leb n (length x.selected_nodes)
              then ok x.selected_nodes
              else err (not_enough_nodes (length x.selected_nodes) n),
        )))

-- A result that leaves the data centers as they are.
abbrev keep :
    DataCenters
    → Option (Result ConsistencyError Nodes)
    → Option (DataCenters × Result ConsistencyError Nodes)
keep dcs answer = answer >>= λ res. some (dcs, res)

unfoldable pub select_nodes :
    (ℕ → DataCenters → DataCenters)
    → SocketAddr
    → DcName
    → ℕ
    → DataCenters
    → Consistency
    → Option (DataCenters × Result ConsistencyError Nodes)
unfolding select_n_nodes select_quorum select_local_quorum select_all select_each_quorum
select_nodes choose local_node local_dc total_nodes dcs one =
    select_n_nodes choose local_node local_dc 1 total_nodes dcs
select_nodes choose local_node local_dc total_nodes dcs two =
    select_n_nodes choose local_node local_dc 2 total_nodes dcs
select_nodes choose local_node local_dc total_nodes dcs three =
    select_n_nodes choose local_node local_dc 3 total_nodes dcs
select_nodes choose local_node local_dc total_nodes dcs quorum =
    keep dcs (select_quorum local_node total_nodes dcs)
select_nodes choose local_node local_dc total_nodes dcs local_quorum =
    some (dcs, ok (select_local_quorum local_node local_dc dcs))
select_nodes choose local_node local_dc total_nodes dcs all =
    some (dcs, ok (select_all local_node dcs))
select_nodes choose local_node local_dc total_nodes dcs each_quorum =
    some (dcs, ok (select_each_quorum local_node local_dc dcs))
select_nodes choose local_node local_dc total_nodes dcs no_replica = some (dcs, ok [])
