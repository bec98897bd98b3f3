-- ===== src/Selector/Quorum.antt =====
-- The selection of a quorum against the eligible nodes (datacake-node/src/nodes_selector.rs).
use datacake.Base.{
  ℕ, ◌+◌, ◌≡◌, refl, ◌∙◌, false, ◌||◌, Option, some, List, [], ◌∷◌, ◌++◌, ◌==◌, if◌then◌else◌,
  length, arith, ◌⊎◌, ◌≤◌, ◌<◌,
}
use datacake.Base.Result.{Result, ok, err}
use datacake.Orswot.Versions.{contains}
use datacake.Selector.Cycler.{SocketAddr, Nodes}
use datacake.Selector.Select.{ConsistencyError, not_enough_nodes, DataCenters, others, select_all}

-- How often a node is listed.
abbrev pub count : SocketAddr → Nodes → ℕ
count a [] = 0
count a (x ∷ xs) = (if x == a then 1 else 0) + count a xs

contains-append :
    (a : SocketAddr) (xs ys : Nodes) → contains a (xs ++ ys) ≡ contains a xs || contains a ys
unfolding contains
contains-append a [] ys = refl
contains-append a (x ∷ xs) ys = ground (arith, contains-append a xs ys)

abbrev left_over : List Nodes → Nodes
left_over [] = []
left_over (iter ∷ iters) = iter ++ left_over iters

-- The answer of the loop from what is selected and what is left.
abbrev Answer : ℕ → List Nodes → Nodes → Option (Result ConsistencyError Nodes) → Type 0
Answer majority iters selected answer =
    ((nodes : Nodes) × (answer ≡ some (ok nodes))
      × (majority ≤ length nodes)
      × (length nodes ≤ length selected + length (left_over iters))
      × ((a : SocketAddr) → count a nodes ≤ count a selected + count a (left_over iters)))
    ⊎ ((answer
          ≡ some (err (not_enough_nodes (length selected + length (left_over iters)) majority)))
        × (length selected + length (left_over iters) < majority))

others-local :
    (local_node : SocketAddr) (nodes : Nodes)
    → contains local_node (others local_node nodes) ≡ false
unfolding others contains
others-local local_node [] = refl
others-local local_node (addr ∷ nodes) = ground (arith, others-local local_node nodes)

-- The local node is never among all the others.
pub select_all-local :
    (local_node : SocketAddr) (dcs : DataCenters)
    → contains local_node (select_all local_node dcs) ≡ false
unfolding select_all contains
select_all-local local_node [] = refl
select_all-local local_node ((name, nodes) ∷ dcs) =
    contains-append local_node (others local_node nodes.nodes) (select_all local_node dcs)
    ∙ ground (arith, others-local local_node nodes.nodes, select_all-local local_node dcs)
