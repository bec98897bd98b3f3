-- ===== src/Tests/Selectors.antt =====
-- The node selector on concrete inputs.
use datacake.Base.{ℕ, ◌≡◌, refl, none, some, List, [], ◌∷◌, arith}
use datacake.Base.Result.{ok, err}
use datacake.Base.Ord.{nat_ord}
use datacake.Base.Assoc.{get}
use datacake.Base.BTreeMap
use datacake.Base.HashMap
use datacake.Orswot.Versions.{contains}
use datacake.Selector.Cycler.{Nodes, cycler_of, next, len}
use datacake.Selector.Select.{
  not_enough_nodes, two, quorum, DataCenters, select_nodes, select_quorum, select_all, others,
  select_n_nodes, select_dcs, without_local, local_len,
}
use datacake.Selector.Quorum
use datacake.Selector.Actor
use datacake.Selector.Actor.{Selector, count_nodes, set_nodes, get_nodes, refresh}

program : Unit {0}
unfolding cycler_of next len select_nodes select_quorum select_all others select_n_nodes count_nodes
    set_nodes get_nodes refresh contains get BTreeMap.insert HashMap.insert select_dcs without_local
    local_len
program = tt

-- Three data centers; the local node is 11 in data center 1.
abbrev dcs : DataCenters
dcs =
    (1, cycler_of (11 ∷ 12 ∷ 13 ∷ []))
    ∷ (2, cycler_of (21 ∷ 22 ∷ []))
    ∷ (3, cycler_of (31 ∷ []))
    ∷ []

abbrev choose : ℕ → DataCenters → DataCenters
choose n dcs = dcs

quorum_test : select_quorum 11 6 dcs ≡ some (ok (12 ∷ 21 ∷ 31 ∷ []))
unfolding program
quorum_test = refl

-- Three replicas without the local data center: one of each other one, then one more of the second.
three_test :
    select_n_nodes choose 11 1 3 6 dcs
    ≡ some (
      (1, cycler_of (11 ∷ 12 ∷ 13 ∷ []))
          ∷ (2, record { cursor = 2; nodes = 21 ∷ 22 ∷ [] })
          ∷ (3, record { cursor = 1; nodes = 31 ∷ [] })
          ∷ [],
      ok (21 ∷ 22 ∷ 31 ∷ []),
    )
unfolding program
three_test = refl

-- More replicas than other nodes.
short_test : select_quorum 11 14 dcs ≡ some (err (not_enough_nodes 5 7))
unfolding program
short_test = refl

abbrev selector : Selector
selector = record { total_nodes = 6; data_centers = dcs; cached_nodes = [] }

-- Once the cluster has shrunk to the third data center, the first two stay selectable.
abbrev new_nodes : List (ℕ × Nodes)
new_nodes = (3, 31 ∷ []) ∷ []

set_nodes_lem_example :
    let self' = set_nodes new_nodes selector in
    (get 2 self'.data_centers ≡ elim (get 2 new_nodes) [
      | none ↦ get 2 selector.data_centers
      | some nodes ↦ some (cycler_of nodes)
    ])
    × (self'.total_nodes ≡ count_nodes new_nodes)
    × (self'.cached_nodes ≡ [])
unfolding program
set_nodes_lem_example = Actor.set_nodes_lem new_nodes selector 2 (refl, tt)

-- The total is then below the size of the local data center, and its subtraction overflows.
overflow_test : get_nodes choose 11 1 0 0 two (set_nodes new_nodes selector) ≡ none
unfolding program
overflow_test = refl

abbrev asked : Selector
asked = record {
  total_nodes = 6;
  data_centers = dcs;
  cached_nodes = (4, (500, 12 ∷ 21 ∷ 31 ∷ [])) ∷ [];
}

asked_test : refresh choose 11 1 500 quorum selector ≡ some (asked, ok (12 ∷ 21 ∷ 31 ∷ []))
unfolding program
asked_test = refl

get_nodes_again_example :
    get_nodes choose 11 1 900 901 quorum asked ≡ some (asked, ok (12 ∷ 21 ∷ 31 ∷ []))
get_nodes_again_example =
    Actor.get_nodes_again choose 11 1 500 900 901 quorum selector asked_test (omega arith)
