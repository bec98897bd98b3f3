-- ===== src/Selector/Cycler.antt =====
-- `NodeCycler`: the nodes of a data center, handed out in turn (datacake-node/src/nodes_selector.rs).
use datacake.Base.{ℕ, ◌+◌, Option, List, ◌++◌, leb, if◌then◌else◌, length, get_elem?}

abbrev pub SocketAddr : Type 0
SocketAddr = ℕ

abbrev pub Nodes : Type 0
Nodes = List SocketAddr

pub record NodeCycler : Type 0 where
  pub cursor : ℕ
  pub nodes : Nodes

unfoldable pub cycler_of : Nodes → NodeCycler
cycler_of nodes = record { cursor = 0; nodes = nodes }

unfoldable pub extend : Nodes → NodeCycler → NodeCycler
extend more self = record self { nodes = self.nodes ++ more }

unfoldable pub len : NodeCycler → ℕ
len self = length self.nodes

-- `Iterator::next`.
unfoldable pub next : NodeCycler → NodeCycler × Option SocketAddr
next self =
    let cursor = if leb (length self.nodes) self.cursor then 0 else self.cursor in
    (record self { cursor = cursor + 1 }, get_elem? self.nodes cursor)
