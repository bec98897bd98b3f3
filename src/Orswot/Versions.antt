-- ===== src/Orswot/Versions.antt =====
-- `NodeVersions`: the last timestamp seen of every node by every source, and of every node the
-- timestamp before which all sources have seen everything (datacake-crdt/src/orswot.rs).
use datacake.Base.{
  ℕ, zero, suc, ◌-◌, Bool, true, false, Option, none, some, List, [], ◌∷◌, ltb, min, if◌then◌else◌,
  get_elem?, set, ◌==◌,
}
use datacake.Base.Result.{◌>>=◌}
use datacake.Base.Ord.{nat_ord}
use datacake.Base.Assoc.{get}
use datacake.Base.BTreeMap.{insert}
use datacake.Timestamp.Fields.{
  Duration, HlcTimestamp, from_secs, pack, node, counter, datacake_timestamp,
}

pub record NodeVersions : Type 0 where
  pub nodes_max_stamps : List (List (ℕ × HlcTimestamp))
  pub safe_last_stamps : List (ℕ × HlcTimestamp)

-- `FORGIVENESS_PERIOD` outside of tests.
abbrev pub forgiveness_period : Duration
forgiveness_period = from_secs 3_600

abbrev pub replicate {ℓ} : {A : Type ℓ} → ℕ → A → List A
replicate zero a = []
replicate (suc n) a = a ∷ replicate n a

unfoldable pub default_versions : ℕ → NodeVersions
default_versions n = record { nodes_max_stamps = replicate n []; safe_last_stamps = [] }

-- `HLCTimestamp::new(Duration::from_secs(0), 0, node)`; its assertion holds.
unfoldable pub first_stamp : ℕ → HlcTimestamp
first_stamp n = pack 0 0 n

-- What one source has seen of a node.
unfoldable pub seen : ℕ → List (ℕ × HlcTimestamp) → HlcTimestamp
unfolding first_stamp
seen n stamps = elim (get n stamps) [ none ↦ first_stamp n | some ts ↦ ts ]

-- The minimum over the sources.
unfoldable pub min_stamp : ℕ → List (List (ℕ × HlcTimestamp)) → Option HlcTimestamp
min_stamp n [] = none
min_stamp n (stamps ∷ rest) =
    let below = min_stamp n rest in
    elim below [ none ↦ some (seen n stamps) | some m ↦ some (min (seen n stamps) m) ]

-- The minimum, an hour earlier. `HLCTimestamp::new` asserts that the seconds fit 32 bits, which
-- holds of what is left of any `u64`.
unfoldable pub safe_stamp : HlcTimestamp → HlcTimestamp
safe_stamp m = pack (datacake_timestamp m - forgiveness_period) (counter m) (node m)

unfoldable pub compute_safe_last_stamp : ℕ → NodeVersions → NodeVersions
unfolding min_stamp safe_stamp
compute_safe_last_stamp n v = elim (min_stamp n v.nodes_max_stamps) [
  | none ↦ v
  | some m ↦ record v { safe_last_stamps = insert n (safe_stamp m) v.safe_last_stamps }
]

-- The write of the new maximum, and whether it was made. An equal stamp is written again.
unfoldable pub update_source :
    HlcTimestamp → List (ℕ × HlcTimestamp) → List (ℕ × HlcTimestamp) × Bool
update_source ts stamps = elim (get (node ts) stamps) [
  | none ↦ (insert (node ts) ts stamps, true)
  | some old ↦ if ltb ts old then (stamps, false) else (insert (node ts) ts stamps, true)
]

unfoldable pub try_update_max_stamp : ℕ → HlcTimestamp → NodeVersions → Option (NodeVersions × Bool)
unfolding update_source compute_safe_last_stamp
try_update_max_stamp source ts v = get_elem? v.nodes_max_stamps source >>= λ stamps.
    (let (stamps', updated) = update_source ts stamps in
      some (
        compute_safe_last_stamp (node ts)
            (record v { nodes_max_stamps = set v.nodes_max_stamps source stamps' }),
        updated,
      ))

unfoldable pub is_ts_before_last_observed_event : HlcTimestamp → NodeVersions → Bool
is_ts_before_last_observed_event ts v = elim (get (node ts) v.safe_last_stamps) [
  | none ↦ false
  | some last ↦ ltb ts last
]

-- The loop over the stamps of one source.
unfoldable pub merge_source :
    List (ℕ × HlcTimestamp) → List (ℕ × HlcTimestamp) → List (ℕ × HlcTimestamp)
merge_source existing [] = existing
merge_source existing ((n, ts) ∷ others) =
    merge_source
      (elim (get n existing) [
        | none ↦ insert n ts existing
        | some old ↦ if ltb ts old then existing else insert n ts existing
      ])
      others

-- The loop over the sources. Both arrays have N elements.
unfoldable pub merge_sources :
    List (List (ℕ × HlcTimestamp)) → List (List (ℕ × HlcTimestamp)) → List (List (ℕ × HlcTimestamp))
unfolding merge_source
merge_sources (mine ∷ rest) (others ∷ more) = merge_source mine others ∷ merge_sources rest more
merge_sources mine others = mine

-- The `HashSet` of the nodes that the other side knows of.
unfoldable pub contains : ℕ → List ℕ → Bool
contains n [] = false
contains n (m ∷ ms) = let rest = contains n ms in if m == n then true else rest

unfoldable pub collect_nodes : List (ℕ × HlcTimestamp) → List ℕ → List ℕ
unfolding contains
collect_nodes [] nodes = nodes
collect_nodes ((n, ts) ∷ others) nodes =
    collect_nodes others (if contains n nodes then nodes else n ∷ nodes)

unfoldable pub observed_nodes : List (List (ℕ × HlcTimestamp)) → List ℕ → List ℕ
unfolding collect_nodes
observed_nodes [] nodes = nodes
observed_nodes (others ∷ rest) nodes = observed_nodes rest (collect_nodes others nodes)

unfoldable pub compute_all : List ℕ → NodeVersions → NodeVersions
compute_all [] v = v
compute_all (n ∷ nodes) v = compute_all nodes (compute_safe_last_stamp n v)

unfoldable pub merge_versions : NodeVersions → NodeVersions → NodeVersions
unfolding merge_sources observed_nodes compute_all
merge_versions v other =
    compute_all (observed_nodes other.nodes_max_stamps [])
      (record v { nodes_max_stamps = merge_sources v.nodes_max_stamps other.nodes_max_stamps })
