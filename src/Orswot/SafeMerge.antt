-- ===== src/Orswot/SafeMerge.antt =====
-- Safe versions: merges, and what counts as observed (datacake-crdt/src/orswot.rs).
use datacake.Base.{
  ℕ, zero, suc, ◌≡◌, refl, ap, true, none, some, List, [], ◌∷◌, if◌then◌else◌, arith, inl, inr,
  Option-cases, ◌≤◌, ◌<◌, ◌^◌, get_elem?,
}
use datacake.Base.Result.{◌>>=◌}
use datacake.Base.Ord.{nat_ord}
use datacake.Base.Assoc.{get}
use datacake.Timestamp.Fields.{HlcTimestamp, node, node_lem}
use datacake.Orswot.Observed.{HasSource, seen_by}
use datacake.Orswot.Safety.{
  Filed, AllFiled, first_stamp_lem, node-le, IsSafe, compute_safe_last_stamp-IsSafe, Grows,
  grow-IsSafe,
}
use datacake.Orswot.SafeUpdates.{update_source_grows, seen_of_some}
use datacake.Orswot.Versions.{
  NodeVersions, first_stamp, seen, compute_safe_last_stamp, update_source,
  is_ts_before_last_observed_event, merge_source, merge_sources, contains, collect_nodes,
  observed_nodes, compute_all, merge_versions, default_versions, replicate,
}

-- One stamp of the other side is merged as an update would write it.
merge_source-update_source :
    (n : ℕ) (ts : HlcTimestamp) (mine others : List (ℕ × HlcTimestamp))
    → node ts ≡ n
    → merge_source mine ((n, ts) ∷ others) ≡ merge_source (update_source ts mine).0 others
unfolding merge_source update_source
merge_source-update_source n ts mine others e =
    rw (← e) (ap (λ m. merge_source m others) (ground arith))

merge_source_grows :
    (others mine : List (ℕ × HlcTimestamp))
    → Filed others
    → Filed mine
    → Filed (merge_source mine others) × ((n : ℕ) → seen n mine ≤ seen n (merge_source mine others))
unfolding merge_source
merge_source_grows [] mine o f = (f, λ n. omega arith)
merge_source_grows ((n, ts) ∷ others) mine o f =
    let step = update_source_grows ts mine o.1 f in
    let rest = merge_source_grows others (update_source ts mine).0 o.2 step.0 in
    rw (merge_source-update_source n ts mine others o.0)
      (rest.0, λ k. omega (arith, step.1 k, rest.1 k))

merge_sources-AllFiled :
    (mine others : List (List (ℕ × HlcTimestamp)))
    → AllFiled mine
    → AllFiled others
    → AllFiled (merge_sources mine others)
unfolding merge_sources
merge_sources-AllFiled [] others f g = tt
merge_sources-AllFiled (m ∷ mine) [] f g = f
merge_sources-AllFiled (m ∷ mine) (o ∷ others) f g =
    ((merge_source_grows o m g.0 f.0).0, merge_sources-AllFiled mine others f.1 g.1)

merge_sources-Grows :
    (mine others : List (List (ℕ × HlcTimestamp)))
    → AllFiled mine
    → AllFiled others
    → Grows mine (merge_sources mine others)
unfolding merge_sources
merge_sources-Grows [] others f g i x e = (x, e, λ n. omega arith)
merge_sources-Grows (m ∷ mine) [] f g i x e = (x, e, λ n. omega arith)
merge_sources-Grows (m ∷ mine) (o ∷ others) f g zero x e =
    let same : merge_source m o ≡ x = cc in
    (m, refl, λ n. rw (← same) ((merge_source_grows o m g.0 f.0).1 n))
merge_sources-Grows (m ∷ mine) (o ∷ others) f g (suc i) x e =
    merge_sources-Grows mine others f.1 g.1 i x e

-- Every node collected is a byte.
abbrev Bytes : List ℕ → Type 0
Bytes [] = Unit
Bytes (n ∷ ns) = (n < 2 ^ 8) × Bytes ns

collect_nodes-Bytes :
    (m : List (ℕ × HlcTimestamp)) (ns : List ℕ) → Filed m → Bytes ns → Bytes (collect_nodes m ns)
unfolding collect_nodes
collect_nodes-Bytes [] ns f b = b
collect_nodes-Bytes ((n, ts) ∷ m) ns f b =
    collect_nodes-Bytes m (if contains n ns then ns else n ∷ ns) f.2 (ground (arith, node_lem ts))

observed_nodes-Bytes :
    (ms : List (List (ℕ × HlcTimestamp))) (ns : List ℕ)
    → AllFiled ms
    → Bytes ns
    → Bytes (observed_nodes ms ns)
unfolding observed_nodes
observed_nodes-Bytes [] ns f b = b
observed_nodes-Bytes (m ∷ ms) ns f b =
    observed_nodes-Bytes ms (collect_nodes m ns) f.1 (collect_nodes-Bytes m ns f.0 b)

compute_all-IsSafe :
    (ns : List ℕ) (v : NodeVersions) → Bytes ns → IsSafe v → IsSafe (compute_all ns v)
unfolding compute_all
compute_all-IsSafe [] v b h = h
compute_all-IsSafe (n ∷ ns) v b h =
    compute_all-IsSafe ns (compute_safe_last_stamp n v) b.1
      (compute_safe_last_stamp-IsSafe n v b.0 h)

-- A merge of safe versions is safe.
pub merge_versions-IsSafe : (v w : NodeVersions) → IsSafe v → IsSafe w → IsSafe (merge_versions v w)
unfolding merge_versions
merge_versions-IsSafe v w h k =
    let maxes' = merge_sources v.nodes_max_stamps w.nodes_max_stamps in
    compute_all-IsSafe (observed_nodes w.nodes_max_stamps [])
      (record v { nodes_max_stamps = maxes' })
      (observed_nodes-Bytes w.nodes_max_stamps [] k.filed tt)
      (grow-IsSafe v maxes'
        (merge_sources-AllFiled v.nodes_max_stamps w.nodes_max_stamps h.filed k.filed)
        (merge_sources-Grows v.nodes_max_stamps w.nodes_max_stamps h.filed k.filed) h)

replicate-AllFiled : (n : ℕ) → AllFiled (replicate n [])
replicate-AllFiled zero = tt
replicate-AllFiled (suc n) = (tt, replicate-AllFiled n)

pub default-IsSafe : (n : ℕ) → IsSafe (default_versions n)
unfolding default_versions get
default-IsSafe n = record { filed = replicate-AllFiled n; safe = λ k s i stamps e f. cc }

seen_of_none : (n : ℕ) (m : List (ℕ × HlcTimestamp)) → get n m ≡ none → seen n m ≡ first_stamp n
unfolding seen
seen_of_none n m e = ground arith

-- In safe versions a timestamp that counts as already observed is older than the last timestamp
-- that every single source has seen of its node.
pub lt-seen_by_of_observed :
    (v : NodeVersions) (ts : HlcTimestamp) (i : ℕ)
    → IsSafe v
    → is_ts_before_last_observed_event ts v ≡ true
    → HasSource i v
    → (last : HlcTimestamp) × (seen_by i (node ts) v ≡ some last) × (ts < last)
unfolding is_ts_before_last_observed_event seen_by
lt-seen_by_of_observed v ts i h before known =
    elim (Option-cases (get_elem? v.nodes_max_stamps i)) [
      | inl e ↦ absurd (known e)
      | inr (stamps, e) ↦ elim (Option-cases (get (node ts) v.safe_last_stamps)) [
        | inl f ↦ absurd (ground arith)
        | inr (s, f) ↦
            let le = h.safe (node ts) s i stamps f e in
            elim (Option-cases (get (node ts) stamps)) [
              | inl g ↦ absurd (
                  ground
                    (arith, seen_of_none (node ts) stamps g, first_stamp_lem (node ts), node-le ts))
              | inr (last, g) ↦
                  (last, rw (e, ◌>>=◌) g, ground (arith, seen_of_some (node ts) stamps last g))
            ]
      ]
    ]
