-- ===== src/Orswot/Observed.antt =====
-- What `try_update_max_stamp` records and accepts (datacake-crdt/src/orswot.rs).
use datacake.Base.{
  ℕ, zero, suc, ◌≡◌, refl, true, Option, none, some, List, [], ◌∷◌, ◌&&◌, if◌then◌else◌, arith, inl,
  inr, ◌≤◌, ◌==◌, ==_iff, ◌≢◌, Option-cases, get_elem?, set,
}
use datacake.Base.Result.{◌>>=◌}
use datacake.Base.Ord.{nat_ord}
use datacake.Base.Assoc.{get}
use datacake.Base.BTreeMap
use datacake.Timestamp.Fields.{HlcTimestamp, node}
use datacake.Orswot.Versions.{
  NodeVersions, compute_safe_last_stamp, update_source, try_update_max_stamp,
}

pub get_elem?-set {ℓ} :
    {A : Type ℓ} (xs : List A) (i j : ℕ) (x y : A)
    → get_elem? xs i ≡ some x
    → get_elem? (set xs i y) j ≡ (if i == j then some y else get_elem? xs j)
get_elem?-set [] i j x y h = absurd (ground arith)
get_elem?-set (z ∷ xs) zero zero x y h = refl
get_elem?-set (z ∷ xs) zero (suc j) x y h = ground arith
get_elem?-set (z ∷ xs) (suc i) zero x y h = ground arith
get_elem?-set (z ∷ xs) (suc i) (suc j) x y h = ground (arith, get_elem?-set xs i j x y h)

-- The last timestamp that a source has seen of a node.
unfoldable pub seen_by : ℕ → ℕ → NodeVersions → Option HlcTimestamp
seen_by source n v = get_elem? v.nodes_max_stamps source >>= get n

pub compute_safe_maxes :
    (n : ℕ) (v : NodeVersions) → (compute_safe_last_stamp n v).nodes_max_stamps ≡ v.nodes_max_stamps
unfolding compute_safe_last_stamp
compute_safe_maxes n v = ground arith

-- The versions know the source.
abbrev pub HasSource : ℕ → NodeVersions → Type 0
HasSource source v = get_elem? v.nodes_max_stamps source ≢ none

update_source_accepts :
    (ts : HlcTimestamp) (stamps : List (ℕ × HlcTimestamp))
    → ((last : HlcTimestamp) → get (node ts) stamps ≡ some last → last ≤ ts)
    → update_source ts stamps ≡ (BTreeMap.insert (node ts) ts stamps, true)
unfolding update_source
update_source_accepts ts stamps newer = elim (Option-cases (get (node ts) stamps)) [
  | inl e ↦ ground arith
  | inr (last, e) ↦ ground (arith, newer last e)
]

-- The versions after a timestamp has been accepted.
accepted : ℕ → HlcTimestamp → List (ℕ × HlcTimestamp) → NodeVersions → NodeVersions
accepted source ts stamps v = compute_safe_last_stamp (node ts) (record v {
  nodes_max_stamps = set v.nodes_max_stamps source (BTreeMap.insert (node ts) ts stamps);
})

seen_by-accepted :
    (source : ℕ) (ts : HlcTimestamp) (stamps : List (ℕ × HlcTimestamp)) (v : NodeVersions) (i n : ℕ)
    → get_elem? v.nodes_max_stamps source ≡ some stamps
    → seen_by i n (accepted source ts stamps v)
      ≡ (if source == i && node ts == n then some ts else seen_by i n v)
unfolding seen_by accepted
seen_by-accepted source ts stamps v i n e = rw (compute_safe_maxes (node ts) _) (
    ground (
      arith,
      get_elem?-set v.nodes_max_stamps source i stamps (BTreeMap.insert (node ts) ts stamps) e,
      BTreeMap.get-insert n (node ts) ts stamps,
      ==_iff source i,
    ))

HasSource-accepted :
    (source : ℕ) (ts : HlcTimestamp) (stamps : List (ℕ × HlcTimestamp)) (v : NodeVersions) (i : ℕ)
    → get_elem? v.nodes_max_stamps source ≡ some stamps
    → HasSource i v
    → HasSource i (accepted source ts stamps v)
unfolding accepted
HasSource-accepted source ts stamps v i e h = rw (compute_safe_maxes (node ts) _) (
    ground (
      arith,
      get_elem?-set v.nodes_max_stamps source i stamps (BTreeMap.insert (node ts) ts stamps) e,
    ))

-- A timestamp that is not older than the last one of its node by the source is accepted and
-- recorded.
pub try_update_accepts :
    (source : ℕ) (ts : HlcTimestamp) (v : NodeVersions)
    → HasSource source v
    → ((last : HlcTimestamp) → seen_by source (node ts) v ≡ some last → last ≤ ts)
    → (v' : NodeVersions) × (try_update_max_stamp source ts v ≡ some (v', true))
      × ((i n : ℕ)
          → seen_by i n v' ≡ (if source == i && node ts == n then some ts else seen_by i n v))
      × ((i : ℕ) → HasSource i v → HasSource i v')
unfolding try_update_max_stamp seen_by accepted
try_update_accepts source ts v known newer =
    elim (Option-cases (get_elem? v.nodes_max_stamps source)) [
      | inl e ↦ absurd (known e)
      | inr (stamps, e) ↦
          let fresh : (last : HlcTimestamp) → get (node ts) stamps ≡ some last → last ≤ ts =
            λ last h. newer last (rw e h) in
          (
            accepted source ts stamps v,
            rw (e, ◌>>=◌) (rw (update_source_accepts ts stamps fresh)),
            (λ i n. seen_by-accepted source ts stamps v i n e),
            (λ i h. HasSource-accepted source ts stamps v i e h),
          )
    ]
