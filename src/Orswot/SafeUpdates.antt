-- ===== src/Orswot/SafeUpdates.antt =====
-- Safe versions: updates (datacake-crdt/src/orswot.rs).
use mathlib.Core.Path.{subst}
use datacake.Base.{
  ℕ, zero, suc, ◌≡◌, refl, Bool, none, some, List, [], ◌∷◌, arith, inl, inr, ◌==◌, ==_iff,
  Bool-cases, Option-cases, ◌≤◌, ◌<◌, ◌^◌, get_elem?, set,
}
use datacake.Base.Result.{◌>>=◌}
use datacake.Base.Ord.{nat_ord}
use datacake.Base.Assoc.{get}
use datacake.Timestamp.Fields.{HlcTimestamp, node, node_lem}
use datacake.Orswot.Observed.{get_elem?-set}
use datacake.Orswot.Safety.{
  Filed, AllFiled, Filed-insert, first_stamp_lem, node-le, IsSafe, compute_safe_last_stamp-IsSafe,
  Grows, grow-IsSafe, insert_grows,
}
use datacake.Orswot.Versions.{
  NodeVersions, seen, compute_safe_last_stamp, update_source, try_update_max_stamp,
}

seen-le_of_none :
    (ts : HlcTimestamp) (m : List (ℕ × HlcTimestamp))
    → get (node ts) m ≡ none
    → seen (node ts) m ≤ ts
unfolding seen
seen-le_of_none ts m e = ground (arith, first_stamp_lem (node ts), node-le ts)

pub seen_of_some :
    (n : ℕ) (m : List (ℕ × HlcTimestamp)) (last : HlcTimestamp)
    → get n m ≡ some last
    → seen n m ≡ last
unfolding seen
seen_of_some n m last e = ground arith

-- A write of a source files the stamp, and lowers nothing.
pub update_source_grows :
    (ts : HlcTimestamp) (m : List (ℕ × HlcTimestamp))
    → ts < 2 ^ 64
    → Filed m
    → Filed (update_source ts m).0 × ((n : ℕ) → seen n m ≤ seen n (update_source ts m).0)
unfolding update_source
update_source_grows ts m b f = elim (Option-cases (get (node ts) m)) [
  | inl e ↦ (
    ground (arith, Filed-insert (node ts) ts m refl b f),
    λ n. ground (arith, insert_grows n (node ts) ts m (seen-le_of_none ts m e)),
  )
  | inr (last, e) ↦
      let old = seen_of_some (node ts) m last e in
      (
        ground (arith, Filed-insert (node ts) ts m refl b f),
        λ n. ground (arith, old, insert_grows n (node ts) ts m),
      )
]

set-AllFiled :
    (maxes : List (List (ℕ × HlcTimestamp))) (i : ℕ) (m : List (ℕ × HlcTimestamp))
    → AllFiled maxes
    → Filed m
    → AllFiled (set maxes i m)
set-AllFiled [] i m a f = tt
set-AllFiled (x ∷ xs) zero m a f = (f, a.1)
set-AllFiled (x ∷ xs) (suc i) m a f = (a.0, set-AllFiled xs i m a.1 f)

get-AllFiled :
    (maxes : List (List (ℕ × HlcTimestamp))) (i : ℕ) (m : List (ℕ × HlcTimestamp))
    → AllFiled maxes
    → get_elem? maxes i ≡ some m
    → Filed m
get-AllFiled [] i m a e = absurd (ground arith)
get-AllFiled (x ∷ xs) zero m a e = let same : x ≡ m = cc in subst Filed same a.0
get-AllFiled (x ∷ xs) (suc i) m a e = get-AllFiled xs i m a.1 e

set-Grows :
    (maxes : List (List (ℕ × HlcTimestamp))) (source : ℕ) (m m' : List (ℕ × HlcTimestamp))
    → get_elem? maxes source ≡ some m
    → ((n : ℕ) → seen n m ≤ seen n m')
    → Grows maxes (set maxes source m')
set-Grows maxes source m m' e le i x h = elim (Bool-cases (source == i)) [
  | inl here ↦
      let new : x ≡ m' = ground (arith, get_elem?-set maxes source i m m' e) in
      (m, ground (arith, (==_iff source i).0 here), λ n. rw new (le n))
  | inr away ↦ (x, ground (arith, get_elem?-set maxes source i m m' e), λ n. omega arith)
]

-- The versions after an update.
updated : ℕ → HlcTimestamp → List (ℕ × HlcTimestamp) → NodeVersions → NodeVersions
updated source ts m v =
    compute_safe_last_stamp (node ts)
      (record v { nodes_max_stamps = set v.nodes_max_stamps source (update_source ts m).0 })

try_update-updated :
    (source : ℕ) (ts : HlcTimestamp) (v : NodeVersions) (m : List (ℕ × HlcTimestamp))
    → get_elem? v.nodes_max_stamps source ≡ some m
    → try_update_max_stamp source ts v ≡ some (updated source ts m v, (update_source ts m).1)
unfolding try_update_max_stamp updated
try_update-updated source ts v m known = rw (known, ◌>>=◌)

updated-IsSafe :
    (source : ℕ) (ts : HlcTimestamp) (v : NodeVersions) (m : List (ℕ × HlcTimestamp))
    → ts < 2 ^ 64
    → IsSafe v
    → get_elem? v.nodes_max_stamps source ≡ some m
    → IsSafe (updated source ts m v)
unfolding updated
updated-IsSafe source ts v m h safe known =
    let m' = (update_source ts m).0 in
    let g =
      update_source_grows ts m h (get-AllFiled v.nodes_max_stamps source m safe.filed known) in
    let maxes' = set v.nodes_max_stamps source m' in
    compute_safe_last_stamp-IsSafe (node ts) (record v { nodes_max_stamps = maxes' })
      (omega (arith, node_lem ts))
      (grow-IsSafe v maxes' (set-AllFiled v.nodes_max_stamps source m' safe.filed g.0)
        (set-Grows v.nodes_max_stamps source m m' known g.1) safe)

-- An update with a timestamp that fits a word keeps the versions safe, accepted or not.
pub try_update-IsSafe :
    (source : ℕ) (ts : HlcTimestamp) (v : NodeVersions) {v' : NodeVersions} {b : Bool}
    → ts < 2 ^ 64
    → IsSafe v
    → try_update_max_stamp source ts v ≡ some (v', b)
    → IsSafe v'
try_update-IsSafe source ts v {v'} {b} h safe e =
    elim (Option-cases (get_elem? v.nodes_max_stamps source)) [
      | inl unknown ↦ absurd (unfold try_update_max_stamp in ground arith)
      | inr (m, known) ↦
          let same : updated source ts m v ≡ v' = cc (try_update-updated source ts v m known) in
          subst IsSafe same (updated-IsSafe source ts v m h safe known)
    ]
