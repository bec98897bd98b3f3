-- ===== src/Orswot/Safety.antt =====
-- The stamps of the versions that are called safe (datacake-crdt/src/orswot.rs).
use Prim.Native.Nat.{bit_or-bitwise}
use datacake.Base.{
  ℕ, zero, suc, ◌≡◌, refl, none, some, List, [], ◌∷◌, if◌then◌else◌, arith, inl, inr, ◌==◌, ==_iff,
  Bool-cases, Option-cases, ◌≤◌, ◌<◌, ◌^◌, get_elem?, ◌-◌,
}
use datacake.Base.Ord.{nat_ord}
use datacake.Base.Assoc.{get}
use datacake.Base.BTreeMap
use datacake.Timestamp.Fields.{
  HlcTimestamp, node, counter, pack, pack_lem, datacake_timestamp, node_lem, fields, as_secs,
}
use datacake.Timestamp.Layout.{datacake_timestamp_lem}
use datacake.Orswot.Observed.{compute_safe_maxes}
use datacake.Orswot.Versions.{
  NodeVersions, first_stamp, seen, min_stamp, safe_stamp, forgiveness_period,
  compute_safe_last_stamp,
}

-- The stamps of a source are filed under their nodes, and fit a word.
abbrev pub Filed : List (ℕ × HlcTimestamp) → Type 0
Filed [] = Unit
Filed ((n, last) ∷ m) = (node last ≡ n) × (last < 2 ^ 64) × Filed m

abbrev pub AllFiled : List (List (ℕ × HlcTimestamp)) → Type 0
AllFiled [] = Unit
AllFiled (stamps ∷ rest) = Filed stamps × AllFiled rest

pub Filed-insert :
    (n : ℕ) (ts : HlcTimestamp) (m : List (ℕ × HlcTimestamp))
    → node ts ≡ n
    → ts < 2 ^ 64
    → Filed m
    → Filed (BTreeMap.insert n ts m)
unfolding BTreeMap.insert
Filed-insert n ts [] e h f = (e, h, tt)
Filed-insert n ts ((j, last) ∷ m) e h f = ground (arith, Filed-insert n ts m e h f.2)

pub get-Filed :
    (n : ℕ) (m : List (ℕ × HlcTimestamp)) (last : HlcTimestamp)
    → Filed m
    → get n m ≡ some last
    → (node last ≡ n) × (last < 2 ^ 64)
unfolding get
get-Filed n [] last f e = cc
get-Filed n ((j, ts) ∷ m) last f e = ground (arith, get-Filed n m last f.2, ==_iff j n)

pub first_stamp_lem : (n : ℕ) → first_stamp n ≡ n
unfolding first_stamp pack
first_stamp_lem n = bit_or-bitwise 0 n

pub node-le : (t : HlcTimestamp) → node t ≤ t
node-le t = omega (arith, node_lem t)

-- The stamp that is an hour earlier is not later.
safe_stamp-le : (m : HlcTimestamp) → m < 2 ^ 64 → safe_stamp m ≤ m
unfolding safe_stamp
safe_stamp-le m h = omega (
  arith,
  fields,
  datacake_timestamp_lem m,
  pack_lem (datacake_timestamp m - forgiveness_period) (counter m) (node m),
)

-- The assertion of `HLCTimestamp::new` holds there.
pub safe_stamp_secs :
    (m : HlcTimestamp) → m < 2 ^ 64 → as_secs (datacake_timestamp m - forgiveness_period) < 2 ^ 32
safe_stamp_secs m h = omega (arith, datacake_timestamp_lem m)

min_stamp-none :
    (n : ℕ) (maxes : List (List (ℕ × HlcTimestamp))) (i : ℕ)
    → min_stamp n maxes ≡ none
    → get_elem? maxes i ≡ none
unfolding min_stamp
min_stamp-none n [] i e = refl
min_stamp-none n (stamps ∷ rest) i e = absurd (ground arith)

min_stamp-le :
    (n : ℕ) (maxes : List (List (ℕ × HlcTimestamp))) (m : HlcTimestamp) (i : ℕ)
    (stamps : List (ℕ × HlcTimestamp))
    → min_stamp n maxes ≡ some m
    → get_elem? maxes i ≡ some stamps
    → m ≤ seen n stamps
unfolding min_stamp
min_stamp-le n [] m i stamps e h = absurd (ground arith)
min_stamp-le n (first ∷ rest) m zero stamps e h = ground arith
min_stamp-le n (first ∷ rest) m (suc i) stamps e h = elim (Option-cases (min_stamp n rest)) [
  | inl none_left ↦ absurd (ground (arith, min_stamp-none n rest i none_left))
  | inr (m', some_left) ↦ ground (arith, min_stamp-le n rest m' i stamps some_left h)
]

seen-lt :
    (n : ℕ) (stamps : List (ℕ × HlcTimestamp)) → n < 2 ^ 8 → Filed stamps → seen n stamps < 2 ^ 64
unfolding seen
seen-lt n stamps b f = elim (Option-cases (get n stamps)) [
  | inl e ↦ ground (arith, first_stamp_lem n)
  | inr (last, e) ↦ ground (arith, get-Filed n stamps last f e)
]

min_stamp-lt :
    (n : ℕ) (maxes : List (List (ℕ × HlcTimestamp))) (m : HlcTimestamp)
    → n < 2 ^ 8
    → AllFiled maxes
    → min_stamp n maxes ≡ some m
    → m < 2 ^ 64
unfolding min_stamp
min_stamp-lt n [] m b f e = absurd (ground arith)
min_stamp-lt n (stamps ∷ rest) m b f e = ground (arith, seen-lt n stamps b f.0)

-- Every safe stamp is at or before what each source has seen of its node.
pub record IsSafe (v : NodeVersions) : Type 0 where
  pub filed : AllFiled v.nodes_max_stamps
  pub safe :
      (n : ℕ) (s : HlcTimestamp) (i : ℕ) (stamps : List (ℕ × HlcTimestamp))
      → get n v.safe_last_stamps ≡ some s
      → get_elem? v.nodes_max_stamps i ≡ some stamps
      → s ≤ seen n stamps

get-compute_safe :
    (n k : ℕ) (v : NodeVersions)
    → get k (compute_safe_last_stamp n v).safe_last_stamps ≡ elim (min_stamp n v.nodes_max_stamps) [
      | none ↦ get k v.safe_last_stamps
      | some m ↦ if n == k then some (safe_stamp m) else get k v.safe_last_stamps
    ]
unfolding compute_safe_last_stamp
get-compute_safe n k v = elim (Option-cases (min_stamp n v.nodes_max_stamps)) [
  | inl e ↦ ground arith
  | inr (m, e) ↦ ground (arith, BTreeMap.get-insert k n (safe_stamp m) v.safe_last_stamps)
]

safe-compute_safe :
    (n : ℕ) (v : NodeVersions) (k : ℕ) (s : HlcTimestamp) (i : ℕ) (stamps : List (ℕ × HlcTimestamp))
    → n < 2 ^ 8
    → IsSafe v
    → get k (compute_safe_last_stamp n v).safe_last_stamps ≡ some s
    → get_elem? v.nodes_max_stamps i ≡ some stamps
    → s ≤ seen k stamps
safe-compute_safe n v k s i stamps b h e f = elim (Option-cases (min_stamp n v.nodes_max_stamps)) [
  | inl none_left ↦ h.safe k s i stamps (ground (arith, get-compute_safe n k v)) f
  | inr (m, some_left) ↦
      let small = min_stamp-lt n v.nodes_max_stamps m b h.filed some_left in
      elim (Bool-cases (n == k)) [
        | inl same ↦ ground (
          arith,
          get-compute_safe n k v,
          (==_iff n k).0 same,
          safe_stamp-le m small,
          min_stamp-le n v.nodes_max_stamps m i stamps some_left f,
        )
        | inr other ↦ h.safe k s i stamps (ground (arith, get-compute_safe n k v)) f
      ]
]

pub compute_safe_last_stamp-IsSafe :
    (n : ℕ) (v : NodeVersions) → n < 2 ^ 8 → IsSafe v → IsSafe (compute_safe_last_stamp n v)
compute_safe_last_stamp-IsSafe n v b h = record {
  filed = rw (compute_safe_maxes n v) h.filed;
  safe = λ k s i stamps e f.
      safe-compute_safe n v k s i stamps b h e (rw (compute_safe_maxes n v) at f);
}

-- Sources that only learn more keep the versions safe.
abbrev pub Grows : List (List (ℕ × HlcTimestamp)) → List (List (ℕ × HlcTimestamp)) → Type 0
Grows maxes maxes' =
    (i : ℕ) (stamps' : List (ℕ × HlcTimestamp))
    → get_elem? maxes' i ≡ some stamps'
    → (stamps : List (ℕ × HlcTimestamp)) × (get_elem? maxes i ≡ some stamps)
      × ((n : ℕ) → seen n stamps ≤ seen n stamps')

pub grow-IsSafe :
    (v : NodeVersions) (maxes' : List (List (ℕ × HlcTimestamp)))
    → AllFiled maxes'
    → Grows v.nodes_max_stamps maxes'
    → IsSafe v
    → IsSafe (record v { nodes_max_stamps = maxes' })
grow-IsSafe v maxes' f g h = record {
  filed = f;
  safe = λ n s i stamps' e e'.
      let (stamps, known, le) = g i stamps' e' in omega (arith, h.safe n s i stamps e known, le n);
}

pub seen-insert :
    (k n : ℕ) (ts : HlcTimestamp) (m : List (ℕ × HlcTimestamp))
    → seen k (BTreeMap.insert n ts m) ≡ (if n == k then ts else seen k m)
unfolding seen
seen-insert k n ts m = ground (arith, BTreeMap.get-insert k n ts m)

pub insert_grows :
    (k n : ℕ) (ts : HlcTimestamp) (m : List (ℕ × HlcTimestamp))
    → seen n m ≤ ts
    → seen k m ≤ seen k (BTreeMap.insert n ts m)
insert_grows k n ts m h = ground (arith, seen-insert k n ts m, ==_iff n k)
