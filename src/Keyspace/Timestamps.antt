-- ===== src/Keyspace/Timestamps.antt =====
-- `KeyspaceTimestamps` and their comparison (datacake-eventual-consistency/src/keyspace/group.rs).
-- The map holds what the shared cells hold at the time of the call.
use datacake.Base.{
  ℕ, ◌+◌, Bool, true, false, not, ◌||◌, Option, none, some, List, [], ◌∷◌, ◌==◌, ==_iff,
  if◌then◌else◌, ◌≡◌, ◌≢◌, refl, arith, ◌↔◌, inl, inr, Bool-cases, Option-cases,
}
use datacake.Base.Ord.{nat_ord}
use datacake.Base.Assoc.{get, Unique}
use datacake.Base.HashMap
use datacake.Base.HashMap.{insert-Unique}
use datacake.Timestamp.Fields.{HlcTimestamp}
use datacake.Orswot.Versions.{contains}
use datacake.Keyspace.Storage.{Name}

abbrev pub KeyspaceTimestamps : Type 0
KeyspaceTimestamps = List (Name × HlcTimestamp)

-- The timestamp first met, how often the key was met, and whether another timestamp was met.
abbrev pub Processed : Type 0
Processed = List (Name × (HlcTimestamp × (ℕ × Bool)))

-- `and_modify(..).or_insert_with(..)`.
unfoldable pub bump : HlcTimestamp → Option (HlcTimestamp × (ℕ × Bool)) → HlcTimestamp × (ℕ × Bool)
bump val none = (val, (1, false))
bump val (some (v, (counter, is_diff))) = (v, (counter + 1, if v == val then is_diff else true))

-- One of the two loops.
unfoldable pub process : KeyspaceTimestamps → Processed → Processed
unfolding bump
process [] processed = processed
process ((key, val) ∷ rest) processed =
    process rest (HashMap.insert key (bump val (get key processed)) processed)

-- The `filter` and `map` at the end.
unfoldable pub changed_keys : Processed → List Name
changed_keys [] = []
changed_keys ((key, (v, (counter, is_diff))) ∷ rest) =
    let keys = changed_keys rest in if is_diff || not (counter == 2) then key ∷ keys else keys

unfoldable pub timestamps_diff : KeyspaceTimestamps → KeyspaceTimestamps → List Name
unfolding process changed_keys
timestamps_diff self other = changed_keys (process other (process self []))

get-process :
    (k : Name) (l : KeyspaceTimestamps) (m : Processed)
    → Unique l
    → get k (process l m) ≡ elim (get k l) [ none ↦ get k m | some v ↦ some (bump v (get k m)) ]
unfolding process get
get-process k [] m u = refl
get-process k ((j, v) ∷ l) m u = ground (
  arith,
  get-process k l (HashMap.insert j (bump v (get j m)) m) u.1,
  HashMap.get-insert k j (bump v (get j m)) m,
  ==_iff j k,
)

process-Unique : (l : KeyspaceTimestamps) (m : Processed) → Unique m → Unique (process l m)
unfolding process
process-Unique [] m u = u
process-Unique ((j, v) ∷ l) m u =
    process-Unique l (HashMap.insert j (bump v (get j m)) m)
      (insert-Unique j (bump v (get j m)) m u)

contains-changed_keys :
    (k : Name) (m : Processed)
    → Unique m
    → contains k (changed_keys m) ≡ elim (get k m) [
      | none ↦ false
      | some (v, (counter, is_diff)) ↦ is_diff || not (counter == 2)
    ]
unfolding changed_keys contains get
contains-changed_keys k [] u = refl
contains-changed_keys k ((j, (v, (c, d))) ∷ m) u =
    ground (arith, contains-changed_keys k m u.1, u.0, ==_iff j k)

-- A keyspace is reported exactly where the two sides differ on it: with another timestamp, or
-- known to one side only.
pub contains-timestamps_diff :
    (self other : KeyspaceTimestamps) (k : Name)
    → Unique self
    → Unique other
    → (contains k (timestamps_diff self other) ≡ true) ↔ (get k self ≢ get k other)
unfolding timestamps_diff bump get
contains-timestamps_diff self other k u w =
    let all = process other (process self []) in
    let listed =
      contains-changed_keys k all
        (process-Unique other (process self []) (process-Unique self [] tt)) in
    let theirs = get-process k other (process self []) w in
    let ours = get-process k self [] u in
    elim (Option-cases (get k self)) [
      | inl e ↦ elim (Option-cases (get k other)) [
        | inl f ↦ ground (arith, listed, theirs, ours)
        | inr (y, f) ↦ ground (arith, listed, theirs, ours)
      ]
      | inr (x, e) ↦ elim (Option-cases (get k other)) [
        | inl f ↦ ground (arith, listed, theirs, ours)
        | inr (y, f) ↦ elim (Bool-cases (x == y)) [
          | inl same ↦ ground (arith, listed, theirs, ours, (==_iff x y).0 same)
          | inr apart ↦ ground (arith, listed, theirs, ours)
        ]
      ]
    ]
