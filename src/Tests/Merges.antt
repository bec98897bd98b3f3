-- ===== src/Tests/Merges.antt =====
-- Merges and diffs on concrete inputs.
use datacake.Base.{ℕ, ◌+◌, ◌*◌, ◌^◌, ◌≡◌, refl, none, [], ◌∷◌, arith, ◌↔◌}
use datacake.Base.Ord.{nat_ord}
use datacake.Base.Assoc
use datacake.Base.Assoc.{get}
use datacake.Base.BTreeMap
use datacake.Base.HashMap
use datacake.Base.Sort
use datacake.Timestamp.Fields.{HlcTimestamp, node}
use datacake.Orswot.Versions.{NodeVersions, default_versions, is_ts_before_last_observed_event}
use datacake.Orswot.Set.{OrSWotSet}
use datacake.Orswot.Slot.{alive, deleted, slot, join, IsValid}
use datacake.Orswot.Diff.{diff}
use datacake.Orswot.Merge.{merge}
use datacake.Orswot.MergeSlots
use datacake.Orswot.MergeSlots.{accepted_slot, kept_slot}
use datacake.Orswot.MergeLaws
use datacake.Orswot.Changes
use datacake.Orswot.Changes.{wanted, pick, IsTie}

program : Unit {0}
unfolding node default_versions is_ts_before_last_observed_event diff merge join get BTreeMap.insert
    HashMap.insert Assoc.remove Sort.sort_by_key
program = tt

abbrev at : ℕ → ℕ → HlcTimestamp
at secs n = secs * 2 ^ 32 + n

-- Both sources have seen node 1 at 9000 seconds, so 5400 is safe.
abbrev observed : NodeVersions
observed = record {
  nodes_max_stamps = ((1, at 9000 1) ∷ []) ∷ ((1, at 9000 1) ∷ []) ∷ [];
  safe_last_stamps = (1, at 5400 1) ∷ [];
}

-- The first replica has purged key 3; the second has not heard of it.
abbrev left : OrSWotSet
left = record {
  entries = (1, at 6000 1) ∷ (2, at 6100 1) ∷ [];
  dead = (4, at 6200 1) ∷ [];
  versions = observed;
}

abbrev right : OrSWotSet
right = record {
  entries = (2, at 6300 2) ∷ (3, at 5000 1) ∷ (4, at 6200 1) ∷ [];
  dead = (5, at 6400 2) ∷ (1, at 6500 2) ∷ [];
  versions = default_versions 2;
}

left-IsValid : IsValid left
unfolding program
left-IsValid = record { sorted = ground arith; unique = ground arith; disjoint = λ k. ground arith }

right-IsValid : IsValid right
unfolding program
right-IsValid = record {
  sorted = ground arith;
  unique = ground arith;
  disjoint = λ k. ground arith;
}

merge_test :
    let m = merge left right in
    (m.entries ≡ (2, at 6300 2) ∷ (3, at 5000 1) ∷ (4, at 6200 1) ∷ [])
    × (slot 1 m ≡ deleted (at 6500 2))
    × (slot 5 m ≡ deleted (at 6400 2))
unfolding program
merge_test = (refl, refl, refl)

diff_test : diff left right ≡ ((2, at 6300 2) ∷ [], (5, at 6400 2) ∷ (1, at 6500 2) ∷ [])
unfolding program
diff_test = refl

slot-merge_example :
    slot 1 (merge left right)
    ≡ join
        (kept_slot right.versions (slot 1 left) (slot 1 right))
        (accepted_slot left.versions (slot 1 right))
slot-merge_example = MergeSlots.slot-merge left right 1 left-IsValid right-IsValid

merge_comm_example :
    (slot 1 (merge left right) ≡ join (slot 1 left) (slot 1 right))
    × (slot 1 (merge left right) ≡ slot 1 (merge right left))
unfolding program
merge_comm_example = MergeLaws.merge_comm left right 1 left-IsValid right-IsValid refl refl

diff-none_iff_example :
    ((get 1 (diff left right).0 ≡ none) × (get 1 (diff left right).1 ≡ none))
    ↔ (join (slot 1 left) (slot 1 right) ≡ slot 1 left)
unfolding program
diff-none_iff_example =
    Changes.diff-none_iff left right 1 left-IsValid right-IsValid refl (λ tie. tie)

diff-merge_tie_example :
    (get 4 (diff left right).0 ≡ none)
    × (get 4 (diff left right).1 ≡ none)
    × (slot 4 (merge left right) ≡ alive (at 6200 1))
unfolding program
diff-merge_tie_example =
    Changes.diff-merge_tie left right 4 left-IsValid right-IsValid (at 6200 1) refl refl

diff-merge_passed_example :
    (get 3 (diff left right).0 ≡ none)
    × (get 3 (diff left right).1 ≡ none)
    × (slot 3 (merge left right) ≡ alive (at 5000 1))
unfolding program
diff-merge_passed_example =
    Changes.diff-merge_passed left right 3 left-IsValid right-IsValid (at 5000 1) refl refl refl
