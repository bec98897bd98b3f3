-- ===== src/Tests/Sets.antt =====
-- Sets, replicas and versions on concrete inputs.
use mathlib.Core.List.{Perm, perm_middle}
use datacake.Base.{
  ℕ, ◌+◌, ◌*◌, ◌^◌, ◌<◌, ◌≡◌, refl, Bool, true, false, none, some, List, [], ◌∷◌, arith, ◌⊎◌, ◌≢◌,
  if◌then◌else◌, ◌==◌,
}
use datacake.Base.Ord.{nat_ord}
use datacake.Base.Assoc
use datacake.Base.Assoc.{get}
use datacake.Base.HashMap
use datacake.Base.BTreeMap
use datacake.Timestamp.Fields.{
  HlcTimestamp, node, pack, datacake_timestamp, counter, seconds, fractional,
}
use datacake.Orswot.Versions.{
  NodeVersions, default_versions, compute_safe_last_stamp, try_update_max_stamp, merge_versions,
  is_ts_before_last_observed_event, seen,
}
use datacake.Orswot.Set.{
  Key, OrSWotSet, apply_insert, apply_delete, default, purge_old_deletes, add_raw_tombstones,
  insert_with_source, delete_with_source, will_apply,
}
use datacake.Orswot.Slot.{alive, deleted, slot, join, IsValid}
use datacake.Orswot.Updates
use datacake.Orswot.Observed.{seen_by}
use datacake.Orswot.Replica.{Op, deliver_all, outcome, InOrder}
use datacake.Orswot.Convergence
use datacake.Orswot.Convergence.{Sources}
use datacake.Orswot.Safety.{IsSafe}
use datacake.Orswot.SafeUpdates
use datacake.Orswot.SafeMerge
use datacake.Orswot.WillApply

program : Unit {0}
unfolding node counter datacake_timestamp pack default_versions compute_safe_last_stamp
    try_update_max_stamp merge_versions is_ts_before_last_observed_event apply_insert apply_delete
    default purge_old_deletes add_raw_tombstones insert_with_source delete_with_source join seen_by
    deliver_all outcome get will_apply BTreeMap.insert HashMap.insert Assoc.remove seconds
    fractional seen
program = tt

-- The timestamp of a node, a number of seconds in.
abbrev at : ℕ → ℕ → HlcTimestamp
at secs n = secs * 2 ^ 32 + n

-- Two nodes: node 1 writes key 5 and deletes it later, node 2 writes it in between.
abbrev write : Op
write = record { source = 0; key = 5; ts = at 10 1; is_delete = false }

abbrev remove : Op
remove = record { source = 0; key = 5; ts = at 30 1; is_delete = true }

abbrev other_write : Op
other_write = record { source = 1; key = 5; ts = at 20 2; is_delete = false }

abbrev first_order : List Op
first_order = write ∷ remove ∷ other_write ∷ []

abbrev second_order : List Op
second_order = other_write ∷ write ∷ remove ∷ []

orders_Perm : Perm first_order second_order
orders_Perm = perm_middle (write ∷ remove ∷ []) []

outcome_test : outcome 5 first_order ≡ deleted (at 30 1)
unfolding program
outcome_test = refl

first_InOrder : InOrder first_order
unfolding program
first_InOrder = ground arith

second_InOrder : InOrder second_order
unfolding program
second_InOrder = ground arith

first_Sources : Sources 2 first_order
first_Sources = ground arith

second_Sources : Sources 2 second_order
second_Sources = ground arith

slot-replay_example :
    (s : OrSWotSet) × (deliver_all first_order (default 2) ≡ some s)
    × IsValid s
    × ((k : Key) → slot k s ≡ outcome k first_order)
slot-replay_example = Convergence.slot-replay 2 first_order first_Sources first_InOrder

replay_converges_example :
    (s t : OrSWotSet) × (deliver_all first_order (default 2) ≡ some s)
    × (deliver_all second_order (default 2) ≡ some t)
    × ((k : Key) → slot k s ≡ slot k t)
replay_converges_example =
    Convergence.replay_converges 2 first_order second_order first_Sources second_Sources
      first_InOrder second_InOrder orders_Perm

-- The versions once the two sources have seen node 1 at 9000 and 8000 seconds.
abbrev half_observed : NodeVersions
half_observed = record {
  nodes_max_stamps = ((1, at 9000 1) ∷ []) ∷ [] ∷ [];
  safe_last_stamps = (1, 1) ∷ [];
}

abbrev observed : NodeVersions
observed = record {
  nodes_max_stamps = ((1, at 9000 1) ∷ []) ∷ ((1, at 8000 1) ∷ []) ∷ [];
  safe_last_stamps = (1, at 4400 1) ∷ [];
}

first_update : try_update_max_stamp 0 (at 9000 1) (default_versions 2) ≡ some (half_observed, true)
unfolding program
first_update = refl

second_update : try_update_max_stamp 1 (at 8000 1) half_observed ≡ some (observed, true)
unfolding program
second_update = refl

-- A source refuses what is older than the last it has seen of the node, but keeps an equal one.
refused_update : try_update_max_stamp 1 (at 7999 1) observed ≡ some (observed, false)
unfolding program
refused_update = refl

-- A source that the set has no room for is out of bounds.
panic_test : try_update_max_stamp 2 (at 8000 1) observed ≡ none
unfolding program
panic_test = refl

half_observed-IsSafe : IsSafe half_observed
half_observed-IsSafe =
    SafeUpdates.try_update-IsSafe 0 (at 9000 1) (default_versions 2) (omega arith)
      (SafeMerge.default-IsSafe 2) first_update

try_update-IsSafe_example : IsSafe observed
try_update-IsSafe_example =
    SafeUpdates.try_update-IsSafe 1 (at 8000 1) half_observed (omega arith) half_observed-IsSafe
      second_update

observed-IsSafe : IsSafe observed
observed-IsSafe =
    SafeUpdates.try_update-IsSafe 1 (at 8000 1) half_observed (omega arith) half_observed-IsSafe
      second_update

merge_versions-IsSafe_example : IsSafe (merge_versions half_observed observed)
merge_versions-IsSafe_example =
    SafeMerge.merge_versions-IsSafe half_observed observed half_observed-IsSafe observed-IsSafe

old_event : is_ts_before_last_observed_event (at 4000 1) observed ≡ true
unfolding program
old_event = refl

lt-seen_by_of_observed_example :
    (last : HlcTimestamp) × (seen_by 1 (node (at 4000 1)) observed ≡ some last) × (at 4000 1 < last)
lt-seen_by_of_observed_example =
    SafeMerge.lt-seen_by_of_observed observed (at 4000 1) 1 observed-IsSafe old_event (ground arith)

-- An entry on key 5, a tombstone on key 6 that is long observed, and one on key 7 that is not.
abbrev shelf : OrSWotSet
shelf = record {
  entries = (5, at 20 2) ∷ [];
  dead = (6, at 30 1) ∷ (7, at 5000 1) ∷ [];
  versions = observed;
}

shelf-IsValid : IsValid shelf
unfolding program
shelf-IsValid = record {
  sorted = ground arith;
  unique = ground arith;
  disjoint = λ k. ground arith;
}

purge_test :
    purge_old_deletes shelf ≡ (record shelf { dead = (7, at 5000 1) ∷ [] }, (6, at 30 1) ∷ [])
unfolding program
purge_test = refl

slot-apply_insert_example :
    slot 6 (apply_insert 6 (at 30 1) shelf).0
    ≡ (if 6 == 6 then join (slot 6 shelf) (alive (at 30 1)) else slot 6 shelf)
slot-apply_insert_example = Updates.slot-apply_insert 6 6 (at 30 1) shelf shelf-IsValid

slot-apply_delete_example :
    slot 5 (apply_delete 5 (at 20 2) shelf).0
    ≡ (if 5 == 5 then join (slot 5 shelf) (deleted (at 20 2)) else slot 5 shelf)
slot-apply_delete_example = Updates.slot-apply_delete 5 5 (at 20 2) shelf shelf-IsValid

-- A delete with the timestamp of the entry changes nothing.
delete_test : apply_delete 5 (at 20 2) shelf ≡ (shelf, false)
unfolding program
delete_test = refl

-- A timestamp that its source has passed already: `will_apply` says yes, and nothing is applied.
will_apply_test :
    (will_apply 9 (at 7000 1) shelf ≡ true)
    × (insert_with_source 0 9 (at 7000 1) shelf ≡ some (shelf, false))
unfolding program
will_apply_test = (refl, refl)

will_apply_lem_example :
    (inserted removed : OrSWotSet) × (b : Bool) × (delete_with_source 1 7 (at 8000 1) shelf
      ≡ some (removed, will_apply 7 (at 8000 1) shelf))
    × (insert_with_source 1 7 (at 8000 1) shelf ≡ some (inserted, b))
    × (((slot 7 shelf ≢ deleted (at 8000 1)) × (b ≡ will_apply 7 (at 8000 1) shelf))
        ⊎ ((slot 7 shelf ≡ deleted (at 8000 1))
            × (will_apply 7 (at 8000 1) shelf ≡ false)
            × (b ≡ true)))
unfolding program
will_apply_lem_example =
    WillApply.will_apply_lem 1 7 (at 8000 1) shelf shelf-IsValid observed-IsSafe (ground arith)
      (λ last e. ground arith)
