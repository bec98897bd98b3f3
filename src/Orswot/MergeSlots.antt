-- ===== src/Orswot/MergeSlots.antt =====
-- `merge` on the slot of one key (datacake-crdt/src/orswot.rs).
use mathlib.Core.Path.{subst}
use datacake.Base.{◌≡◌, sym, ◌∙◌, ap, Option, none, some, [], if◌then◌else◌, arith, ◌⊎◌}
use datacake.Base.Ord.{nat_ord}
use datacake.Base.Assoc.{get, at-Unique, option_list}
use datacake.Base.BTreeMap.{IsSorted-Unique}
use datacake.Timestamp.Fields.{HlcTimestamp}
use datacake.Orswot.Versions.{NodeVersions, is_ts_before_last_observed_event}
use datacake.Orswot.Set.{Key, OrSWotSet}
use datacake.Orswot.Slot.{Slot, absent, alive, deleted, slot, slot_of, join, IsValid}
use datacake.Orswot.Merge.{Merging, merge_log, keep_entries, entries_log, merge}
use datacake.Orswot.MergeValid.{IsProper, merge_log-IsProper, keep_entries-IsProper}
use datacake.Orswot.MergeView.{View, view}
use datacake.Orswot.MergeLoops.{
  run_log, run_keep, log_of, view-merge_log, view-keep_entries, at-entries_log,
}

-- What `merge` may drop: a tombstone of the other set that the own versions have passed, and an
-- own entry that the other set does not hold as an entry, and whose versions have passed it.
abbrev pub accepted_slot : NodeVersions → Slot → Slot
accepted_slot v (deleted d) = if is_ts_before_last_observed_event d v then absent else deleted d
accepted_slot v x = x

abbrev pub kept_slot : NodeVersions → Slot → Slot → Slot
kept_slot v (alive t) (alive u) = alive t
kept_slot v (alive t) other = if is_ts_before_last_observed_event t v then absent else alive t
kept_slot v x other = x

abbrev started : OrSWotSet → Merging
started s = record { old_entries = s.entries; entries = []; dead = s.dead }

abbrev merged_maps : OrSWotSet → OrSWotSet → Merging
merged_maps s o =
    let logged = merge_log s.versions (entries_log o) (started s) in
    keep_entries o.versions logged.old_entries logged

started-IsProper : (s : OrSWotSet) → IsValid s → IsProper (started s)
started-IsProper s v = record { old_sorted = v.sorted; sorted = tt; unique = v.unique }

-- One key through both loops.
abbrev merged_view : OrSWotSet → OrSWotSet → Key → View
merged_view s o j =
    let x =
      run_log s.versions (log_of (get j o.entries) (get j o.dead))
        (record { old = get j s.entries; entry = none; dead = get j s.dead }) in
    run_keep o.versions (option_list x.old) x

view-merged_maps :
    (s o : OrSWotSet) (j : Key)
    → IsValid s
    → IsValid o
    → view j (merged_maps s o) ≡ merged_view s o j
unfolding get
view-merged_maps s o j v w =
    let log = entries_log o in
    let logged = merge_log s.versions log (started s) in
    let proper = merge_log-IsProper s.versions log (started s) (started-IsProper s v) in
    let x : view j logged
        ≡ run_log s.versions (log_of (get j o.entries) (get j o.dead)) (view j (started s)) =
      view-merge_log s.versions j log (started s)
      ∙ ap (λ l. run_log s.versions l (view j (started s))) (at-entries_log j o w) in
    view-keep_entries o.versions j logged.old_entries logged
    ∙ ap (λ l. run_keep o.versions l (view j logged))
        (at-Unique j logged.old_entries (IsSorted-Unique logged.old_entries proper.old_sorted))
    ∙ ap (λ y. run_keep o.versions (option_list y.old) y) x

-- The two loops on one key, from what the two sets hold of it.
abbrev looped :
    NodeVersions
    → NodeVersions
    → Option HlcTimestamp
    → Option HlcTimestamp
    → Option HlcTimestamp
    → Option HlcTimestamp
    → View
looped v w se sd oe od =
    let x = run_log v (log_of oe od) (record { old = se; entry = none; dead = sd }) in
    run_keep w (option_list x.old) x

looped_slots :
    (v w : NodeVersions) (se sd oe od : Option HlcTimestamp)
    → (se ≡ none) ⊎ (sd ≡ none)
    → (oe ≡ none) ⊎ (od ≡ none)
    → let y = looped v w se sd oe od in
      (slot_of y.entry y.dead
        ≡ join (kept_slot w (slot_of se sd) (slot_of oe od)) (accepted_slot v (slot_of oe od)))
      × ((y.entry ≡ none) ⊎ (y.dead ≡ none))
unfolding join
looped_slots v w none none none none p q = ground arith
looped_slots v w none none none (some od) p q = ground arith
looped_slots v w none none (some oe) none p q = ground arith
looped_slots v w none (some sd) none none p q = ground arith
looped_slots v w none (some sd) none (some od) p q = ground arith
looped_slots v w none (some sd) (some oe) none p q = ground arith
looped_slots v w (some se) none none none p q = ground arith
looped_slots v w (some se) none none (some od) p q = ground arith
looped_slots v w (some se) none (some oe) none p q = ground arith
looped_slots v w se sd oe od p q = absurd (ground arith)

-- `merge` joins, key by key, what is kept of the own slot with what is accepted of the other's.
-- The order of the log, the three maps and the two loops make no other difference.
pub slot-merge :
    (s o : OrSWotSet) (k : Key)
    → IsValid s
    → IsValid o
    → slot k (merge s o)
      ≡ join (kept_slot o.versions (slot k s) (slot k o)) (accepted_slot s.versions (slot k o))
unfolding merge
slot-merge s o k v w = rw (ap (λ (y : View). slot_of y.entry y.dead) (view-merged_maps s o k v w)) (
    (looped_slots s.versions o.versions (get k s.entries) (get k s.dead) (get k o.entries)
      (get k o.dead) (v.disjoint k) (w.disjoint k)).0)

-- The result of a merge of valid sets is valid.
pub merge-IsValid : (s o : OrSWotSet) → IsValid s → IsValid o → IsValid (merge s o)
unfolding merge
merge-IsValid s o v w =
    let log = entries_log o in
    let proper =
      keep_entries-IsProper o.versions (merge_log s.versions log (started s)).old_entries
        (merge_log s.versions log (started s))
        (merge_log-IsProper s.versions log (started s) (started-IsProper s v)) in
    record {
      sorted = proper.sorted;
      unique = proper.unique;
      disjoint = λ k.
          subst (λ (y : View). (y.entry ≡ none) ⊎ (y.dead ≡ none))
            (sym (view-merged_maps s o k v w))
            (looped_slots s.versions o.versions (get k s.entries) (get k s.dead) (get k o.entries)
              (get k o.dead) (v.disjoint k) (w.disjoint k)).1;
    }
