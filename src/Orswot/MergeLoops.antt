-- ===== src/Orswot/MergeLoops.antt =====
-- The two loops of `merge` on one key (datacake-crdt/src/orswot.rs).
use datacake.Base.{
  ◌≡◌, refl, ◌∙◌, ap, Bool, true, false, Option, List, [], ◌∷◌, ◌++◌, if◌then◌else◌, arith, ◌==◌,
  Bool-cases, inl, inr,
}
use datacake.Base.Ord.{nat_ord}
use datacake.Base.Assoc.{get, at, at-Unique, at-append, option_list}
use datacake.Base.BTreeMap.{IsSorted-Unique}
use datacake.Base.Sort.{at-sort_by_key}
use datacake.Timestamp.Fields.{HlcTimestamp}
use datacake.Orswot.Versions.{NodeVersions, is_ts_before_last_observed_event}
use datacake.Orswot.Set.{Key, StateChanges, OrSWotSet}
use datacake.Orswot.Slot.{IsValid}
use datacake.Orswot.Merge.{
  LogEntry, Merging, merge_log_entry, merge_log, keep_entry, keep_entries, tag, time_of,
  entries_log,
}
use datacake.Orswot.MergeView.{
  View, view, alive_view, delete_view, insert_view, view-merge_alive, view-merge_delete,
  view-merge_insert,
}

abbrev pub run_log : NodeVersions → List (HlcTimestamp × Bool) → View → View
run_log v [] x = x
run_log v ((ts, is_delete) ∷ es) x =
    run_log v es (if is_delete then delete_view v ts x else insert_view ts x)

abbrev pub run_keep : NodeVersions → List HlcTimestamp → View → View
run_keep v [] x = x
run_keep v (ts ∷ es) x =
    run_keep v es (if is_ts_before_last_observed_event ts v then x else alive_view ts x)

view-merge_log_entry :
    (v : NodeVersions) (j k : Key) (ts : HlcTimestamp) (d : Bool) (m : Merging)
    → view j (merge_log_entry v (k, (ts, d)) m) ≡ (
        if k == j
        then (if d then delete_view v ts (view j m) else insert_view ts (view j m))
        else view j m)
unfolding merge_log_entry
view-merge_log_entry v j k ts true m = view-merge_delete v j k ts m
view-merge_log_entry v j k ts false m = view-merge_insert j k ts m

pub view-merge_log :
    (v : NodeVersions) (j : Key) (log : List LogEntry) (m : Merging)
    → view j (merge_log v log m) ≡ run_log v (at j log) (view j m)
unfolding merge_log at
view-merge_log v j [] m = refl
view-merge_log v j ((k, (ts, d)) ∷ log) m = elim (Bool-cases (k == j)) [
  | inl e ↦
      view-merge_log v j log _
      ∙ ap (run_log v (at j log)) (view-merge_log_entry v j k ts d m)
      ∙ rw e
  | inr e ↦
      view-merge_log v j log _
      ∙ ap (run_log v (at j log)) (view-merge_log_entry v j k ts d m)
      ∙ rw e
]

view-keep_entry :
    (v : NodeVersions) (j k : Key) (ts : HlcTimestamp) (m : Merging)
    → view j (keep_entry v k ts m) ≡ (
        if k == j
        then (if is_ts_before_last_observed_event ts v then view j m else alive_view ts (view j m))
        else view j m)
unfolding keep_entry
view-keep_entry v j k ts m = elim (Bool-cases (is_ts_before_last_observed_event ts v)) [
  | inl e ↦ ground arith
  | inr e ↦ rw e (view-merge_alive j k ts m)
]

pub view-keep_entries :
    (v : NodeVersions) (j : Key) (l : StateChanges) (m : Merging)
    → view j (keep_entries v l m) ≡ run_keep v (at j l) (view j m)
unfolding keep_entries at
view-keep_entries v j [] m = refl
view-keep_entries v j ((k, ts) ∷ l) m = elim (Bool-cases (k == j)) [
  | inl e ↦ view-keep_entries v j l _ ∙ ap (run_keep v (at j l)) (view-keep_entry v j k ts m) ∙ rw e
  | inr e ↦ view-keep_entries v j l _ ∙ ap (run_keep v (at j l)) (view-keep_entry v j k ts m) ∙ rw e
]

abbrev pub tagged : Bool → List HlcTimestamp → List (HlcTimestamp × Bool)
tagged d [] = []
tagged d (ts ∷ l) = (ts, d) ∷ tagged d l

at-tag : (j : Key) (d : Bool) (l : StateChanges) → at j (tag d l) ≡ tagged d (at j l)
unfolding at tag
at-tag j d [] = refl
at-tag j d ((k, ts) ∷ l) = ground (arith, at-tag j d l)

-- What the log says of one key: its entry or its tombstone.
abbrev pub log_of : Option HlcTimestamp → Option HlcTimestamp → List (HlcTimestamp × Bool)
log_of entry dead = tagged false (option_list entry) ++ tagged true (option_list dead)

pub at-entries_log :
    (j : Key) (o : OrSWotSet)
    → IsValid o
    → at j (entries_log o) ≡ log_of (get j o.entries) (get j o.dead)
unfolding entries_log
at-entries_log j o v =
    let whole : at j (tag false o.entries ++ tag true o.dead)
        ≡ log_of (get j o.entries) (get j o.dead) =
      at-append j (tag false o.entries) (tag true o.dead)
      ∙ rw (
        at-tag j false o.entries,
        at-tag j true o.dead,
        at-Unique j o.entries (IsSorted-Unique o.entries v.sorted),
        at-Unique j o.dead v.unique,
      ) in
    at-sort_by_key time_of j (tag false o.entries ++ tag true o.dead)
      (rw whole (ground (arith, v.disjoint j)))
    ∙ whole
