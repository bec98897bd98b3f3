-- ===== src/Keyspace/Loading.antt =====
-- The loading of a keyspace against the metadata of its storage
-- (datacake-eventual-consistency/src/keyspace/group.rs).
use datacake.Base.{
  ◌≡◌, refl, ◌∙◌, ap, Bool, true, false, Option, none, some, List, [], ◌∷◌, if◌then◌else◌, arith,
  ◌≤◌, ==_iff, length, Option-cases, inl, inr,
}
use datacake.Base.Result.{◌>>=◌}
use datacake.Base.Ord.{nat_ord}
use datacake.Base.Assoc.{get, at, at-Unique, option_list, Unique}
use datacake.Base.Sort.{sort_by_key, sort-IsOrdered, AtLeast, IsOrdered, at-sort_by_key}
use datacake.Timestamp.Fields.{HlcTimestamp}
use datacake.Orswot.Set.{
  Key, OrSWotSet, insert, delete, insert_with_source, delete_with_source, default,
}
use datacake.Orswot.Slot.{Slot, absent, alive, deleted, slot, join, IsValid}
use datacake.Orswot.Replica.{Op, deliver, deliver_all, outcome, NotAfter, InOrder}
use datacake.Orswot.Convergence.{Sources, slot-replay}
use datacake.Keyspace.Group.{Metadata, metadata_time, replay_metadata, load_state, num_sources}

abbrev op_of : Metadata → Op
op_of (k, (ts, tombstone)) = record { source = 0; key = k; ts = ts; is_delete = tombstone }

abbrev ops_of : List Metadata → List Op
ops_of [] = []
ops_of (e ∷ l) = op_of e ∷ ops_of l

replay-deliver_all :
    (l : List Metadata) (s : OrSWotSet) → replay_metadata l s ≡ deliver_all (ops_of l) s
unfolding replay_metadata deliver_all deliver insert delete
replay-deliver_all [] s = refl
replay-deliver_all ((k, (ts, true)) ∷ l) s = elim (Option-cases (delete_with_source 0 k ts s)) [
  | inl e ↦ rw (delete, e, ◌>>=◌) refl
  | inr ((s', b), e) ↦ rw (delete, e, ◌>>=◌) (replay-deliver_all l s')
]
replay-deliver_all ((k, (ts, false)) ∷ l) s = elim (Option-cases (insert_with_source 0 k ts s)) [
  | inl e ↦ rw (insert, e, ◌>>=◌) refl
  | inr ((s', b), e) ↦ rw (insert, e, ◌>>=◌) (replay-deliver_all l s')
]

ops-NotAfter :
    (e : Metadata) (l : List Metadata)
    → AtLeast metadata_time (metadata_time e) l
    → NotAfter (op_of e) (ops_of l)
ops-NotAfter e [] a = tt
ops-NotAfter e (x ∷ l) a = ((λ s n. a.0), ops-NotAfter e l a.1)

ops-InOrder : (l : List Metadata) → IsOrdered metadata_time l → InOrder (ops_of l)
ops-InOrder [] o = tt
ops-InOrder (e ∷ l) o = (ops-NotAfter e l o.0, ops-InOrder l o.1)

ops-Sources : (l : List Metadata) → Sources num_sources (ops_of l)
ops-Sources [] = tt
ops-Sources (e ∷ l) = (omega arith, ops-Sources l)

-- What the metadata says of a key.
abbrev pub slot_of_metadata : Option (HlcTimestamp × Bool) → Slot
slot_of_metadata none = absent
slot_of_metadata (some (ts, tombstone)) = if tombstone then deleted ts else alive ts

abbrev latest : List (HlcTimestamp × Bool) → Slot
latest [] = absent
latest (x ∷ l) = join (slot_of_metadata (some x)) (latest l)

outcome-at : (k : Key) (l : List Metadata) → outcome k (ops_of l) ≡ latest (at k l)
unfolding outcome at join
outcome-at k [] = refl
outcome-at k ((j, (ts, b)) ∷ l) = ground (arith, outcome-at k l, ==_iff j k)

latest-option_list :
    (x : Option (HlcTimestamp × Bool)) → latest (option_list x) ≡ slot_of_metadata x
unfolding join
latest-option_list none = refl
latest-option_list (some (ts, true)) = refl
latest-option_list (some (ts, false)) = refl

-- The entries of a storage, whatever order it lists them in, load without a panic into a valid set
-- that holds exactly them: the sort by time keeps the versions from rejecting any.
pub load_state_lem :
    (entries : List Metadata)
    → Unique entries
    → (s : OrSWotSet) × (load_state entries ≡ some s)
      × IsValid s
      × ((k : Key) → slot k s ≡ slot_of_metadata (get k entries))
unfolding load_state
load_state_lem entries u =
    let sorted = sort_by_key metadata_time entries in
    let (s, e, v, slots) =
      slot-replay num_sources (ops_of sorted) (ops-Sources sorted)
        (ops-InOrder sorted (sort-IsOrdered metadata_time entries)) in
    (
      s,
      replay-deliver_all sorted (default num_sources) ∙ e,
      v,
      λ k.
          (let once : length (at k entries) ≤ 1 = elim (Option-cases (get k entries)) [
            | inl missing ↦ ground (arith, at-Unique k entries u)
            | inr (x, found) ↦ ground (arith, at-Unique k entries u)
          ] in
            let met : at k sorted ≡ option_list (get k entries) =
              at-sort_by_key metadata_time k entries once ∙ at-Unique k entries u in
            slots k ∙ outcome-at k sorted ∙ ap latest met ∙ latest-option_list (get k entries)),
    )
