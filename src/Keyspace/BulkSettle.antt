-- ===== src/Keyspace/BulkSettle.antt =====
-- What the entries of a bulk operation make of the slots of a set
-- (datacake-eventual-consistency/src/keyspace/actor.rs).
use datacake.Base.{
  ℕ, zero, suc, ◌≡◌, refl, ap, ◌∙◌, Bool, true, false, Option, none, some, List, [], ◌∷◌, map,
  if◌then◌else◌, arith, ◌≤◌, length, take, inl, inr, Option-cases, Bool-cases,
}
use datacake.Base.Result.{Result}
use datacake.Base.Ord.{nat_ord}
use datacake.Base.Assoc.{get, at, at-Unique, option_list, Unique}
use datacake.Base.Sort.{sort_by_key, at-sort_by_key, sort-IsOrdered, All, sort-All}
use datacake.Timestamp.Fields.{HlcTimestamp}
use datacake.Orswot.Set.{Key, StateChanges, OrSWotSet}
use datacake.Orswot.Slot.{absent, slot, join, IsValid}
use datacake.Orswot.Replica.{deliver_all}
use datacake.Orswot.Convergence.{slot-deliver_all}
use datacake.Keyspace.Storage.{BulkMutationError, DocumentMetadata}
use datacake.Keyspace.Actor.{entry_of, entry_time, confirmed, valid_entries}
use datacake.Keyspace.Bulk.{
  wrote, entry_ops, AcceptsEntry, ops-Known, ops-Fresh, ops-InOrder, outcome-at, said, all_said,
  at-confirmed, confirmed-All, take-All, confirmed-IsOrdered,
}

map-take :
    (n : ℕ) (docs : List DocumentMetadata) → map entry_of (take n docs) ≡ take n (map entry_of docs)
map-take zero docs = refl
map-take (suc n) [] = refl
map-take (suc n) (doc ∷ docs) = ap (λ l. entry_of doc ∷ l) (map-take n docs)

length-at-take : (k : Key) (n : ℕ) (l : StateChanges) → length (at k (take n l)) ≤ length (at k l)
unfolding at
length-at-take k zero l = omega arith
length-at-take k (suc n) [] = omega arith
length-at-take k (suc n) ((j, ts) ∷ l) = ground (arith, length-at-take k n l)

length-at-Unique : (k : Key) (l : StateChanges) → Unique l → length (at k l) ≤ 1
length-at-Unique k l u = elim (Option-cases (get k l)) [
  | inl e ↦ ground (arith, at-Unique k l u)
  | inr (ts, e) ↦ ground (arith, at-Unique k l u)
]

all_said-option_list :
    (source : ℕ) (is_delete : Bool) (o : Option HlcTimestamp)
    → all_said source is_delete (option_list o)
      ≡ elim o [ none ↦ absent | some ts ↦ said source is_delete ts ]
unfolding join
all_said-option_list source true none = refl
all_said-option_list source true (some ts) = refl
all_said-option_list source false none = refl
all_said-option_list source false (some ts) = refl

-- What is met at a key that is written, once the entries are sorted.
at-valid_entries :
    (k : Key) (docs : List DocumentMetadata) (taken : ℕ)
    → Unique (map entry_of docs)
    → at k (take taken (map entry_of docs)) ≡ at k (map entry_of docs)
    → at k (valid_entries taken docs) ≡ option_list (get k (map entry_of docs))
unfolding valid_entries
at-valid_entries k docs taken u among =
    let all = map entry_of docs in
    let took : at k (map entry_of (take taken docs)) ≡ at k all =
      ap (at k) (map-take taken docs) ∙ among in
    at-sort_by_key entry_time k (map entry_of (take taken docs))
      (omega (arith, ap length took, length-at-Unique k all u))
    ∙ took
    ∙ at-Unique k all u

said-confirmed :
    {E : Type 0} (source : ℕ) (is_delete : Bool) (docs : List DocumentMetadata) (taken : ℕ)
    (res : Result (BulkMutationError E) (Unit {0})) (k : Key)
    → Unique (map entry_of docs)
    → (wrote res k ≡ true → at k (take taken (map entry_of docs)) ≡ at k (map entry_of docs))
    → all_said source is_delete (at k (confirmed res (valid_entries taken docs))) ≡ (
        if wrote res k
        then elim (get k (map entry_of docs)) [ none ↦ absent | some ts ↦ said source is_delete ts ]
        else absent)
said-confirmed source is_delete docs taken res k u among = elim (Bool-cases (wrote res k)) [
  | inl written ↦ rw written (
      ap (all_said source is_delete) (
        at-confirmed k res (valid_entries taken docs)
        ∙ rw written (at-valid_entries k docs taken u (among written)))
      ∙ all_said-option_list source is_delete (get k (map entry_of docs)))
  | inr kept ↦
      let nothing : at k (confirmed res (valid_entries taken docs)) ≡ [] =
        at-confirmed k res (valid_entries taken docs) ∙ rw kept refl in
      rw kept (ap (all_said source is_delete) nothing)
]

-- The entries of the documents that the storage has taken and reports as written, run in the order
-- of time: each of them is joined to the slot of its key. `taken` documents of the list are taken,
-- those that are written among them.
pub settle :
    {E : Type 0} (source : ℕ) (is_delete : Bool) (docs : List DocumentMetadata) (taken : ℕ)
    (res : Result (BulkMutationError E) (Unit {0})) (s : OrSWotSet)
    → IsValid s
    → Unique (map entry_of docs)
    → All (AcceptsEntry source s) (map entry_of docs)
    → ((k : Key)
        → wrote res k ≡ true
        → at k (take taken (map entry_of docs)) ≡ at k (map entry_of docs))
    → (s' : OrSWotSet) × (deliver_all
          (entry_ops source is_delete (confirmed res (valid_entries taken docs)))
          s
        ≡ some s')
      × IsValid s'
      × ((k : Key)
          → slot k s'
            ≡ join (slot k s) (
                if wrote res k
                then elim (get k (map entry_of docs)) [
                  | none ↦ absent
                  | some ts ↦ said source is_delete ts
                ]
                else absent))
unfolding valid_entries
settle source is_delete docs taken res s v u accepts among =
    let all = map entry_of docs in
    let sorted = sort_by_key entry_time (map entry_of (take taken docs)) in
    let accepted : All (AcceptsEntry source s) (confirmed res sorted) =
      confirmed-All (AcceptsEntry source s) res sorted (
        sort-All entry_time (AcceptsEntry source s) (map entry_of (take taken docs))
          (rw (map-take taken docs) (take-All (AcceptsEntry source s) taken all accepts))) in
    let (s', e, v', slots) =
      slot-deliver_all (entry_ops source is_delete (confirmed res sorted)) s v
        (ops-Known source is_delete (confirmed res sorted) s accepted)
        (ops-Fresh source is_delete (confirmed res sorted) s accepted)
        (ops-InOrder source is_delete (confirmed res sorted) (
          confirmed-IsOrdered res sorted
            (sort-IsOrdered entry_time (map entry_of (take taken docs))))) in
    (
      s',
      e,
      v',
      λ k.
          slots k
          ∙ ap (join (slot k s)) (
              outcome-at source is_delete k (confirmed res sorted)
              ∙ said-confirmed source is_delete docs taken res k u (among k)),
    )
