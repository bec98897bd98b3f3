-- ===== src/Keyspace/Bulk.antt =====
-- Which entries a bulk operation applies, and what they make of the set
-- (datacake-eventual-consistency/src/keyspace/actor.rs).
use datacake.Base.{
  ℕ, zero, suc, ◌≡◌, refl, Bool, true, false, List, [], ◌∷◌, if◌then◌else◌, arith, ==_iff, take,
  inl, inr, Option-cases, Bool-cases,
}
use datacake.Base.Result.{Result, ok, err, ◌>>=◌}
use datacake.Base.Ord.{nat_ord}
use datacake.Base.Assoc.{at}
use datacake.Base.Sort.{AtLeast, IsOrdered, All}
use datacake.Timestamp.Fields.{HlcTimestamp}
use datacake.Orswot.Versions.{contains}
use datacake.Orswot.Set.{Key, StateChanges, OrSWotSet, insert_with_source, delete_with_source}
use datacake.Orswot.Slot.{Slot, absent, alive, deleted, join}
use datacake.Orswot.Replica.{Op, deliver, deliver_all, outcome, Known, Fresh, NotAfter, InOrder}
use datacake.Keyspace.Storage.{BulkMutationError}
use datacake.Keyspace.Actor.{
  entry_time, successful_entries, confirmed, insert_entries, delete_entries,
}
use datacake.Keyspace.Agreement.{Accepts}

-- Whether the storage's answer says that a key is written.
abbrev pub wrote : {E : Type 0} → Result (BulkMutationError E) (Unit {0}) → Key → Bool
wrote (ok u) k = true
wrote (err e) k = contains k e.successful_doc_ids

abbrev entry_op : ℕ → Bool → Key × HlcTimestamp → Op
entry_op source is_delete (k, ts) = record {
  source = source;
  key = k;
  ts = ts;
  is_delete = is_delete;
}

abbrev pub entry_ops : ℕ → Bool → StateChanges → List Op
entry_ops source is_delete [] = []
entry_ops source is_delete (e ∷ l) = entry_op source is_delete e ∷ entry_ops source is_delete l

pub insert-deliver_all :
    (source : ℕ) (l : StateChanges) (s : OrSWotSet)
    → insert_entries source l s ≡ deliver_all (entry_ops source false l) s
unfolding insert_entries deliver_all deliver
insert-deliver_all source [] s = refl
insert-deliver_all source ((k, ts) ∷ l) s = elim (Option-cases (insert_with_source source k ts s)) [
  | inl e ↦ rw (e, ◌>>=◌) refl
  | inr ((s', b), e) ↦ rw (e, ◌>>=◌) (insert-deliver_all source l s')
]

pub delete-deliver_all :
    (source : ℕ) (l : StateChanges) (s : OrSWotSet)
    → delete_entries source l s ≡ deliver_all (entry_ops source true l) s
unfolding delete_entries deliver_all deliver
delete-deliver_all source [] s = refl
delete-deliver_all source ((k, ts) ∷ l) s = elim (Option-cases (delete_with_source source k ts s)) [
  | inl e ↦ rw (e, ◌>>=◌) refl
  | inr ((s', b), e) ↦ rw (e, ◌>>=◌) (delete-deliver_all source l s')
]

-- What the source may send.
abbrev pub AcceptsEntry : ℕ → OrSWotSet → Key × HlcTimestamp → Type 0
AcceptsEntry source s (k, ts) = Accepts source ts s

module _ (source : ℕ) (is_delete : Bool) where
  pub ops-Known :
      (l : StateChanges) (s : OrSWotSet)
      → All (AcceptsEntry source s) l
      → Known (entry_ops source is_delete l) s.versions
  ops-Known [] s a = tt
  ops-Known (e ∷ l) s a = (a.0.0, ops-Known l s a.1)

  pub ops-Fresh :
      (l : StateChanges) (s : OrSWotSet)
      → All (AcceptsEntry source s) l
      → Fresh (entry_ops source is_delete l) s.versions
  ops-Fresh [] s a = tt
  ops-Fresh (e ∷ l) s a = (a.0.1, ops-Fresh l s a.1)

  ops-NotAfter :
      (e : Key × HlcTimestamp) (l : StateChanges)
      → AtLeast entry_time (entry_time e) l
      → NotAfter (entry_op source is_delete e) (entry_ops source is_delete l)
  ops-NotAfter e [] a = tt
  ops-NotAfter e (x ∷ l) a = ((λ same n. a.0), ops-NotAfter e l a.1)

  pub ops-InOrder :
      (l : StateChanges) → IsOrdered entry_time l → InOrder (entry_ops source is_delete l)
  ops-InOrder [] o = tt
  ops-InOrder (e ∷ l) o = (ops-NotAfter e l o.0, ops-InOrder l o.1)

  -- What a timestamp of the operation says of its key.
  abbrev pub said : HlcTimestamp → Slot
  said ts = if is_delete then deleted ts else alive ts

  abbrev pub all_said : List HlcTimestamp → Slot
  all_said [] = absent
  all_said (ts ∷ l) = join (said ts) (all_said l)

  pub outcome-at :
      (k : Key) (l : StateChanges) → outcome k (entry_ops source is_delete l) ≡ all_said (at k l)
  unfolding outcome at
  outcome-at k [] = refl
  outcome-at k ((j, ts) ∷ l) = ground (arith, outcome-at k l, ==_iff j k)

at-successful :
    (k : Key) (ids : List Key) (l : StateChanges)
    → at k (successful_entries ids l) ≡ (if contains k ids then at k l else [])
unfolding successful_entries at
at-successful k ids [] = ground arith
at-successful k ids ((j, ts) ∷ l) = ground (arith, ==_iff j k, at-successful k ids l)

pub at-confirmed :
    {E : Type 0} (k : Key) (res : Result (BulkMutationError E) (Unit {0})) (l : StateChanges)
    → at k (confirmed res l) ≡ (if wrote res k then at k l else [])
unfolding confirmed
at-confirmed k (ok u) l = refl
at-confirmed k (err e) l = at-successful k e.successful_doc_ids l

module _ (P : Key × HlcTimestamp → Type 0) where
  successful-All : (ids : List Key) (l : StateChanges) → All P l → All P (successful_entries ids l)
  unfolding successful_entries
  successful-All ids [] a = tt
  successful-All ids ((j, ts) ∷ l) a = elim (Bool-cases (contains j ids)) [
    | inl e ↦ rw e (a.0, successful-All ids l a.1)
    | inr e ↦ rw e (successful-All ids l a.1)
  ]

  pub confirmed-All :
      {E : Type 0} (res : Result (BulkMutationError E) (Unit {0})) (l : StateChanges)
      → All P l
      → All P (confirmed res l)
  unfolding confirmed
  confirmed-All (ok u) l a = a
  confirmed-All (err e) l a = successful-All e.successful_doc_ids l a

  pub take-All : (n : ℕ) (l : StateChanges) → All P l → All P (take n l)
  take-All zero l a = tt
  take-All (suc n) [] a = tt
  take-All (suc n) (x ∷ l) a = (a.0, take-All n l a.1)

successful-AtLeast :
    (n : ℕ) (ids : List Key) (l : StateChanges)
    → AtLeast entry_time n l
    → AtLeast entry_time n (successful_entries ids l)
unfolding successful_entries
successful-AtLeast n ids [] a = tt
successful-AtLeast n ids ((j, ts) ∷ l) a = ground (arith, successful-AtLeast n ids l a.1)

successful-IsOrdered :
    (ids : List Key) (l : StateChanges)
    → IsOrdered entry_time l
    → IsOrdered entry_time (successful_entries ids l)
unfolding successful_entries
successful-IsOrdered ids [] o = tt
successful-IsOrdered ids ((j, ts) ∷ l) o = elim (Bool-cases (contains j ids)) [
  | inl e ↦ rw e (successful-AtLeast ts ids l o.0, successful-IsOrdered ids l o.1)
  | inr e ↦ rw e (successful-IsOrdered ids l o.1)
]

pub confirmed-IsOrdered :
    {E : Type 0} (res : Result (BulkMutationError E) (Unit {0})) (l : StateChanges)
    → IsOrdered entry_time l
    → IsOrdered entry_time (confirmed res l)
unfolding confirmed
confirmed-IsOrdered (ok u) l o = o
confirmed-IsOrdered (err e) l o = successful-IsOrdered e.successful_doc_ids l o
