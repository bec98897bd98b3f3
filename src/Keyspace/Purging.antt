-- ===== src/Keyspace/Purging.antt =====
-- The agreement of a keyspace with its storage over purges
-- (datacake-eventual-consistency/src/keyspace/actor.rs).
use datacake.Base.{
  ◌≡◌, refl, Bool, true, false, ◌&&◌, Option, none, some, List, [], ◌∷◌, map, if◌then◌else◌, arith,
  inl, inr, ==_iff,
}
use datacake.Base.Result.{Result, ok, err, Result-cases}
use datacake.Base.Ord.{nat_ord}
use datacake.Base.Assoc.{get, Unique}
use datacake.Orswot.Versions.{contains}
use datacake.Orswot.Set.{Key, StateChanges, OrSWotSet, purge_old_deletes, add_raw_tombstones}
use datacake.Orswot.Slot.{Slot, absent, alive, deleted, slot, IsValid}
use datacake.Orswot.Purge.{
  purge_lem, purge-IsValid, get-insert_all, removed-Unique, insert_all-Unique,
}
use datacake.Keyspace.Storage.{Name, BulkMutationError, Storage}
use datacake.Keyspace.Actor.{KeyspaceActor, key_of, failed_tombstones, on_purge_tombstones}
use datacake.Keyspace.Agreement.{Agree}

get-failed :
    (k : Key) (ids : List Key) (l : StateChanges)
    → get k (failed_tombstones ids l) ≡ (if contains k ids then none else get k l)
unfolding failed_tombstones get
get-failed k ids [] = ground arith
get-failed k ids ((j, d) ∷ l) = ground (arith, get-failed k ids l, ==_iff j k)

failed-Unique : (ids : List Key) (l : StateChanges) → Unique l → Unique (failed_tombstones ids l)
unfolding failed_tombstones
failed-Unique ids [] u = tt
failed-Unique ids ((j, d) ∷ l) u = ground (arith, failed-Unique ids l u.1, get-failed j ids l, u.0)

abbrev is_some {ℓ} : {A : Type ℓ} → Option A → Bool
is_some none = false
is_some (some a) = true

contains-keys : (k : Key) (l : StateChanges) → contains k (map key_of l) ≡ is_some (get k l)
unfolding contains get
contains-keys k [] = refl
contains-keys k ((j, d) ∷ l) = ground (arith, contains-keys k l)

-- What is left of a stored key whose tombstone is removed.
abbrev pub forget : Slot → Slot
forget (deleted d) = absent
forget x = x

-- No live document.
abbrev pub IsDead : Slot → Type 0
IsDead absent = Unit
IsDead (alive ts) = ⊥
IsDead (deleted d) = Unit

-- The keys that the answer of a removal says are gone.
abbrev pub gone : {E : Type 0} → Result (BulkMutationError E) (Unit {0}) → Key → Bool
gone (ok u) k = true
gone (err e) k = contains k e.successful_doc_ids

-- The trait's `remove_tombstones`, called with keys that are no live documents: those that the
-- answer reports as done are no longer marked, and nothing else has changed.
abbrev pub RemovesTombstones :
    {St E Ctx : Type 0} → Storage St E Ctx → (Name → St → Key → Slot) → Type 0
RemovesTombstones {St} storage view =
    (name : Name) (keys : List Key) (st : St)
    → ((j : Key) → contains j keys ≡ true → IsDead (view name st j))
    → (k : Key)
    → let (st', res) = storage.remove_tombstones name keys st in
      view name st' k
      ≡ (if contains k keys && gone res k then forget (view name st k) else view name st k)

-- The slots of a set whose purged tombstones are put back but for some.
slot-put_back :
    (ids : List Key) (s : OrSWotSet) (k : Key)
    → IsValid s
    → let (s', changes) = purge_old_deletes s in
      slot k (add_raw_tombstones (failed_tombstones ids changes) s')
      ≡ (if contains k ids then slot k s' else slot k s)
unfolding add_raw_tombstones
slot-put_back ids s k v =
    let (s', changes) = purge_old_deletes s in
    ground (
      arith,
      purge_lem s k v,
      get-insert_all k (failed_tombstones ids changes) s'.dead
          (failed-Unique ids changes (removed-Unique s v)),
      get-failed k ids changes,
      v.disjoint k,
    )

put_back-IsValid :
    (ids : List Key) (s : OrSWotSet)
    → IsValid s
    → let (s', changes) = purge_old_deletes s in
      IsValid (add_raw_tombstones (failed_tombstones ids changes) s')
unfolding add_raw_tombstones
put_back-IsValid ids s v =
    let (s', changes) = purge_old_deletes s in
    let w = purge-IsValid s v in
    record {
      sorted = w.sorted;
      unique = insert_all-Unique (failed_tombstones ids changes) s'.dead w.unique;
      disjoint = λ k. ground (
        arith,
        w.disjoint k,
        v.disjoint k,
        purge_lem s k v,
        get-insert_all k (failed_tombstones ids changes) s'.dead
            (failed-Unique ids changes (removed-Unique s v)),
        get-failed k ids changes,
      );
    }

-- What a storage in agreement holds of a purged key is no live document.
purged-IsDead :
    (s : OrSWotSet) (k : Key) (stored : Slot)
    → IsValid s
    → contains k (map key_of (purge_old_deletes s).1) ≡ true
    → Agree stored (slot k s)
    → IsDead stored
purged-IsDead s k absent v h agree = tt
purged-IsDead s k (alive ts) v h agree =
    ground (arith, contains-keys k (purge_old_deletes s).1, purge_lem s k v, v.disjoint k)
purged-IsDead s k (deleted d) v h agree = tt

-- A purge keeps a valid keyspace valid and in agreement with a storage that removes what it says
-- it has removed. This holds also when the removal fails after some of the keys: the tombstones of
-- the others are put back.
pub on_purge-Agrees :
    {St E Ctx : Type 0} (storage : Storage St E Ctx) (view : Name → St → Key → Slot)
    → RemovesTombstones storage view
    → (self : KeyspaceActor) (st : St) → IsValid self.state
    → ((k : Key) → Agree (view self.name st k) (slot k self.state))
    → let (self', st', res) = on_purge_tombstones storage self st in
      IsValid self'.state × ((k : Key) → Agree (view self'.name st' k) (slot k self'.state))
unfolding on_purge_tombstones
on_purge-Agrees storage view removes self st v agree =
    let (s', changes) = purge_old_deletes self.state in
    let keys = map key_of changes in
    let dead : (j : Key) → contains j keys ≡ true → IsDead (view self.name st j) =
      λ j h. purged-IsDead self.state j (view self.name st j) v h (agree j) in
    let removal = storage.remove_tombstones self.name keys st in
    elim (Result-cases removal.1) [
      | inl (u, done) ↦
          rw (on_purge_tombstones, done)
            (
              purge-IsValid self.state v,
              λ k. ground (
                arith,
                agree k,
                removes self.name keys st dead k,
                contains-keys k changes,
                purge_lem self.state k v,
                v.disjoint k,
              ),
            )
      | inr (e, failed) ↦
          rw (on_purge_tombstones, failed)
            (
              put_back-IsValid e.successful_doc_ids self.state v,
              λ k. ground (
                arith,
                agree k,
                removes self.name keys st dead k,
                contains-keys k changes,
                purge_lem self.state k v,
                slot-put_back e.successful_doc_ids self.state k v,
                v.disjoint k,
              ),
            )
    ]
