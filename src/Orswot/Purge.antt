-- ===== src/Orswot/Purge.antt =====
-- `purge_old_deletes` and `add_raw_tombstones` (datacake-crdt/src/orswot.rs).
use datacake.Base.{
  ◌≡◌, refl, none, some, [], ◌∷◌, ◌++◌, if◌then◌else◌, arith, ◌⊎◌, inl, inr, ==_iff, Bool-cases,
}
use datacake.Base.Ord.{nat_ord}
use datacake.Base.Assoc.{get, Unique, get-append, append_one-Unique}
use datacake.Base.HashMap
use datacake.Base.HashMap.{insert-Unique}
use datacake.Orswot.Versions.{NodeVersions, is_ts_before_last_observed_event}
use datacake.Orswot.Set.{
  Key, StateChanges, OrSWotSet, purge_loop, purge_old_deletes, insert_all, add_raw_tombstones,
}
use datacake.Orswot.Slot.{slot, IsValid}
use datacake.Orswot.MergeSlots.{accepted_slot}

get-kept :
    (v : NodeVersions) (k : Key) (l kept dk : StateChanges)
    → Unique l
    → get k (purge_loop v l kept dk).0 ≡ elim (get k l) [
      | none ↦ get k kept
      | some d ↦ if is_ts_before_last_observed_event d v then get k kept else some d
    ]
unfolding purge_loop get
get-kept v k [] kept dk u = refl
get-kept v k ((j, d) ∷ l) kept dk u = elim (Bool-cases (is_ts_before_last_observed_event d v)) [
  | inl old ↦ ground (arith, get-kept v k l kept (dk ++ (j, d) ∷ []) u.1, ==_iff j k)
  | inr new ↦ ground (
    arith,
    get-kept v k l (HashMap.insert j d kept) dk u.1,
    HashMap.get-insert k j d kept,
    ==_iff j k,
  )
]

kept-Unique :
    (v : NodeVersions) (l kept dk : StateChanges) → Unique kept → Unique (purge_loop v l kept dk).0
unfolding purge_loop
kept-Unique v [] kept dk u = u
kept-Unique v ((j, d) ∷ l) kept dk u =
    let old = is_ts_before_last_observed_event d v in
    kept-Unique v l (if old then kept else HashMap.insert j d kept)
      (if old then dk ++ (j, d) ∷ [] else dk) (ground (arith, insert-Unique j d kept u))

get-purged :
    (v : NodeVersions) (k : Key) (l kept dk : StateChanges)
    → Unique l
    → get k (purge_loop v l kept dk).1 ≡ elim (get k dk) [
      | some x ↦ some x
      | none ↦ elim (get k l) [
        | none ↦ none
        | some d ↦ if is_ts_before_last_observed_event d v then some d else none
      ]
    ]
unfolding purge_loop get
get-purged v k [] kept dk u = ground arith
get-purged v k ((j, d) ∷ l) kept dk u = elim (Bool-cases (is_ts_before_last_observed_event d v)) [
  | inl old ↦ ground (
    arith,
    get-purged v k l kept (dk ++ (j, d) ∷ []) u.1,
    get-append k dk ((j, d) ∷ []),
    ==_iff j k,
  )
  | inr new ↦ ground (arith, get-purged v k l (HashMap.insert j d kept) dk u.1, ==_iff j k)
]

-- A purge takes away the tombstones that all sources have passed, and nothing else: entries and
-- versions stay as they are. What it returns of a key is exactly the tombstone taken away.
pub purge_lem :
    (s : OrSWotSet) (k : Key)
    → IsValid s
    → let (s', removed) = purge_old_deletes s in
      (s'.entries ≡ s.entries)
      × (s'.versions ≡ s.versions)
      × (slot k s' ≡ accepted_slot s.versions (slot k s))
      × (get k removed ≡ elim (get k s.dead) [
        | none ↦ none
        | some d ↦ if is_ts_before_last_observed_event d s.versions then some d else none
      ])
unfolding purge_old_deletes get
purge_lem s k v = (
  refl,
  refl,
  ground (arith, get-kept s.versions k s.dead [] [] v.unique, v.disjoint k),
  get-purged s.versions k s.dead [] [] v.unique,
)

pub purge-IsValid : (s : OrSWotSet) → IsValid s → IsValid (purge_old_deletes s).0
unfolding purge_old_deletes get
purge-IsValid s v = record {
  sorted = v.sorted;
  unique = kept-Unique s.versions s.dead [] [] tt;
  disjoint = λ k. ground (arith, get-kept s.versions k s.dead [] [] v.unique, v.disjoint k);
}

pub get-insert_all :
    (k : Key) (l dead : StateChanges)
    → Unique l
    → get k (insert_all l dead) ≡ elim (get k l) [ none ↦ get k dead | some d ↦ some d ]
unfolding insert_all get
get-insert_all k [] dead u = refl
get-insert_all k ((j, d) ∷ l) dead u = ground (
  arith,
  get-insert_all k l (HashMap.insert j d dead) u.1,
  HashMap.get-insert k j d dead,
  ==_iff j k,
)

purged-Unique :
    (v : NodeVersions) (l kept dk : StateChanges)
    → Unique l
    → Unique dk
    → ((k : Key) → (get k dk ≡ none) ⊎ (get k l ≡ none))
    → Unique (purge_loop v l kept dk).1
unfolding purge_loop get
purged-Unique v [] kept dk u w apart = w
purged-Unique v ((j, d) ∷ l) kept dk u w apart =
    let old = is_ts_before_last_observed_event d v in
    purged-Unique v l (if old then kept else HashMap.insert j d kept)
      (if old then dk ++ (j, d) ∷ [] else dk) u.1
      (ground (arith, append_one-Unique j d dk w, apart j))
      (λ k. ground (arith, apart k, get-append k dk ((j, d) ∷ []), ==_iff j k, u.0))

-- A purge whose tombstones are put back, as after a failed write, has changed no slot.
pub add_raw_tombstones-purge :
    (s : OrSWotSet) (k : Key)
    → IsValid s
    → let (s', removed) = purge_old_deletes s in slot k (add_raw_tombstones removed s') ≡ slot k s
unfolding purge_old_deletes add_raw_tombstones get
add_raw_tombstones-purge s k v =
    let loop = purge_loop s.versions s.dead [] [] in
    ground (
      arith,
      get-insert_all k loop.1 loop.0
          (purged-Unique s.versions s.dead [] [] v.unique tt (λ j. inl refl)),
      get-kept s.versions k s.dead [] [] v.unique,
      get-purged s.versions k s.dead [] [] v.unique,
      v.disjoint k,
    )

pub removed-Unique : (s : OrSWotSet) → IsValid s → Unique (purge_old_deletes s).1
unfolding purge_old_deletes get
removed-Unique s v = purged-Unique s.versions s.dead [] [] v.unique tt (λ j. inl refl)

pub insert_all-Unique : (l dead : StateChanges) → Unique dead → Unique (insert_all l dead)
unfolding insert_all
insert_all-Unique [] dead u = u
insert_all-Unique ((j, d) ∷ l) dead u =
    insert_all-Unique l (HashMap.insert j d dead) (insert-Unique j d dead u)
