-- ===== src/Keyspace/BulkAgreement.antt =====
-- The agreement of a keyspace with its storage over bulk sets and deletes
-- (datacake-eventual-consistency/src/keyspace/actor.rs).
use datacake.Base.{
  ℕ, ◌≡◌, refl, ap, ◌∙◌, ◌⊎◌, Bool, true, false, ◌&&◌, Option, none, some, List, [], ◌∷◌, map,
  if◌then◌else◌, arith, ==_iff, take, inl, inr, Option-cases, Bool-cases,
}
use datacake.Base.Result.{Result, ◌>>=◌}
use datacake.Base.Ord.{nat_ord}
use datacake.Base.Assoc.{get, at, Unique}
use datacake.Base.Sort.{All}
use datacake.Timestamp.Fields.{HlcTimestamp}
use datacake.Orswot.Set.{Key, StateChanges, OrSWotSet, will_apply}
use datacake.Orswot.Slot.{Slot, absent, alive, deleted, slot, join, join-absent, IsValid}
use datacake.Keyspace.Storage.{Name, DocumentMetadata, Document, BulkMutationError, Storage}
use datacake.Keyspace.Actor.{
  KeyspaceActor, MultiSet, MultiDel, entry_of, applicable, applicable_docs, valid_entries,
  confirmed, inc_change_timestamp, on_multi_set, on_multi_del,
}
use datacake.Keyspace.Agreement.{Agree, will_apply-join}
use datacake.Keyspace.Bulk.{wrote, said, AcceptsEntry, insert-deliver_all, delete-deliver_all}
use datacake.Keyspace.BulkSettle.{settle}

abbrev pub metadata_of : Document → DocumentMetadata
metadata_of doc = doc.metadata

-- The keys and times of documents, in their order.
abbrev pub entries : List Document → StateChanges
entries docs = map entry_of (map metadata_of docs)

-- What the trait documents of bulk writes of distinct keys: those that the answer reports as
-- written are there, the others are as before, and the written ones were taken from the iterator.
pub record IsBulkDurable {St E Ctx : Type 0} (storage : Storage St E Ctx)
    (view : Name → St → Key → Slot) : Type 0 where
  pub multi_put :
      (name : Name) (docs : List Document) (ctx : Option Ctx) (st : St)
      → Unique (entries docs)
      → let (st', taken, res) = storage.multi_put_with_ctx name docs ctx st in
        ((k : Key)
          → (view name st' k ≡ elim (get k (entries docs)) [
            | none ↦ view name st k
            | some ts ↦ if wrote res k then alive ts else view name st k
          ])
            × (wrote res k ≡ true → at k (take taken (entries docs)) ≡ at k (entries docs)))
  pub mark_many :
      (name : Name) (docs : List DocumentMetadata) (st : St)
      → Unique (map entry_of docs)
      → let (st', taken, res) = storage.mark_many_as_tombstone name docs st in
        ((k : Key)
          → ((view name st' k ≡ elim (get k (map entry_of docs)) [
            | none ↦ view name st k
            | some ts ↦ if wrote res k then deleted ts else view name st k
          ])
              ⊎ ((view name st k ≡ absent) × (view name st' k ≡ absent)))
            × (wrote res k ≡ true
                → at k (take taken (map entry_of docs)) ≡ at k (map entry_of docs)))

get-applicable :
    (k : Key) (s : OrSWotSet) (docs : List DocumentMetadata)
    → Unique (map entry_of docs)
    → get k (map entry_of (applicable s docs)) ≡ elim (get k (map entry_of docs)) [
      | none ↦ none
      | some ts ↦ if will_apply k ts s then some ts else none
    ]
unfolding applicable get
get-applicable k s [] u = refl
get-applicable k s (doc ∷ docs) u =
    ground (arith, ==_iff doc.id k, u.0, get-applicable k s docs u.1)

applicable-Unique :
    (s : OrSWotSet) (docs : List DocumentMetadata)
    → Unique (map entry_of docs)
    → Unique (map entry_of (applicable s docs))
unfolding applicable
applicable-Unique s [] u = tt
applicable-Unique s (doc ∷ docs) u = elim (Bool-cases (will_apply doc.id doc.last_updated s)) [
  | inl e ↦
      rw e (ground (arith, get-applicable doc.id s docs u.1, u.0), applicable-Unique s docs u.1)
  | inr e ↦ rw e (applicable-Unique s docs u.1)
]

applicable-All :
    (P : Key × HlcTimestamp → Type 0) (s : OrSWotSet) (docs : List DocumentMetadata)
    → All P (map entry_of docs)
    → All P (map entry_of (applicable s docs))
unfolding applicable
applicable-All P s [] a = tt
applicable-All P s (doc ∷ docs) a = elim (Bool-cases (will_apply doc.id doc.last_updated s)) [
  | inl e ↦ rw e (a.0, applicable-All P s docs a.1)
  | inr e ↦ rw e (applicable-All P s docs a.1)
]

map-applicable_docs :
    (s : OrSWotSet) (docs : List Document)
    → map metadata_of (applicable_docs s docs) ≡ applicable s (map metadata_of docs)
unfolding applicable_docs applicable
map-applicable_docs s [] = refl
map-applicable_docs s (doc ∷ docs) =
    elim (Bool-cases (will_apply doc.metadata.id doc.metadata.last_updated s)) [
      | inl e ↦ rw e (ap (λ l. doc.metadata ∷ l) (map-applicable_docs s docs))
      | inr e ↦ rw e (map-applicable_docs s docs)
    ]

-- The slot of a key after the written documents are applied.
settled_slot :
    {E : Type 0} (source : ℕ) (is_delete : Bool) (s : OrSWotSet) (docs : List DocumentMetadata)
    (res : Result (BulkMutationError E) (Unit {0})) (k : Key)
    → IsValid s
    → Unique (map entry_of docs)
    → join (slot k s) (
        if wrote res k
        then elim (get k (map entry_of (applicable s docs))) [
          | none ↦ absent
          | some ts ↦ said source is_delete ts
        ]
        else absent)
      ≡ elim (get k (map entry_of docs)) [
        | none ↦ slot k s
        | some ts ↦ if wrote res k && will_apply k ts s then said source is_delete ts else slot k s
      ]
settled_slot source is_delete s docs res k v u = elim (Option-cases (get k (map entry_of docs))) [
  | inl e ↦ ground (arith, get-applicable k s docs u, join-absent (slot k s))
  | inr (ts, e) ↦
      ground (arith, get-applicable k s docs u, join-absent (slot k s), will_apply-join k ts s v)
]

module _ {St E Ctx : Type 0} (storage : Storage St E Ctx) (view : Name → St → Key → Slot)
    (durable : IsBulkDurable storage view) where
  -- A bulk delete of distinct keys that the source may send never panics, and keeps a valid keyspace
  -- valid and in agreement with its storage, also where the storage fails after some of them. The
  -- slots that become tombstones are those of the documents that `will_apply` accepts and the storage
  -- reports as written.
  pub on_multi_del-Agrees :
      (now : HlcTimestamp) (msg : MultiDel) (self : KeyspaceActor) (st : St)
      → IsValid self.state
      → Unique (map entry_of msg.docs)
      → All (AcceptsEntry msg.source self.state) (map entry_of msg.docs)
      → ((k : Key) → Agree (view self.name st k) (slot k self.state))
      → (self' : KeyspaceActor) × (st' : St) × (res : Result (BulkMutationError E) (Unit {0}))
        × (on_multi_del storage now msg self st ≡ some (self', st', res))
        × IsValid self'.state
        × ((k : Key) → Agree (view self'.name st' k) (slot k self'.state))
        × ((k : Key)
            → slot k self'.state ≡ elim (get k (map entry_of msg.docs)) [
              | none ↦ slot k self.state
              | some ts ↦
                  if wrote res k && will_apply k ts self.state
                  then deleted ts
                  else slot k self.state
            ])
  unfolding on_multi_del inc_change_timestamp
  on_multi_del-Agrees now msg self st v u a agree =
      let docs = applicable self.state msg.docs in
      let marking = storage.mark_many_as_tombstone self.name docs st in
      let u' = applicable-Unique self.state msg.docs u in
      let law = durable.mark_many self.name docs st u' in
      let (s', e, v', slots) =
        settle msg.source true docs marking.1 marking.2 self.state v u'
          (applicable-All (AcceptsEntry msg.source self.state) self.state msg.docs a)
          (λ k. (law k).1) in
      let final : (k : Key)
          → slot k s' ≡ elim (get k (map entry_of msg.docs)) [
            | none ↦ slot k self.state
            | some ts ↦
                if wrote marking.2 k && will_apply k ts self.state
                then deleted ts
                else slot k self.state
          ] =
        λ k. slots k ∙ settled_slot msg.source true self.state msg.docs marking.2 k v u in
      (
        record self { state = s'; change_timestamp = now },
        marking.0,
        marking.2,
        rw
            (
              on_multi_del,
              delete-deliver_all msg.source (confirmed marking.2 (valid_entries marking.1 docs))
                  self.state,
              e,
              ◌>>=◌,
            )
            refl,
        v',
        (λ k. ground (arith, agree k, final k, (law k).0, get-applicable k self.state msg.docs u)),
        final,
      )

  -- A bulk set of documents with distinct keys that the source may send never panics, and keeps a
  -- valid keyspace valid and in agreement with its storage, also where the storage fails after some
  -- of them. The slots that change are those of the documents that `will_apply` accepts and the
  -- storage reports as written; they become the documents'.
  pub on_multi_set-Agrees :
      (now : HlcTimestamp) (msg : MultiSet Ctx) (self : KeyspaceActor) (st : St)
      → IsValid self.state
      → Unique (entries msg.docs)
      → All (AcceptsEntry msg.source self.state) (entries msg.docs)
      → ((k : Key) → Agree (view self.name st k) (slot k self.state))
      → (self' : KeyspaceActor) × (st' : St) × (res : Result (BulkMutationError E) (Unit {0}))
        × (on_multi_set storage now msg self st ≡ some (self', st', res))
        × IsValid self'.state
        × ((k : Key) → Agree (view self'.name st' k) (slot k self'.state))
        × ((k : Key)
            → slot k self'.state ≡ elim (get k (entries msg.docs)) [
              | none ↦ slot k self.state
              | some ts ↦
                  if wrote res k && will_apply k ts self.state then alive ts else slot k self.state
            ])
  unfolding on_multi_set inc_change_timestamp
  on_multi_set-Agrees now msg self st v u a agree =
      let docs = applicable_docs self.state msg.docs in
      let metas = map metadata_of msg.docs in
      let passed = map-applicable_docs self.state msg.docs in
      let put = storage.multi_put_with_ctx self.name docs msg.ctx st in
      let u' : Unique (entries docs) = rw passed (applicable-Unique self.state metas u) in
      let law = durable.multi_put self.name docs msg.ctx st u' in
      let (s', e, v', slots) =
        settle msg.source false (map metadata_of docs) put.1 put.2 self.state v u'
          (rw passed (applicable-All (AcceptsEntry msg.source self.state) self.state metas a))
          (λ k. (law k).1) in
      let final : (k : Key)
          → slot k s' ≡ elim (get k (entries msg.docs)) [
            | none ↦ slot k self.state
            | some ts ↦
                if wrote put.2 k && will_apply k ts self.state then alive ts else slot k self.state
          ] =
        λ k. slots k ∙ rw passed (settled_slot msg.source false self.state metas put.2 k v u) in
      let listed : (k : Key)
          → get k (entries docs) ≡ elim (get k (entries msg.docs)) [
            | none ↦ none
            | some ts ↦ if will_apply k ts self.state then some ts else none
          ] =
        λ k. rw passed (get-applicable k self.state metas u) in
      (
        record self { state = s'; change_timestamp = now },
        put.0,
        put.2,
        rw
            (
              on_multi_set,
              insert-deliver_all msg.source
                  (confirmed put.2 (valid_entries put.1 (map metadata_of docs))) self.state,
              e,
              ◌>>=◌,
            )
            refl,
        v',
        (λ k. ground (arith, agree k, final k, (law k).0, listed k)),
        final,
      )
