-- ===== src/Keyspace/Agreement.antt =====
-- The agreement of a keyspace with its storage over sets and deletes
-- (datacake-eventual-consistency/src/keyspace/actor.rs).
use datacake.Base.{
  ℕ, ◌≡◌, refl, ◌∙◌, Bool, true, false, ◌&&◌, Option, some, if◌then◌else◌, arith, ◌⊎◌, inl, inr,
  ◌≤◌, ◌==◌, ==_iff, Bool-cases,
}
use datacake.Base.Result.{Result, ok, err, ◌>>=◌, Result-cases, is_ok}
use datacake.Base.Ord.{nat_ord}
use datacake.Timestamp.Fields.{HlcTimestamp, node}
use datacake.Orswot.Set.{Key, OrSWotSet, will_apply, insert_with_source, delete_with_source}
use datacake.Orswot.Slot.{Slot, absent, alive, deleted, slot, join, IsValid}
use datacake.Orswot.Observed.{seen_by, HasSource}
use datacake.Orswot.Replica.{Op, deliver, deliver_applies}
use datacake.Keyspace.Storage.{Name, Document, Storage}
use datacake.Keyspace.Actor.{KeyspaceActor, Set, Del, inc_change_timestamp, on_set, on_del}

-- What will be applied is later than the slot of its key.
pub will_apply-join :
    (k : Key) (ts : HlcTimestamp) (s : OrSWotSet)
    → IsValid s
    → will_apply k ts s ≡ true
    → (join (slot k s) (alive ts) ≡ alive ts) × (join (slot k s) (deleted ts) ≡ deleted ts)
unfolding will_apply join
will_apply-join k ts s v h = ground (arith, v.disjoint k)

-- The source may send the timestamp: it is known, and has sent nothing later of the node.
abbrev pub Accepts : ℕ → HlcTimestamp → OrSWotSet → Type 0
Accepts source ts s =
    HasSource source s.versions
    × ((last : HlcTimestamp) → seen_by source (node ts) s.versions ≡ some last → last ≤ ts)

insert_applies :
    (source : ℕ) (k : Key) (ts : HlcTimestamp) (s : OrSWotSet)
    → IsValid s
    → Accepts source ts s
    → will_apply k ts s ≡ true
    → (s' : OrSWotSet) × (b : Bool) × (insert_with_source source k ts s ≡ some (s', b))
      × IsValid s'
      × ((j : Key) → slot j s' ≡ (if k == j then alive ts else slot j s))
unfolding deliver
insert_applies source k ts s v a h =
    let op : Op = record { source = source; key = k; ts = ts; is_delete = false } in
    let (s', b, e, v', slots, sees, has) = deliver_applies op s v a.0 a.1 in
    (s', b, e, v', λ j. slots j ∙ ground (arith, will_apply-join k ts s v h, ==_iff k j))

delete_applies :
    (source : ℕ) (k : Key) (ts : HlcTimestamp) (s : OrSWotSet)
    → IsValid s
    → Accepts source ts s
    → will_apply k ts s ≡ true
    → (s' : OrSWotSet) × (b : Bool) × (delete_with_source source k ts s ≡ some (s', b))
      × IsValid s'
      × ((j : Key) → slot j s' ≡ (if k == j then deleted ts else slot j s))
unfolding deliver
delete_applies source k ts s v a h =
    let op : Op = record { source = source; key = k; ts = ts; is_delete = true } in
    let (s', b, e, v', slots, sees, has) = deliver_applies op s v a.0 a.1 in
    (s', b, e, v', λ j. slots j ∙ ground (arith, will_apply-join k ts s v h, ==_iff k j))

-- What the storage holds of a key, against the slot of the key: the same, or nothing where the
-- slot is a tombstone (a storage need not mark what it does not hold).
abbrev pub Agree : Slot → Slot → Type 0
Agree stored held = (stored ≡ held) ⊎ ((stored ≡ absent) × (d : HlcTimestamp) × (held ≡ deleted d))

-- What the trait documents of single writes: a write that succeeds is there, one that fails has
-- changed nothing, and a mark of what is not there may do nothing.
pub record IsDurable {St E Ctx : Type 0} (storage : Storage St E Ctx)
    (view : Name → St → Key → Slot) : Type 0 where
  pub put :
      (name : Name) (doc : Document) (ctx : Option Ctx) (st : St) (k : Key)
      → let (st', res) = storage.put_with_ctx name doc ctx st in
        view name st' k ≡ (
          if is_ok res && doc.metadata.id == k
          then alive doc.metadata.last_updated
          else view name st k)
  pub mark :
      (name : Name) (id : Key) (ts : HlcTimestamp) (st : St) (k : Key)
      → let (st', res) = storage.mark_as_tombstone name id ts st in
        (view name st' k ≡ (if is_ok res && id == k then deleted ts else view name st k))
        ⊎ ((view name st k ≡ absent) × (view name st' k ≡ absent))

module _ {St E Ctx : Type 0} (storage : Storage St E Ctx) (view : Name → St → Key → Slot)
    (durable : IsDurable storage view) where
  abbrev pub Agrees : KeyspaceActor → St → Type 0
  Agrees self st = (k : Key) → Agree (view self.name st k) (slot k self.state)

  -- A set that the source may send never panics, and keeps a valid keyspace valid and in agreement
  -- with its storage, whether it is applied, outdated, or refused by the storage. Exactly where
  -- `will_apply` says yes and the storage succeeds the slot of the document becomes the document's,
  -- and no other slot changes.
  pub on_set-Agrees :
      (now : HlcTimestamp) (msg : Set Ctx) (self : KeyspaceActor) (st : St)
      → IsValid self.state
      → Accepts msg.source msg.doc.metadata.last_updated self.state
      → Agrees self st
      → let k = msg.doc.metadata.id in
        let ts = msg.doc.metadata.last_updated in
        (self' : KeyspaceActor) × (st' : St) × (res : Result E (Unit {0})) × (on_set storage now msg
            self st
          ≡ some (self', st', res))
        × IsValid self'.state
        × Agrees self' st'
        × ((j : Key)
            → slot j self'.state ≡ (
                if is_ok res && will_apply k ts self.state && k == j
                then alive ts
                else slot j self.state))
  unfolding on_set inc_change_timestamp
  on_set-Agrees now msg self st v a agree =
      let k = msg.doc.metadata.id in
      let ts = msg.doc.metadata.last_updated in
      let put = storage.put_with_ctx self.name msg.doc msg.ctx st in
      let stored = durable.put self.name msg.doc msg.ctx st in
      elim (Bool-cases (will_apply k ts self.state)) [
        | inr stale ↦ (self, st, ok tt, rw stale refl, v, agree, λ j. ground arith)
        | inl newer ↦ elim (Result-cases put.1) [
          | inr (e, failed) ↦ (
            self,
            put.0,
            err e,
            rw (newer, failed) refl,
            v,
            (λ j. ground (arith, agree j, stored j)),
            (λ j. refl),
          )
          | inl (u, done) ↦
              let (s', b, e, v', slots) = insert_applies msg.source k ts self.state v a newer in
              (
                record self { state = s'; change_timestamp = now },
                put.0,
                ok tt,
                rw (newer, done, e, ◌>>=◌) refl,
                v',
                (λ j. ground (arith, agree j, slots j, stored j)),
                (λ j. ground (arith, slots j)),
              )
        ]
      ]

  -- A delete that the source may send never panics, and keeps a valid keyspace valid and in agreement
  -- with its storage, whether it is applied, outdated, or refused by the storage. Exactly where
  -- `will_apply` says yes and the storage succeeds the slot of the document becomes its tombstone,
  -- and no other slot changes.
  pub on_del-Agrees :
      (now : HlcTimestamp) (msg : Del) (self : KeyspaceActor) (st : St)
      → IsValid self.state
      → Accepts msg.source msg.doc.last_updated self.state
      → Agrees self st
      → let k = msg.doc.id in
        let ts = msg.doc.last_updated in
        (self' : KeyspaceActor) × (st' : St) × (res : Result E (Unit {0})) × (on_del storage now msg
            self st
          ≡ some (self', st', res))
        × IsValid self'.state
        × Agrees self' st'
        × ((j : Key)
            → slot j self'.state ≡ (
                if is_ok res && will_apply k ts self.state && k == j
                then deleted ts
                else slot j self.state))
  unfolding on_del inc_change_timestamp
  on_del-Agrees now msg self st v a agree =
      let k = msg.doc.id in
      let ts = msg.doc.last_updated in
      let mark = storage.mark_as_tombstone self.name k ts st in
      let marked = durable.mark self.name k ts st in
      elim (Bool-cases (will_apply k ts self.state)) [
        | inr stale ↦ (self, st, ok tt, rw stale refl, v, agree, λ j. ground arith)
        | inl newer ↦ elim (Result-cases mark.1) [
          | inr (e, failed) ↦ (
            self,
            mark.0,
            err e,
            rw (newer, failed) refl,
            v,
            (λ j. ground (arith, agree j, marked j)),
            (λ j. refl),
          )
          | inl (u, done) ↦
              let (s', b, e, v', slots) = delete_applies msg.source k ts self.state v a newer in
              (
                record self { state = s'; change_timestamp = now },
                mark.0,
                ok tt,
                rw (newer, done, e, ◌>>=◌) refl,
                v',
                (λ j. ground (arith, agree j, slots j, marked j)),
                (λ j. ground (arith, slots j)),
              )
        ]
      ]
