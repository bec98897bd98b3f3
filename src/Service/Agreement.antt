-- ===== src/Service/Agreement.antt =====
-- A put that a node is sent, against all of its keyspaces and its storage
-- (datacake-eventual-consistency/src/rpc/services/consistency_impl.rs).
use datacake.Base.{
  ℕ, ◌≡◌, refl, false, ◌&&◌, Option, none, some, ◌==◌, ==_iff, if◌then◌else◌, arith, inl, inr,
  Option-cases, Bool-cases,
}
use datacake.Base.Result.{Result, ◌>>=◌, is_ok, Result-cases}
use datacake.Base.Ord.{nat_ord}
use datacake.Base.Assoc.{get}
use datacake.Base.BTreeMap
use datacake.Base.Text.{Text}
use datacake.Timestamp.Fields.{HlcTimestamp}
use datacake.Orswot.Set.{Key, OrSWotSet, will_apply, insert_with_source, default}
use datacake.Orswot.Slot.{Slot, alive, slot, IsValid}
use datacake.Keyspace.Storage.{Name, Document, Storage}
use datacake.Keyspace.Actor.{KeyspaceActor, Set, on_set, inc_change_timestamp}
use datacake.Keyspace.Agreement.{Accepts, Agree, IsDurable, on_set-Agrees}
use datacake.Keyspace.Group.{
  KeyspaceMap, num_sources, get_or_create_keyspace, add_state, spawn_keyspace,
}
use datacake.Service.Node.{
  PutContext, Node, set, StorageFailure, single, asked_after, is_new, asks_time, failure, handle,
  send_keyspace,
}
use datacake.Rpc.Status.{Status}

-- A put to one keyspace leaves the others alone.
abbrev pub PutsLocally : {St E Ctx : Type 0} → Storage St E Ctx → (Name → St → Key → Slot) → Type 0
PutsLocally {St} {E} {Ctx} storage view =
    (name other : Name) (doc : Document) (ctx : Option Ctx) (st : St) (k : Key)
    → (name == other) ≡ false
    → view other (storage.put_with_ctx name doc ctx st).0 k ≡ view other st k

-- The state of a keyspace, a new one where it does not exist yet.
abbrev pub state_of : Name → KeyspaceMap → OrSWotSet
state_of name group = elim (get name group) [
  | none ↦ default num_sources
  | some actor ↦ actor.state
]

-- Every keyspace is valid, has its name, and agrees with the storage; the storage holds nothing of
-- keyspaces that do not exist.
abbrev pub GroupAgrees : {St : Type 0} → (Name → St → Key → Slot) → KeyspaceMap → St → Type 0
GroupAgrees view group st =
    (name : Name)
    → IsValid (state_of name group)
      × ((k : Key) → Agree (view name st k) (slot k (state_of name group)))
      × ((actor : KeyspaceActor) → get name group ≡ some actor → actor.name ≡ name)

-- The keyspace that a message goes to.
created :
    (now : HlcTimestamp) (name : Name) (group : KeyspaceMap)
    → let (group', actor) = get_or_create_keyspace now name group in
      (actor.state ≡ state_of name group)
      × (((actor' : KeyspaceActor) → get name group ≡ some actor' → actor'.name ≡ name)
          → actor.name ≡ name)
      × ((other : Name) → (name == other) ≡ false → get other group' ≡ get other group)
unfolding get_or_create_keyspace add_state spawn_keyspace
created now name group = elim (Option-cases (get name group)) [
  | inl e ↦
      let fresh = spawn_keyspace name (default num_sources) now in
      rw (get_or_create_keyspace, state_of, e)
        (refl, (λ h. refl), λ other ne. ground (arith, BTreeMap.get-insert other name fresh group))
  | inr (actor, e) ↦
      rw (get_or_create_keyspace, state_of, e) (refl, (λ h. h actor refl), λ other ne. refl)
]

module _ {St E Channel : Type 0} (storage : Storage St E (PutContext Channel))
    (view : Name → St → Key → Slot) (durable : IsDurable storage view)
    (local : PutsLocally storage view) where
  -- What a set does not change.
  on_set_frame :
      (now : HlcTimestamp) (msg : Set (PutContext Channel)) (self : KeyspaceActor) (st : St)
      {self' : KeyspaceActor} {st' : St} {res : Result E (Unit {0})}
      → on_set storage now msg self st ≡ some (self', st', res)
      → (self'.name ≡ self.name)
        × ((other : Name) (k : Key)
            → (self.name == other) ≡ false
            → view other st' k ≡ view other st k)
  unfolding on_set inc_change_timestamp
  on_set_frame now msg self st {self'} {st'} {res} h =
      let id = msg.doc.metadata.id in
      let ts = msg.doc.metadata.last_updated in
      let put = storage.put_with_ctx self.name msg.doc msg.ctx st in
      elim (Bool-cases (will_apply id ts self.state)) [
        | inr stale ↦ (ground arith, λ other k ne. ground arith)
        | inl newer ↦ elim (Result-cases put.1) [
          | inr (e, failed) ↦ (
            ground arith,
            λ other k ne. ground (arith, local self.name other msg.doc msg.ctx st k ne),
          )
          | inl (u, stored) ↦ elim (Option-cases (insert_with_source msg.source id ts self.state)) [
            | inl panic ↦ absurd (ground arith)
            | inr ((s', b), applied) ↦ (
              ground arith,
              λ other k ne. ground (arith, local self.name other msg.doc msg.ctx st k ne),
            )
          ]
        ]
      ]

  module _ (time : ℕ → HlcTimestamp) where
    -- A set that is sent to a keyspace, over all keyspaces.
    pub send_keyspace-set :
        (name : Name) (msg : Set (PutContext Channel)) (node : Node St Channel)
        → let k = msg.doc.metadata.id in
          let ts = msg.doc.metadata.last_updated in
          GroupAgrees view node.group node.storage
          → Accepts msg.source ts (state_of name node.group)
          → (node' : Node St Channel) × (res : Result (StorageFailure E) (Unit {0}))
            × (send_keyspace storage time name (set msg) node ≡ some (node', res))
            × GroupAgrees view node'.group node'.storage
            × ((other : Name) (j : Key)
                → slot j (state_of other node'.group) ≡ (
                    if is_ok res
                      && will_apply k ts (state_of name node.group)
                      && name == other
                      && k == j
                    then alive ts
                    else slot j (state_of other node.group)))
    unfolding send_keyspace handle asks_time asked_after
    send_keyspace-set name msg node agrees accepts =
        let k = msg.doc.metadata.id in
        let ts = msg.doc.metadata.last_updated in
        let (group', actor) = get_or_create_keyspace (time node.asked) name node.group in
        let (same, named, others) = created (time node.asked) name node.group in
        let called : actor.name ≡ name = named (agrees name).2 in
        let asked = asked_after (is_new name node.group) node.asked in
        let now = time asked in
        let (self', st', r, e, v', agree', slots) =
          on_set-Agrees storage view durable now msg actor node.storage (rw same (agrees name).0)
            (rw same accepts) (rw (called, same) (agrees name).1) in
        let (kept, elsewhere) = on_set_frame now msg actor node.storage e in
        let final = BTreeMap.insert name self' group' in
        let found : (other : Name)
            → get other final ≡ (if name == other then some self' else get other node.group) =
          λ other. ground (arith, BTreeMap.get-insert other name self' group', others other) in
        let state : (other : Name)
            → state_of other final
              ≡ (if name == other then self'.state else state_of other node.group) =
          λ other. ground (arith, found other) in
        (
          record node {
            group = final;
            storage = st';
            asked = asked_after (asks_time storage time (set msg) actor (failure single r)) asked;
          },
          failure single r,
          rw (send_keyspace, handle, e, ◌>>=◌) refl,
          (λ other. elim (Bool-cases (name == other)) [
            | inl here ↦ (
              rw (state other, here) v',
              (λ j. rw (state other, here) (ground (arith, ==_iff name other, agree' j))),
              (λ actor' h. ground (arith, found other, ==_iff name other)),
            )
            | inr there ↦ (
              rw (state other, there) (agrees other).0,
              (λ j.
                  rw (state other, there)
                    (ground (arith, (agrees other).1 j, elsewhere other j (ground arith)))),
              (λ actor' h. ground (arith, found other, (agrees other).2 actor')),
            )
          ]),
          (λ other j. ground (arith, state other, slots j, same, ==_iff name other)),
        )
