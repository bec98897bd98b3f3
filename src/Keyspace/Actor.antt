-- ===== src/Keyspace/Actor.antt =====
-- The handlers of a keyspace (datacake-eventual-consistency/src/keyspace/actor.rs). Each returns
-- the new actor, the new storage and the answer.
use datacake.Base.{ℕ, not, Option, some, List, [], ◌∷◌, ◌++◌, map, if◌then◌else◌, take}
use datacake.Base.Result.{Result, ok, err, ◌>>=◌}
use datacake.Base.Sort.{sort_by_key}
use datacake.Timestamp.Fields.{HlcTimestamp}
use datacake.Orswot.Versions.{contains}
use datacake.Orswot.Set.{
  Key, StateChanges, OrSWotSet, will_apply, insert_with_source, delete_with_source,
  purge_old_deletes, add_raw_tombstones,
}
use datacake.Orswot.Diff.{diff}
use datacake.Keyspace.Storage.{Name, DocumentMetadata, Document, BulkMutationError, Storage}

pub record KeyspaceActor : Type 0 where
  pub name : Name
  pub state : OrSWotSet
  pub change_timestamp : HlcTimestamp

pub record Set (Ctx : Type 0) : Type 0 where
  pub source : ℕ
  pub doc : Document
  pub ctx : Option Ctx

pub record MultiSet (Ctx : Type 0) : Type 0 where
  pub source : ℕ
  pub docs : List Document
  pub ctx : Option Ctx

pub record Del : Type 0 where
  pub source : ℕ
  pub doc : DocumentMetadata

pub record MultiDel : Type 0 where
  pub source : ℕ
  pub docs : List DocumentMetadata

-- The time is read from the clock actor.
unfoldable pub inc_change_timestamp : HlcTimestamp → KeyspaceActor → KeyspaceActor
inc_change_timestamp now self = record self { change_timestamp = now }

abbrev pub entry_of : DocumentMetadata → Key × HlcTimestamp
entry_of doc = (doc.id, doc.last_updated)

-- The documents that pass the filter.
unfoldable pub applicable : OrSWotSet → List DocumentMetadata → List DocumentMetadata
applicable s [] = []
applicable s (doc ∷ docs) =
    let rest = applicable s docs in
    if will_apply doc.id doc.last_updated s then doc ∷ rest else rest

unfoldable pub applicable_docs : OrSWotSet → List Document → List Document
applicable_docs s [] = []
applicable_docs s (doc ∷ docs) =
    let rest = applicable_docs s docs in
    if will_apply doc.metadata.id doc.metadata.last_updated s then doc ∷ rest else rest

abbrev pub entry_time : Key × HlcTimestamp → HlcTimestamp
entry_time (k, ts) = ts

-- The entries of the documents that the storage has taken, in time order.
unfoldable pub valid_entries : ℕ → List DocumentMetadata → StateChanges
valid_entries taken docs = sort_by_key entry_time (map entry_of (take taken docs))

unfoldable pub successful_entries : List Key → StateChanges → StateChanges
successful_entries ids [] = []
successful_entries ids ((k, ts) ∷ entries) =
    let rest = successful_entries ids entries in if contains k ids then (k, ts) ∷ rest else rest

unfoldable pub insert_entries : ℕ → StateChanges → OrSWotSet → Option OrSWotSet
insert_entries source [] s = some s
insert_entries source ((k, ts) ∷ entries) s =
    insert_with_source source k ts s >>= λ (s', has_set). insert_entries source entries s'

unfoldable pub delete_entries : ℕ → StateChanges → OrSWotSet → Option OrSWotSet
delete_entries source [] s = some s
delete_entries source ((k, ts) ∷ entries) s =
    delete_with_source source k ts s >>= λ (s', has_set). delete_entries source entries s'

-- The entries that the storage's answer lets through.
unfoldable pub confirmed {ℓ} :
    {E : Type 0} {A : Type ℓ} → Result (BulkMutationError E) A → StateChanges → StateChanges
unfolding successful_entries
confirmed (ok a) entries = entries
confirmed (err e) entries = successful_entries e.successful_doc_ids entries

-- The tombstones of which the storage does not say that they are gone.
unfoldable pub failed_tombstones : List Key → StateChanges → StateChanges
failed_tombstones ids [] = []
failed_tombstones ids ((k, ts) ∷ changes) =
    let rest = failed_tombstones ids changes in if contains k ids then rest else (k, ts) ∷ rest

abbrev pub key_of : Key × HlcTimestamp → Key
key_of (k, ts) = k

module _ {St E Ctx : Type 0} (storage : Storage St E Ctx) where
  unfoldable pub on_set :
      HlcTimestamp
      → Set Ctx
      → KeyspaceActor
      → St
      → Option (KeyspaceActor × St × Result E (Unit {0}))
  unfolding inc_change_timestamp
  on_set now msg self st =
      let doc_id = msg.doc.metadata.id in
      let ts = msg.doc.metadata.last_updated in
      if not (will_apply doc_id ts self.state)
      then some (self, st, ok tt)
      else (let (st', res) = storage.put_with_ctx self.name msg.doc msg.ctx st in
          elim res [
            | err e ↦ some (self, st', err e)
            | ok u ↦ insert_with_source msg.source doc_id ts self.state >>= λ (s', has_set).
                some (inc_change_timestamp now (record self { state = s' }), st', ok tt)
          ])

  unfoldable pub on_multi_set :
      HlcTimestamp
      → MultiSet Ctx
      → KeyspaceActor
      → St
      → Option (KeyspaceActor × St × Result (BulkMutationError E) (Unit {0}))
  unfolding applicable_docs valid_entries insert_entries confirmed inc_change_timestamp
  on_multi_set now msg self st =
      let docs = applicable_docs self.state msg.docs in
      let (st', taken, res) = storage.multi_put_with_ctx self.name docs msg.ctx st in
      let entries = valid_entries taken (map (λ (d : Document). d.metadata) docs) in
      insert_entries msg.source (confirmed res entries) self.state >>= λ s'.
      some (inc_change_timestamp now (record self { state = s' }), st', res)

  unfoldable pub on_del :
      HlcTimestamp → Del → KeyspaceActor → St → Option (KeyspaceActor × St × Result E (Unit {0}))
  unfolding inc_change_timestamp
  on_del now msg self st =
      if not (will_apply msg.doc.id msg.doc.last_updated self.state)
      then some (self, st, ok tt)
      else (let (st', res) =
            storage.mark_as_tombstone self.name msg.doc.id msg.doc.last_updated st in
          elim res [
            | err e ↦ some (self, st', err e)
            | ok u ↦
                delete_with_source msg.source msg.doc.id msg.doc.last_updated self.state
                >>= λ (s', has_set).
                    some (inc_change_timestamp now (record self { state = s' }), st', ok tt)
          ])

  unfoldable pub on_multi_del :
      HlcTimestamp
      → MultiDel
      → KeyspaceActor
      → St
      → Option (KeyspaceActor × St × Result (BulkMutationError E) (Unit {0}))
  unfolding applicable valid_entries delete_entries confirmed inc_change_timestamp
  on_multi_del now msg self st =
      let docs = applicable self.state msg.docs in
      let (st', taken, res) = storage.mark_many_as_tombstone self.name docs st in
      let entries = valid_entries taken docs in
      delete_entries msg.source (confirmed res entries) self.state >>= λ s'.
      some (inc_change_timestamp now (record self { state = s' }), st', res)

  unfoldable pub on_purge_tombstones : KeyspaceActor → St → KeyspaceActor × St × Result E (Unit {0})
  unfolding failed_tombstones purge_old_deletes
  on_purge_tombstones self st =
      let (s', changes) = purge_old_deletes self.state in
      let (st', res) = storage.remove_tombstones self.name (map key_of changes) st in
      elim res [
        | ok u ↦ (record self { state = s' }, st', ok tt)
        | err error ↦ (
          record self {
            state = add_raw_tombstones (failed_tombstones error.successful_doc_ids changes) s';
          },
          st',
          err error.inner,
        )
      ]

unfoldable pub on_diff : OrSWotSet → KeyspaceActor → StateChanges × StateChanges
on_diff other self = diff self.state other

unfoldable pub on_sym_diff : OrSWotSet → KeyspaceActor → StateChanges × StateChanges
on_sym_diff other self =
    let (change_left, removal_left) = diff self.state other in
    let (change_right, removal_right) = diff other self.state in
    (change_left ++ change_right, removal_left ++ removal_right)

unfoldable pub on_last_updated : KeyspaceActor → HlcTimestamp
on_last_updated self = self.change_timestamp
