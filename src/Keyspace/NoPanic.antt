-- ===== src/Keyspace/NoPanic.antt =====
-- That a keyspace does not panic where its set has the source of a message
-- (datacake-eventual-consistency/src/keyspace/actor.rs).
use datacake.Base.{
  ℕ, ◌≡◌, refl, false, Bool, some, [], ◌∷◌, arith, inl, inr, Option-cases, map, if◌then◌else◌,
  get_elem?, set,
}
use datacake.Base.Result.{Result, ◌>>=◌}
use datacake.Timestamp.Fields.{HlcTimestamp, node}
use datacake.Orswot.Versions.{
  NodeVersions, update_source, try_update_max_stamp, compute_safe_last_stamp,
}
use datacake.Orswot.Set.{
  Key, StateChanges, OrSWotSet, apply_insert, upsert_entry, insert_with_source,
}
use datacake.Orswot.Observed.{HasSource, compute_safe_maxes, get_elem?-set}
use datacake.Keyspace.Storage.{Document, BulkMutationError, Storage}
use datacake.Keyspace.Actor.{
  KeyspaceActor, MultiSet, applicable_docs, valid_entries, confirmed, insert_entries,
  inc_change_timestamp, on_multi_set,
}

abbrev KeepsSources : NodeVersions → NodeVersions → Type 0
KeepsSources v v' = (i : ℕ) → HasSource i v → HasSource i v'

try_update_answers :
    (source : ℕ) (ts : HlcTimestamp) (v : NodeVersions)
    → HasSource source v
    → (v' : NodeVersions) × (updated : Bool) × (try_update_max_stamp source ts v
        ≡ some (v', updated))
      × KeepsSources v v'
unfolding try_update_max_stamp
try_update_answers source ts v known = elim (Option-cases (get_elem? v.nodes_max_stamps source)) [
  | inl e ↦ absurd (known e)
  | inr (stamps, e) ↦
      let (stamps', updated) = update_source ts stamps in
      let written : NodeVersions = record v {
        nodes_max_stamps = set v.nodes_max_stamps source stamps';
      } in
      (
        compute_safe_last_stamp (node ts) written,
        updated,
        rw (try_update_max_stamp, e, ◌>>=◌) refl,
        λ i h.
            rw (compute_safe_maxes (node ts) written)
              (ground (arith, get_elem?-set v.nodes_max_stamps source i stamps stamps' e)),
      )
]

versions-apply_insert :
    (k : Key) (ts : HlcTimestamp) (s : OrSWotSet) → (apply_insert k ts s).0.versions ≡ s.versions
unfolding apply_insert upsert_entry
versions-apply_insert k ts s = ground arith

insert_answers :
    (source : ℕ) (k : Key) (ts : HlcTimestamp) (s : OrSWotSet)
    → HasSource source s.versions
    → (s' : OrSWotSet) × (has_set : Bool) × (insert_with_source source k ts s ≡ some (s', has_set))
      × KeepsSources s.versions s'.versions
unfolding insert_with_source
insert_answers source k ts s known =
    let (v', updated, e, keeps) = try_update_answers source ts s.versions known in
    let next : OrSWotSet = record s { versions = v' } in
    let res = if updated then apply_insert k ts next else (next, false) in
    (
      res.0,
      res.1,
      rw (insert_with_source, e, ◌>>=◌) refl,
      λ i h. ground (arith, keeps i h, versions-apply_insert k ts next),
    )

insert_entries_answers :
    (source : ℕ) (entries : StateChanges) (s : OrSWotSet)
    → HasSource source s.versions
    → (s' : OrSWotSet) × (insert_entries source entries s ≡ some s')
      × KeepsSources s.versions s'.versions
unfolding insert_entries
insert_entries_answers source [] s known = (s, refl, λ i h. h)
insert_entries_answers source ((k, ts) ∷ entries) s known =
    let (s₁, has_set, e, keeps) = insert_answers source k ts s known in
    let (s', e', keeps') = insert_entries_answers source entries s₁ (keeps source known) in
    (s', rw (insert_entries, e, ◌>>=◌) e', λ i h. keeps' i (keeps i h))

-- A bulk set answers where the set of the keyspace has the source, and no source is lost.
pub on_multi_set_answers :
    {St E Ctx : Type 0} (storage : Storage St E Ctx) (now : HlcTimestamp) (msg : MultiSet Ctx)
    (self : KeyspaceActor) (st : St)
    → HasSource msg.source self.state.versions
    → (self' : KeyspaceActor) × (st' : St) × (res : Result (BulkMutationError E) (Unit {0}))
      × (on_multi_set storage now msg self st ≡ some (self', st', res))
      × ((i : ℕ) → HasSource i self.state.versions → HasSource i self'.state.versions)
unfolding on_multi_set inc_change_timestamp
on_multi_set_answers storage now msg self st known =
    let docs = applicable_docs self.state msg.docs in
    let put = storage.multi_put_with_ctx self.name docs msg.ctx st in
    let entries = valid_entries put.1 (map (λ (d : Document). d.metadata) docs) in
    let (s', e, keeps) =
      insert_entries_answers msg.source (confirmed put.2 entries) self.state known in
    (
      record self { state = s'; change_timestamp = now },
      put.0,
      put.2,
      rw (on_multi_set, e, ◌>>=◌) refl,
      keeps,
    )
