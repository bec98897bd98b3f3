-- ===== src/Tests/Keyspaces.antt =====
-- The clock actor and keyspaces on concrete inputs.
use datacake.Base.{
  ℕ, ◌+◌, ◌*◌, ◌^◌, ◌≡◌, refl, ◌&&◌, ◌==◌, none, some, List, [], ◌∷◌, arith, if◌then◌else◌, inl,
}
use datacake.Base.Result.{Result, ok, err, is_ok}
use datacake.Base.Ord.{nat_ord}
use datacake.Base.Assoc.{get}
use datacake.Timestamp.Fields.{
  Duration, HlcTimestamp, from_secs, datacake_epoch, node, counter, datacake_timestamp,
  get_datacake_timestamp, pack, new, seconds, fractional,
}
use datacake.Timestamp.Send.{send, send_at}
use datacake.Timestamp.Recv.{recv, recv_at, merged_counter}
use datacake.Clock.Actor
use datacake.Clock.Actor.{Event, register, Outcome, issued, observed, refused, on_get, run_clock}
use datacake.Clock.Causality
use datacake.Clock.Causality.{InTime, Causal}
use datacake.Clock.Exhaustion
use datacake.Orswot.Versions.{contains, default_versions, is_ts_before_last_observed_event}
use datacake.Orswot.Set.{Key, will_apply, default}
use datacake.Orswot.Slot.{Slot, absent, alive, deleted, slot, IsValid}
use datacake.Orswot.Observed.{seen_by}
use datacake.Orswot.Convergence.{default-IsValid}
use datacake.Keyspace.Storage.{Name, Document, Storage}
use datacake.Keyspace.Actor.{KeyspaceActor, on_set, on_del, on_purge_tombstones}
use datacake.Keyspace.Agreement
use datacake.Keyspace.Agreement.{Agree, Accepts, IsDurable}
use datacake.Keyspace.Purging
use datacake.Keyspace.Purging.{RemovesTombstones, forget, gone}

program : Unit {0}
unfolding node counter datacake_timestamp get_datacake_timestamp pack new send send_at recv recv_at
    merged_counter on_get run_clock default_versions default will_apply seen_by on_set on_del get
    contains is_ts_before_last_observed_event seconds fractional
program = tt

abbrev now : Duration
now = datacake_epoch + from_secs 100

abbrev clock : HlcTimestamp
clock = 50 * 2 ^ 32 + 7

-- Two timestamps, with one of node 9 taken in between.
abbrev remote : HlcTimestamp
remote = 200 * 2 ^ 32 + 9

abbrev events : List (Duration × Event)
events = (now, Actor.get) ∷ (now, register remote) ∷ (now, Actor.get) ∷ []

abbrev outcomes : List Outcome
outcomes = issued (100 * 2 ^ 32 + 7) ∷ observed remote ∷ issued (200 * 2 ^ 32 + 2 * 2 ^ 8 + 7) ∷ []

run_test : run_clock clock events ≡ some (200 * 2 ^ 32 + 2 * 2 ^ 8 + 7, outcomes)
unfolding program
run_test = refl

events-InTime : InTime events
events-InTime = (
  omega arith,
  omega arith,
  (omega arith, omega arith, omega arith, (omega arith, omega arith, tt)),
)

run_clock-Causal_example : Causal (node clock) clock outcomes
run_clock-Causal_example =
    Causality.run_clock-Causal clock events (omega arith) events-InTime run_test

-- A timestamp 100 seconds ahead with a counter of 0xFFFE.
abbrev poison : HlcTimestamp
poison = 200 * 2 ^ 32 + 0xFFFE * 2 ^ 8 + 9

time_read : get_datacake_timestamp now ≡ some (from_secs 100)
unfolding program
time_read = refl

run_clock_dies_example : run_clock clock ((now, register poison) ∷ (now, Actor.get) ∷ []) ≡ none
unfolding program
run_clock_dies_example =
    Exhaustion.run_clock_dies now now clock poison (from_secs 100) (from_secs 100) (omega arith)
      time_read time_read (λ e. absurd (omega arith)) (omega arith) (omega arith) (omega arith) refl
      (omega arith)

-- A storage in memory that writes what it is told to, and fails to remove any key but 6.
abbrev Memory : Type 0
Memory = Key → Slot

abbrev write : Key → Slot → Memory → Memory
write id x st k = if id == k then x else st k

abbrev drop : List Key → Memory → Memory
drop keys st k = if contains k keys && contains k (6 ∷ []) then forget (st k) else st k

abbrev memory : Storage Memory ℕ ℕ
memory = record {
  put_with_ctx =
      λ name doc ctx st. (write doc.metadata.id (alive doc.metadata.last_updated) st, ok tt);
  multi_put_with_ctx =
      λ name docs ctx st. (st, 0, err (record { inner = 1; successful_doc_ids = [] }));
  mark_as_tombstone = λ name id ts st. (write id (deleted ts) st, ok tt);
  mark_many_as_tombstone =
      λ name docs st. (st, 0, err (record { inner = 1; successful_doc_ids = [] }));
  remove_tombstones =
      λ name keys st. (drop keys st, err (record { inner = 1; successful_doc_ids = 6 ∷ [] }));
  get_keyspace_list = λ st. ok [];
  iter_metadata = λ name st. ok [];
}

abbrev view : Name → Memory → Key → Slot
view name st k = st k

memory-IsDurable : IsDurable memory view
memory-IsDurable = record { put = λ name doc ctx st k. refl; mark = λ name id ts st k. inl refl }

memory-RemovesTombstones : RemovesTombstones memory view
memory-RemovesTombstones name keys st dead k = refl

abbrev keyspace : KeyspaceActor
keyspace = record { name = 0; state = default 2; change_timestamp = 0 }

abbrev empty : Memory
empty k = absent

abbrev document : Document
document = record { metadata = record { id = 5; last_updated = clock }; buffer = [] }

document_Accepts : Accepts 1 clock keyspace.state
unfolding program
document_Accepts = ((λ e. ground arith), λ last e. ground arith)

empty-Agree : (k : Key) → Agree (view 0 empty k) (slot k keyspace.state)
unfolding program
empty-Agree k = inl refl

on_set-Agrees_example :
    (self' : KeyspaceActor) × (st' : Memory) × (res : Result ℕ (Unit {0})) × (on_set memory 9
        (record { source = 1; doc = document; ctx = none })
        keyspace
        empty
      ≡ some (self', st', res))
    × IsValid self'.state
    × Agreement.Agrees memory view memory-IsDurable self' st'
    × ((j : Key)
        → slot j self'.state ≡ (
            if is_ok res && will_apply 5 clock keyspace.state && 5 == j
            then alive clock
            else slot j keyspace.state))
on_set-Agrees_example =
    Agreement.on_set-Agrees memory view memory-IsDurable 9
      (record { source = 1; doc = document; ctx = none }) keyspace empty (default-IsValid 2)
      document_Accepts empty-Agree

on_del-Agrees_example :
    (self' : KeyspaceActor) × (st' : Memory) × (res : Result ℕ (Unit {0})) × (on_del memory 9
        (record { source = 1; doc = document.metadata })
        keyspace
        empty
      ≡ some (self', st', res))
    × IsValid self'.state
    × Agreement.Agrees memory view memory-IsDurable self' st'
    × ((j : Key)
        → slot j self'.state ≡ (
            if is_ok res && will_apply 5 clock keyspace.state && 5 == j
            then deleted clock
            else slot j keyspace.state))
on_del-Agrees_example =
    Agreement.on_del-Agrees memory view memory-IsDurable 9
      (record { source = 1; doc = document.metadata }) keyspace empty (default-IsValid 2)
      document_Accepts empty-Agree

-- Keys 6 and 7 are observed tombstones, and the storage fails after key 6.
abbrev old_keyspace : KeyspaceActor
old_keyspace = record {
  name = 0;
  state = record {
    entries = [];
    dead = (6, 10 * 2 ^ 32 + 1) ∷ (7, 11 * 2 ^ 32 + 1) ∷ [];
    versions = record { nodes_max_stamps = []; safe_last_stamps = (1, 20 * 2 ^ 32 + 1) ∷ [] };
  };
  change_timestamp = 0;
}

abbrev old_memory : Memory
old_memory k = slot k old_keyspace.state

old_keyspace-IsValid : IsValid old_keyspace.state
unfolding program
old_keyspace-IsValid = record {
  sorted = ground arith;
  unique = ground arith;
  disjoint = λ k. ground arith;
}

on_purge-Agrees_example :
    let (self', st', res) = on_purge_tombstones memory old_keyspace old_memory in
    IsValid self'.state × ((k : Key) → Agree (view self'.name st' k) (slot k self'.state))
on_purge-Agrees_example =
    Purging.on_purge-Agrees memory view memory-RemovesTombstones old_keyspace old_memory
      old_keyspace-IsValid (λ k. inl refl)
