-- ===== src/Replication/Batches.antt =====
-- The payloads of a batch against the queue (datacake-eventual-consistency/src/replication/distributor.rs).
use datacake.Base.{
  ◌≡◌, refl, sym, ◌∙◌, ap, List, [], ◌∷◌, ◌++◌, ◌==◌, ==_iff, if◌then◌else◌, arith, Bool-cases, inl,
  inr,
}
use datacake.Base.Ord.{nat_ord}
use datacake.Base.BTreeMap
use datacake.Keyspace.Storage.{Name, DocumentMetadata, Document}
use datacake.Replication.Distributor.{
  Op, membership_change, mutation, put, multi_put, del, multi_del, Tick, Payloads, payload, extend,
  handle_task, drain, register_mutation,
}

-- The documents of a keyspace that the queue puts, in the order of the queue.
abbrev pub puts : Name → List Op → List Document
puts name [] = []
puts name (mutation (put keyspace doc) ∷ ops) =
    let rest = puts name ops in if keyspace == name then doc ∷ rest else rest
puts name (mutation (multi_put keyspace docs) ∷ ops) =
    let rest = puts name ops in if keyspace == name then docs ++ rest else rest
puts name (mutation (del keyspace doc) ∷ ops) = puts name ops
puts name (mutation (multi_del keyspace docs) ∷ ops) = puts name ops
puts name (membership_change changes ∷ ops) = puts name ops

abbrev pub removals : Name → List Op → List DocumentMetadata
removals name [] = []
removals name (mutation (del keyspace doc) ∷ ops) =
    let rest = removals name ops in if keyspace == name then doc ∷ rest else rest
removals name (mutation (multi_del keyspace docs) ∷ ops) =
    let rest = removals name ops in if keyspace == name then docs ++ rest else rest
removals name (mutation (put keyspace doc) ∷ ops) = removals name ops
removals name (mutation (multi_put keyspace docs) ∷ ops) = removals name ops
removals name (membership_change changes ∷ ops) = removals name ops

append_assoc {ℓ} : {A : Type ℓ} (x y z : List A) → (x ++ y) ++ z ≡ x ++ (y ++ z)
append_assoc [] y z = refl
append_assoc (a ∷ x) y z = ap (λ l. a ∷ l) (append_assoc x y z)

append_nil {ℓ} : {A : Type ℓ} (x : List A) → x ++ [] ≡ x
append_nil [] = refl
append_nil (a ∷ x) = ap (λ l. a ∷ l) (append_nil x)

payload-extend :
    {D : Type 0} (name keyspace : Name) (docs : List D) (payloads : Payloads D)
    → payload name (extend keyspace docs payloads)
      ≡ (if keyspace == name then payload name payloads ++ docs else payload name payloads)
unfolding extend
payload-extend name keyspace docs payloads = ground (
  arith,
  BTreeMap.get-insert name keyspace (payload keyspace payloads ++ docs) payloads,
  ==_iff keyspace name,
)

-- Extending before the rest of the queue, on one keyspace.
extend-then :
    {D : Type 0} (name keyspace : Name) (docs rest : List D) (payloads : Payloads D)
    → payload name (extend keyspace docs payloads) ++ rest
      ≡ payload name payloads ++ (if keyspace == name then docs ++ rest else rest)
extend-then name keyspace docs rest payloads = elim (Bool-cases (keyspace == name)) [
  | inl same ↦
      rw (payload-extend name keyspace docs payloads, same)
        (append_assoc (payload name payloads) docs rest)
  | inr other ↦ rw (payload-extend name keyspace docs payloads, other) refl
]

-- After the queue is drained the payload of every keyspace is what it was, followed by all that the
-- queue puts there, in its order; likewise for the removals. Nothing is lost or reordered.
pub drain_lem :
    (tasks : List Op) (tick : Tick) (name : Name)
    → let tick' = drain tasks tick in
      (payload name tick'.put_payloads ≡ payload name tick.put_payloads ++ puts name tasks)
      × (payload name tick'.del_payloads ≡ payload name tick.del_payloads ++ removals name tasks)
unfolding drain handle_task register_mutation
drain_lem [] tick name = (
  sym (append_nil (payload name tick.put_payloads)),
  sym (append_nil (payload name tick.del_payloads)),
)
drain_lem (membership_change changes ∷ tasks) tick name =
    drain_lem tasks (handle_task (membership_change changes) tick) name
drain_lem (mutation (put keyspace doc) ∷ tasks) tick name =
    let h = drain_lem tasks (register_mutation (put keyspace doc) tick) name in
    (h.0 ∙ extend-then name keyspace (doc ∷ []) (puts name tasks) tick.put_payloads, h.1)
drain_lem (mutation (multi_put keyspace docs) ∷ tasks) tick name =
    let h = drain_lem tasks (register_mutation (multi_put keyspace docs) tick) name in
    (h.0 ∙ extend-then name keyspace docs (puts name tasks) tick.put_payloads, h.1)
drain_lem (mutation (del keyspace doc) ∷ tasks) tick name =
    let h = drain_lem tasks (register_mutation (del keyspace doc) tick) name in
    (h.0, h.1 ∙ extend-then name keyspace (doc ∷ []) (removals name tasks) tick.del_payloads)
drain_lem (mutation (multi_del keyspace docs) ∷ tasks) tick name =
    let h = drain_lem tasks (register_mutation (multi_del keyspace docs) tick) name in
    (h.0, h.1 ∙ extend-then name keyspace docs (removals name tasks) tick.del_payloads)
