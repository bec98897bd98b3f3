-- ===== src/Orswot/Convergence.antt =====
-- Replicas of the same operations in different orders of delivery (datacake-crdt/src/orswot.rs).
use mathlib.Core.List.{Perm, Permᴰ}
use mathlib.Core.Logic.{∥∥₁_elim}
use datacake.Base.{
  ap, ltb, ℕ, zero, suc, ◌≡◌, refl, sym, ◌∙◌, none, some, List, [], ◌∷◌, ◌&&◌, if◌then◌else◌, arith,
  ◌<◌, ◌==◌, Bool-cases, get_elem?, inl, inr,
}
use datacake.Base.Result.{◌>>=◌}
use datacake.Base.Ord.{nat_ord}
use datacake.Base.Assoc.{get}
use datacake.Timestamp.Fields.{HlcTimestamp, node}
use datacake.Orswot.Versions.{NodeVersions, default_versions, replicate}
use datacake.Orswot.Set.{Key, OrSWotSet, default}
use datacake.Orswot.Slot.{Slot, slot, join, join_comm, join_assoc, join-absent, IsValid}
use datacake.Orswot.Observed.{seen_by, HasSource}
use datacake.Orswot.Replica.{
  Op, deliver_all, effect, outcome, NotAfter, InOrder, Known, Fresh, deliver_applies,
}

abbrev Recorded : Op → NodeVersions → NodeVersions → Type 0
Recorded op v v' =
    (i n : ℕ)
    → seen_by i n v' ≡ (if op.source == i && node op.ts == n then some op.ts else seen_by i n v)

Fresh-next :
    (op : Op) (ops : List Op) (v v' : NodeVersions)
    → Recorded op v v'
    → NotAfter op ops
    → Fresh ops v
    → Fresh ops v'
Fresh-next op [] v v' r o f = tt
Fresh-next op (later ∷ ops) v v' r o f = (
  (λ last e. ground (arith, r later.source (node later.ts), o.0, f.0 last)),
  Fresh-next op ops v v' r o.1 f.1,
)

Known-next :
    (ops : List Op) (v v' : NodeVersions)
    → ((i : ℕ) → HasSource i v → HasSource i v')
    → Known ops v
    → Known ops v'
Known-next [] v v' h k = tt
Known-next (op ∷ ops) v v' h k = (h op.source k.0, Known-next ops v v' h k.1)

join_step :
    (op : Op) (k : Key) (x : Slot) (rest : Slot) {y : Slot}
    → y ≡ (if op.key == k then join x (effect op) else x)
    → join y rest ≡ join x (if op.key == k then join (effect op) rest else rest)
join_step op k x rest e = elim (Bool-cases (op.key == k)) [
  | inl same ↦ ground (arith, join_assoc x (effect op) rest)
  | inr other ↦ ground arith
]

-- Operations that are fresh to a valid set and that come in order are all applied: the slot of
-- every key is then joined with their outcome.
pub slot-deliver_all :
    (ops : List Op) (s : OrSWotSet)
    → IsValid s
    → Known ops s.versions
    → Fresh ops s.versions
    → InOrder ops
    → (s' : OrSWotSet) × (deliver_all ops s ≡ some s')
      × IsValid s'
      × ((k : Key) → slot k s' ≡ join (slot k s) (outcome k ops))
unfolding deliver_all outcome
slot-deliver_all [] s v known fresh o = (s, refl, v, λ k. sym (join-absent (slot k s)))
slot-deliver_all (op ∷ ops) s v known fresh o =
    let (s₁, b, e, v₁, slots, seen, has) = deliver_applies op s v known.0 fresh.0 in
    let (s', e', v', slots') =
      slot-deliver_all ops s₁ v₁ (Known-next ops _ _ has known.1)
        (Fresh-next op ops _ _ seen o.0 fresh.1) o.1 in
    (s', rw (e, ◌>>=◌) e', v', λ k. slots' k ∙ join_step op k (slot k s) (outcome k ops) (slots k))

join_left_comm : (x y z : Slot) → join x (join y z) ≡ join y (join x z)
join_left_comm x y z =
    sym (join_assoc x y z) ∙ ap (λ w. join w z) (join_comm x y) ∙ join_assoc y x z

outcome_permᴰ : (k : Key) {l m : List Op} → Permᴰ l m → outcome k l ≡ outcome k m
unfolding outcome
outcome_permᴰ k Permᴰ.nil = refl
outcome_permᴰ k (Permᴰ.cons e d) = rw e (ground (arith, outcome_permᴰ k d))
outcome_permᴰ k (Permᴰ.swap {a = a} {b = b} {l = l} e f) =
    rw (← e, ← f) (ground (arith, join_left_comm (effect a) (effect b) (outcome k l)))
outcome_permᴰ k (Permᴰ.trans d e) = outcome_permᴰ k d ∙ outcome_permᴰ k e

Slot-set : IsSet Slot
Slot-set = hlevel

-- The outcome does not depend on the order.
pub outcome_perm : (k : Key) {l m : List Op} → Perm l m → outcome k l ≡ outcome k m
outcome_perm k p = ∥∥₁_elim p (Slot-set _ _) (outcome_permᴰ k)

get_elem?-replicate :
    (n i : ℕ) (x : List (ℕ × HlcTimestamp))
    → get_elem? (replicate n x) i ≡ (if ltb i n then some x else none)
get_elem?-replicate zero i x = ground arith
get_elem?-replicate (suc n) zero x = ground arith
get_elem?-replicate (suc n) (suc i) x = ground (arith, get_elem?-replicate n i x)

default-HasSource : (n i : ℕ) → i < n → HasSource i (default_versions n)
unfolding default_versions
default-HasSource n i h = ground (arith, get_elem?-replicate n i [])

default-seen_by : (n i m : ℕ) → seen_by i m (default_versions n) ≡ none
unfolding default_versions seen_by get
default-seen_by n i m = rw (get_elem?-replicate n i []) (ground arith)

abbrev pub Sources : ℕ → List Op → Type 0
Sources n [] = Unit
Sources n (op ∷ ops) = (op.source < n) × Sources n ops

default-Known : (n : ℕ) (ops : List Op) → Sources n ops → Known ops (default_versions n)
default-Known n [] h = tt
default-Known n (op ∷ ops) h = (default-HasSource n op.source h.0, default-Known n ops h.1)

default-Fresh : (n : ℕ) (ops : List Op) → Fresh ops (default_versions n)
default-Fresh n [] = tt
default-Fresh n (op ∷ ops) =
    ((λ last e. cc (default-seen_by n op.source (node op.ts))), default-Fresh n ops)

pub default-IsValid : (n : ℕ) → IsValid (default n)
unfolding default get
default-IsValid n = record { sorted = tt; unique = tt; disjoint = λ k. inl refl }

-- A fresh replica of N sources that receives operations of these sources, each source and node in
-- the order of the timestamps, ends in a valid set that says of every key what the latest of the
-- operations on it says.
pub slot-replay :
    (n : ℕ) (ops : List Op)
    → Sources n ops
    → InOrder ops
    → (s : OrSWotSet) × (deliver_all ops (default n) ≡ some s)
      × IsValid s
      × ((k : Key) → slot k s ≡ outcome k ops)
unfolding default get join
slot-replay n ops sources o =
    let (s, e, v, slots) =
      slot-deliver_all ops (default n) (default-IsValid n) (default-Known n ops sources)
        (default-Fresh n ops) o in
    (s, e, v, slots)

-- Two replicas that receive the same operations in two orders, both of which respect the order of
-- every source and node, agree on every key, its tombstone included.
pub replay_converges :
    (n : ℕ) (l m : List Op)
    → Sources n l
    → Sources n m
    → InOrder l
    → InOrder m
    → Perm l m
    → (s t : OrSWotSet) × (deliver_all l (default n) ≡ some s)
      × (deliver_all m (default n) ≡ some t)
      × ((k : Key) → slot k s ≡ slot k t)
replay_converges n l m hl hm ol om p =
    let (s, e, v, slots) = slot-replay n l hl ol in
    let (t, f, w, slots') = slot-replay n m hm om in
    (s, t, e, f, λ k. slots k ∙ outcome_perm k p ∙ sym (slots' k))
