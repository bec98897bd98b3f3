-- ===== src/Orswot/MergeLaws.antt =====
-- Replicas that merge each other, and themselves (datacake-crdt/src/orswot.rs).
use datacake.Base.{◌≡◌, refl, sym, ◌∙◌, false, arith}
use datacake.Orswot.Versions.{NodeVersions, is_ts_before_last_observed_event}
use datacake.Orswot.Set.{Key, OrSWotSet}
use datacake.Orswot.Slot.{Slot, absent, alive, deleted, slot, join, join_comm, IsValid}
use datacake.Orswot.Merge.{merge}
use datacake.Orswot.MergeSlots.{accepted_slot, kept_slot, slot-merge}

-- The versions have not passed what the slot says.
abbrev pub NotPassed : NodeVersions → Slot → Type 0
NotPassed v absent = Unit
NotPassed v (alive t) = is_ts_before_last_observed_event t v ≡ false
NotPassed v (deleted d) = is_ts_before_last_observed_event d v ≡ false

all_kept :
    (v w : NodeVersions) (x y : Slot)
    → NotPassed w x
    → NotPassed v y
    → join (kept_slot w x y) (accepted_slot v y) ≡ join x y
all_kept v w absent absent p q = refl
all_kept v w absent (alive u) p q = refl
all_kept v w absent (deleted e) p q = rw q
all_kept v w (alive t) absent p q = rw p
all_kept v w (alive t) (alive u) p q = refl
all_kept v w (alive t) (deleted e) p q = rw (p, q)
all_kept v w (deleted d) absent p q = refl
all_kept v w (deleted d) (alive u) p q = refl
all_kept v w (deleted d) (deleted e) p q = rw q

-- Where neither side's versions have passed what the other says of a key, the merged slot is the
-- later of the two, and it is the same whichever replica merges.
pub merge_comm :
    (s o : OrSWotSet) (k : Key)
    → IsValid s
    → IsValid o
    → NotPassed o.versions (slot k s)
    → NotPassed s.versions (slot k o)
    → (slot k (merge s o) ≡ join (slot k s) (slot k o)) × (slot k (merge s o) ≡ slot k (merge o s))
merge_comm s o k v w p q =
    let here = slot-merge s o k v w ∙ all_kept s.versions o.versions (slot k s) (slot k o) p q in
    let there = slot-merge o s k w v ∙ all_kept o.versions s.versions (slot k o) (slot k s) q p in
    (here, here ∙ join_comm (slot k s) (slot k o) ∙ sym there)

kept_self : (v : NodeVersions) (x : Slot) → join (kept_slot v x x) (accepted_slot v x) ≡ x
unfolding join
kept_self v absent = refl
kept_self v (alive t) = ground arith
kept_self v (deleted d) = ground arith

-- A merge with itself changes no slot, whatever has been observed.
pub merge_self : (s : OrSWotSet) (k : Key) → IsValid s → slot k (merge s s) ≡ slot k s
merge_self s k v = slot-merge s s k v v ∙ kept_self s.versions (slot k s)
