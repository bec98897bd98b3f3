-- ===== src/Orswot/Slot.antt =====
-- The abstract view of a set: what it says of one key. The later timestamp wins, and an insert wins
-- against a delete of the same timestamp (the last-write-wins rule of datacake-crdt/src/orswot.rs).
use datacake.Base.{◌≡◌, Option, none, some, ltb, leb, max, if◌then◌else◌, arith, ◌⊎◌}
use datacake.Base.Ord.{nat_ord}
use datacake.Base.Assoc.{get, Unique}
use datacake.Base.BTreeMap.{IsSorted}
use datacake.Timestamp.Fields.{HlcTimestamp}
use datacake.Orswot.Set.{Key, OrSWotSet}

pub data Slot : Type 0 where
  absent : Slot
  alive : HlcTimestamp → Slot
  deleted : HlcTimestamp → Slot

abbrev pub slot_of : Option HlcTimestamp → Option HlcTimestamp → Slot
slot_of (some t) d = alive t
slot_of none (some d) = deleted d
slot_of none none = absent

abbrev pub slot : Key → OrSWotSet → Slot
slot k s = slot_of (get k s.entries) (get k s.dead)

-- The later of two slots.
unfoldable pub join : Slot → Slot → Slot
join absent y = y
join (alive t) absent = alive t
join (alive t) (alive u) = alive (max t u)
join (alive t) (deleted d) = if leb d t then alive t else deleted d
join (deleted d) absent = deleted d
join (deleted d) (alive t) = if ltb t d then deleted d else alive t
join (deleted d) (deleted e) = deleted (max d e)

pub join_comm : (x y : Slot) → join x y ≡ join y x
unfolding join
join_comm x y = ground arith

pub join_assoc : (x y z : Slot) → join (join x y) z ≡ join x (join y z)
unfolding join
join_assoc x y z = ground arith

pub join_self : (x : Slot) → join x x ≡ x
unfolding join
join_self x = ground arith

pub join-absent : (x : Slot) → join x absent ≡ x
unfolding join
join-absent x = ground arith

-- No key is both an entry and a tombstone, the entries are sorted by key, and no key has two
-- tombstones.
pub record IsValid (s : OrSWotSet) : Type 0 where
  pub sorted : IsSorted s.entries
  pub unique : Unique s.dead
  pub disjoint : (k : Key) → (get k s.entries ≡ none) ⊎ (get k s.dead ≡ none)
