-- ===== src/Orswot/WillApply.antt =====
-- `will_apply` against `insert_with_source` and `delete_with_source`
-- (datacake-crdt/src/orswot.rs).
use datacake.Base.{
  ◌≡◌, refl, ap, Bool, true, false, some, arith, ◌⊎◌, inl, inr, ◌≤◌, ◌≢◌, Bool-cases, ℕ,
}
use datacake.Base.Result.{◌>>=◌}
use datacake.Base.Ord.{nat_ord}
use datacake.Timestamp.Fields.{HlcTimestamp, node}
use datacake.Orswot.Versions.{NodeVersions, is_ts_before_last_observed_event}
use datacake.Orswot.Set.{
  Key, OrSWotSet, will_apply, apply_insert, apply_delete, insert_with_source, delete_with_source,
}
use datacake.Orswot.Slot.{deleted, slot, IsValid}
use datacake.Orswot.Observed.{seen_by, HasSource, try_update_accepts}
use datacake.Orswot.Safety.{IsSafe}
use datacake.Orswot.SafeMerge.{lt-seen_by_of_observed}

-- A timestamp that the source may still accept has not been observed.
not_observed :
    (v : NodeVersions) (source : ℕ) (ts : HlcTimestamp)
    → IsSafe v
    → HasSource source v
    → ((last : HlcTimestamp) → seen_by source (node ts) v ≡ some last → last ≤ ts)
    → is_ts_before_last_observed_event ts v ≡ false
not_observed v source ts safe known newer =
    elim (Bool-cases (is_ts_before_last_observed_event ts v)) [
      | inr e ↦ e
      | inl e ↦
          let (last, sees, lt) = lt-seen_by_of_observed v ts source safe e known in
          absurd (omega (arith, newer last sees))
    ]

apply_delete-will_apply :
    (k : Key) (ts : HlcTimestamp) (s : OrSWotSet) (w : NodeVersions)
    → IsValid s
    → is_ts_before_last_observed_event ts s.versions ≡ false
    → (apply_delete k ts (record s { versions = w })).1 ≡ will_apply k ts s
unfolding apply_delete will_apply
apply_delete-will_apply k ts s w v fresh = ground (arith, v.disjoint k)

apply_insert-will_apply :
    (k : Key) (ts : HlcTimestamp) (s : OrSWotSet) (w : NodeVersions)
    → IsValid s
    → is_ts_before_last_observed_event ts s.versions ≡ false
    → let b = (apply_insert k ts (record s { versions = w })).1 in
      ((slot k s ≢ deleted ts) × (b ≡ will_apply k ts s))
      ⊎ ((slot k s ≡ deleted ts) × (will_apply k ts s ≡ false) × (b ≡ true))
unfolding apply_insert will_apply
apply_insert-will_apply k ts s w v fresh = ground (arith, v.disjoint k)

-- Where the source's last timestamp of the node is not later, a delete answers what `will_apply`
-- foretold; so does an insert, except against a tombstone of the very same timestamp, where
-- `will_apply` says no and the insert is made.
pub will_apply_lem :
    (source : ℕ) (k : Key) (ts : HlcTimestamp) (s : OrSWotSet)
    → IsValid s
    → IsSafe s.versions
    → HasSource source s.versions
    → ((last : HlcTimestamp) → seen_by source (node ts) s.versions ≡ some last → last ≤ ts)
    → (inserted removed : OrSWotSet) × (b : Bool) × (delete_with_source source k ts s
        ≡ some (removed, will_apply k ts s))
      × (insert_with_source source k ts s ≡ some (inserted, b))
      × (((slot k s ≢ deleted ts) × (b ≡ will_apply k ts s))
          ⊎ ((slot k s ≡ deleted ts) × (will_apply k ts s ≡ false) × (b ≡ true)))
unfolding delete_with_source insert_with_source
will_apply_lem source k ts s v safe known newer =
    let (w, e, sees, has) = try_update_accepts source ts s.versions known newer in
    let s₁ : OrSWotSet = record s { versions = w } in
    let fresh = not_observed s.versions source ts safe known newer in
    (
      (apply_insert k ts s₁).0,
      (apply_delete k ts s₁).0,
      (apply_insert k ts s₁).1,
      rw (e, ◌>>=◌)
          (ap (λ b. some ((apply_delete k ts s₁).0, b)) (apply_delete-will_apply k ts s w v fresh)),
      rw (e, ◌>>=◌) refl,
      apply_insert-will_apply k ts s w v fresh,
    )
