-- ===== src/Replication/SyncEnd.antt =====
-- The end of the loop that waits for a synchronisation
-- (datacake-eventual-consistency/src/replication/poller.rs).
use datacake.Base.{
  false, ◌<◌, zero, ltb→lt, ℕ, zero, suc, ◌+◌, ◌-◌, ◌*◌, ◌≤◌, ◌≡◌, refl, ap, ◌∙◌, true, some, ltb,
  arith, Bool-cases, inl, inr, ltb→lt,
}
use datacake.Base.Result.{Result, ok, err, ◌>>=◌}
use datacake.Timestamp.Fields.{Duration}
use datacake.Keyspace.Progress.{ProgressTracker, ProgressWatcher, watch, has_expired}
use datacake.Replication.Sync.{
  keyspace_sync_timeout, check_interval, SyncError, LoopEnd, done, expired, sync_loop, sync_result,
  await_sync,
}

from_suc :
    (P : ℕ → Type 0) (fuel : ℕ)
    → ((more : ℕ) → fuel ≤ more → P (suc more))
    → (more : ℕ) → suc fuel ≤ more
    → P more
from_suc P fuel h zero le = absurd (omega arith)
from_suc P fuel h (suc more) le = h more (omega arith)

module _ (tracker : ℕ → ProgressTracker) (now : ℕ → Duration) (most : ℕ) (start : Duration)
    (bounded : (i : ℕ) → (tracker i).progress_counter ≤ most)
    (ticks : (i : ℕ) → start + i * check_interval ≤ now i) where
  -- The loop answers with some fuel, and answers the same with more.
  abbrev Ends : ℕ → ProgressWatcher → Type 0
  Ends i watcher =
      (fuel : ℕ) × (end : LoopEnd) × ((more : ℕ)
        → fuel ≤ more
        → sync_loop tracker now more i watcher ≡ some end)

  -- One check: the loop ends, or the rest of it does from what the check has observed.
  check-Ends :
      (i : ℕ) (watcher : ProgressWatcher)
      → let (watcher', late) = has_expired (now i) (tracker i) watcher in
        (late ≡ false → (tracker i).done ≡ false → Ends (suc i) watcher') → Ends i watcher
  unfolding sync_loop
  check-Ends i watcher next =
      let (watcher', late) = has_expired (now i) (tracker i) watcher in
      elim (Bool-cases late) [
        | inl e ↦ (
          1,
          expired,
          from_suc (λ more. sync_loop tracker now more i watcher ≡ some expired) 0
              (λ more le. rw (sync_loop, e) refl),
        )
        | inr e ↦ elim (Bool-cases (tracker i).done) [
          | inl d ↦ (
            1,
            done,
            from_suc (λ more. sync_loop tracker now more i watcher ≡ some done) 0
                (λ more le. rw (sync_loop, e, d) refl),
          )
          | inr d ↦
              let (fuel, end, answers) = next e d in
              (
                suc fuel,
                end,
                from_suc (λ more. sync_loop tracker now more i watcher ≡ some end) fuel
                    (λ more le. ground (arith, answers more le)),
              )
        ]
      ]

  -- Where the loop ends from whatever it has seen once more progress than this has been observed.
  abbrev EndsAbove : ℕ → Type 0
  EndsAbove seen =
      (j : ℕ) (next : ProgressWatcher)
      → next.timeout ≡ keyspace_sync_timeout
      → seen < next.last_observed_counter
      → next.last_observed_counter ≤ most
      → Ends j next

  quiet_check :
      (i : ℕ) (watcher : ProgressWatcher)
      → EndsAbove watcher.last_observed_counter
      → watcher.timeout ≡ keyspace_sync_timeout
      → (ltb watcher.timeout (now i - watcher.last_tick) ≡ false → Ends (suc i) watcher)
      → Ends i watcher
  unfolding has_expired
  quiet_check i watcher moved t next = check-Ends i watcher (λ early busy.
      elim (Bool-cases (ltb watcher.last_observed_counter (tracker i).progress_counter)) [
        | inl more ↦
            rw (busy, more)
              (moved (suc i)
                (record watcher {
                  last_tick = now i;
                  last_observed_counter = (tracker i).progress_counter;
                })
                t (ltb→lt _ _ more) (bounded i))
        | inr still ↦ rw (busy, still) (next (ground (arith, early)))
      ])

  -- The checks until the timeout is over, `left` at most.
  quiet-Ends :
      (left i : ℕ) (watcher : ProgressWatcher)
      → EndsAbove watcher.last_observed_counter
      → watcher.timeout ≡ keyspace_sync_timeout
      → watcher.last_tick + keyspace_sync_timeout < start + (i + left) * check_interval
      → Ends i watcher
  quiet-Ends zero i watcher moved t l =
      quiet_check i watcher moved t (λ early. absurd (ground (arith, ticks i)))
  quiet-Ends (suc left) i watcher moved t l =
      quiet_check i watcher moved t (λ early. quiet-Ends left (suc i) watcher moved t (omega arith))

  loop-Ends :
      (room i : ℕ) (watcher : ProgressWatcher)
      → watcher.timeout ≡ keyspace_sync_timeout
      → most ≤ room + watcher.last_observed_counter
      → Ends i watcher
  loop-Ends zero i watcher t h =
      quiet-Ends (watcher.last_tick + keyspace_sync_timeout + 1) i watcher
        (λ j next t' more most'. absurd (omega arith)) t (omega arith)
  loop-Ends (suc room) i watcher t h =
      quiet-Ends (watcher.last_tick + keyspace_sync_timeout + 1) i watcher
        (λ j next t' more most'. loop-Ends room j next t' (omega arith)) t (omega arith)

loop_done :
    (tracker : ℕ → ProgressTracker) (now : ℕ → Duration) (fuel i : ℕ) (watcher : ProgressWatcher)
    → sync_loop tracker now fuel i watcher ≡ some done
    → (j : ℕ) × ((tracker j).done ≡ true)
unfolding sync_loop
loop_done tracker now zero i watcher h = cc
loop_done tracker now (suc fuel) i watcher h =
    let (watcher', late) = has_expired (now i) (tracker i) watcher in
    elim (Bool-cases late) [
      | inl e ↦ absurd (ground arith)
      | inr e ↦ elim (Bool-cases (tracker i).done) [
        | inl d ↦ (i, d)
        | inr d ↦ loop_done tracker now fuel (suc i) watcher' (ground arith)
      ]
    ]

succeeded :
    {E : Type 0} {P : Type 0} (removal : Result (SyncError E) (Unit {0})) (end : LoopEnd)
    → sync_result removal end ≡ ok tt
    → (end ≡ done → P)
    → (removal ≡ ok tt) × P
unfolding sync_result
succeeded removal done h p = (h, p refl)
succeeded (ok u) expired h p = absurd (ground arith)
succeeded (err e) expired h p = absurd (ground arith)

-- Where no check comes before its tick, however late, and the progress that can be counted is bounded,
-- a synchronisation comes to an end: there is fuel that is enough, and more fuel gives the same
-- result. It succeeds only if the removals did and the documents were marked as done.
pub await_sync-ends :
    {E : Type 0} (tracker : ℕ → ProgressTracker) (now : ℕ → Duration) (most : ℕ) (start : Duration)
    (removal : Result (SyncError E) (Unit {0}))
    → ((i : ℕ) → (tracker i).progress_counter ≤ most)
    → ((i : ℕ) → start + i * check_interval ≤ now i)
    → (fuel : ℕ) × (res : Result (SyncError E) (Unit {0})) × ((more : ℕ)
        → fuel ≤ more
        → await_sync more tracker now start removal ≡ some res)
      × (res ≡ ok tt → (removal ≡ ok tt) × ((j : ℕ) × ((tracker j).done ≡ true)))
unfolding await_sync sync_result watch
await_sync-ends {E} tracker now most start removal bounded ticks =
    let watcher = watch start keyspace_sync_timeout in
    let (fuel, end, answers) =
      loop-Ends tracker now most start bounded ticks most 0 watcher refl (omega arith) in
    (
      fuel,
      sync_result removal end,
      (λ more le. rw (await_sync, answers more le, ◌>>=◌) refl),
      (λ h.
          succeeded removal end h
            (λ d. loop_done tracker now fuel 0 watcher (answers fuel (omega arith) ∙ ap some d))),
    )
