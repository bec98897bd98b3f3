-- ===== src/Keyspace/Progress.antt =====
-- The watch over a task's progress (datacake-eventual-consistency/src/storage.rs). The two atomics
-- of the shared tracker are fields of a state that is passed along.
use datacake.Base.{ℕ, ◌+◌, ◌-◌, Bool, true, false, ltb, if◌then◌else◌, ◌≡◌, ◌≤◌, ◌<◌, arith, ◌↔◌}
use datacake.Timestamp.Fields.{Duration}

pub record ProgressTracker : Type 0 where
  pub progress_counter : ℕ
  pub done : Bool

pub record ProgressWatcher : Type 0 where
  pub timeout : Duration
  pub last_tick : Duration
  pub last_observed_counter : ℕ

-- `ProgressWatcher::new`; `now` is `Instant::now()`.
unfoldable pub watch : Duration → Duration → ProgressWatcher
watch now timeout = record { timeout = timeout; last_tick = now; last_observed_counter = 0 }

unfoldable pub register_progress : ProgressTracker → ProgressTracker
register_progress t = record t { progress_counter = t.progress_counter + 1 }

unfoldable pub set_done : ProgressTracker → ProgressTracker
set_done t = record t { done = true }

unfoldable pub has_expired : Duration → ProgressTracker → ProgressWatcher → ProgressWatcher × Bool
has_expired now inner self =
    if inner.done
    then (self, false)
    else if ltb self.last_observed_counter inner.progress_counter
    then (record self { last_tick = now; last_observed_counter = inner.progress_counter }, false)
    else (self, ltb self.timeout (now - self.last_tick))

-- Where the watcher has not seen more than the tracker counts: a check after further progress does
-- not call the task expired, whenever it is made, and a check of a task that is neither done nor has
-- made progress since the last tick calls it expired exactly after the timeout.
pub has_expired_lem :
    (now : Duration) (inner : ProgressTracker) (self : ProgressWatcher)
    → self.last_observed_counter ≤ inner.progress_counter
    → let moved = has_expired now (register_progress inner) self in
      (moved.1 ≡ false)
      × (moved.0.last_observed_counter ≤ (register_progress inner).progress_counter)
      × ((inner.done ≡ false)
          → (inner.progress_counter ≡ self.last_observed_counter)
          → ((has_expired now inner self).1 ≡ true) ↔ (self.last_tick + self.timeout < now))
unfolding has_expired register_progress
has_expired_lem now inner self h = ground arith
