-- ===== src/Clock/Actor.antt =====
-- The events of the clock actor (datacake-node/src/clock.rs).
use datacake.Base.{ℕ, Option, none, some, List, [], ◌∷◌, ◌==◌, if◌then◌else◌}
use datacake.Base.Result.{ok, err, ◌>>=◌}
use datacake.Timestamp.Fields.{Duration, HlcTimestamp, node, now}
use datacake.Timestamp.Send.{send}
use datacake.Timestamp.Recv.{recv}

pub data Event : Type 0 where
  get : Event
  register : HlcTimestamp → Event

-- What an event did: a timestamp was handed out, or one was taken in, or one was refused.
pub data Outcome : Type 0 where
  issued : HlcTimestamp → Outcome
  observed : HlcTimestamp → Outcome
  refused : HlcTimestamp → Outcome

-- `Clock::new`.
unfoldable pub start : Duration → ℕ → Option HlcTimestamp
start unix node_id = now unix 0 node_id

-- `clock.send().expect(..)`.
unfoldable pub on_get : Duration → HlcTimestamp → Option (HlcTimestamp × Outcome)
on_get unix clock = send unix clock >>= λ (clock', sent). (elim sent [
  | ok ts ↦ some (clock', issued ts)
  | err e ↦ none
])

-- The error of `recv` is dropped.
unfoldable pub on_register :
    Duration → HlcTimestamp → HlcTimestamp → Option (HlcTimestamp × Outcome)
on_register unix clock remote_ts = recv unix clock remote_ts >>= λ (clock', received).
    (elim received [
      | ok ts ↦ some (clock', observed remote_ts)
      | err e ↦ some (clock', refused remote_ts)
    ])

unfoldable pub handle : Duration → HlcTimestamp → Event → Option (HlcTimestamp × Outcome)
unfolding on_get on_register
handle unix clock get = on_get unix clock
handle unix clock (register remote_ts) = on_register unix clock remote_ts

-- The loop of `run_clock` over the events received, each with the time of its handling.
unfoldable pub run_clock :
    HlcTimestamp → List (Duration × Event) → Option (HlcTimestamp × List Outcome)
unfolding handle
run_clock clock [] = some (clock, [])
run_clock clock ((unix, event) ∷ events) = handle unix clock event >>= λ (clock', outcome).
    (run_clock clock' events >>= λ (last, outcomes). some (last, outcome ∷ outcomes))

-- `Clock::register_ts`: what is sent to the actor.
unfoldable pub register_ts : ℕ → HlcTimestamp → Option Event
register_ts node_id ts = if node ts == node_id then none else some (register ts)
