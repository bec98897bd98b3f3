-- ===== src/Clock/Causality.antt =====
-- The timestamps of the clock over a run of its actor (datacake-node/src/clock.rs).
use mathlib.Core.Path.{subst}
use datacake.Base.{ℕ, ◌≡◌, some, List, [], ◌∷◌, ◌≤◌, ◌<◌, ◌^◌, arith, inl, inr, ◌⊎◌, Option-cases}
use datacake.Base.Result.{ok, err}
use datacake.Timestamp.Fields.{Duration, HlcTimestamp, node, datacake_epoch}
use datacake.Timestamp.Send.{send}
use datacake.Timestamp.Monotonic.{BeforeEnd, lt-send}
use datacake.Timestamp.Causal.{lt-recv}
use datacake.Clock.Actor.{
  Event, get, register, Outcome, issued, observed, refused, on_get, on_register, handle, run_clock,
}

-- The system clock stands between the epoch and the end of the format, and registered timestamps
-- are words.
abbrev pub InTime : List (Duration × Event) → Type 0
InTime [] = Unit
InTime ((unix, get) ∷ events) = (datacake_epoch ≤ unix) × BeforeEnd unix × InTime events
InTime ((unix, register ts) ∷ events) =
    (datacake_epoch ≤ unix) × BeforeEnd unix × (ts < 2 ^ 64) × InTime events

-- Every timestamp handed out is of the node and later than the bound, and so than every one handed
-- out or taken in before it.
abbrev pub Causal : ℕ → HlcTimestamp → List Outcome → Type 0
Causal n bound [] = Unit
Causal n bound (issued ts ∷ outcomes) = (node ts ≡ n) × (bound < ts) × Causal n ts outcomes
Causal n bound (observed ts ∷ outcomes) =
    ((later : HlcTimestamp) × (bound < later) × (ts < later) × Causal n later outcomes)
Causal n bound (refused ts ∷ outcomes) = Causal n bound outcomes

get_step :
    (unix : Duration) (clock : HlcTimestamp) {clock' : HlcTimestamp} {o : Outcome}
    → clock < 2 ^ 64
    → BeforeEnd unix
    → on_get unix clock ≡ some (clock', o)
    → (o ≡ issued clock') × (clock < clock') × (clock' < 2 ^ 64) × (node clock' ≡ node clock)
unfolding on_get
get_step unix clock w b e = elim (Option-cases (send unix clock)) [
  | inl n ↦ absurd (ground arith)
  | inr ((c, ok t), sent) ↦ let r = lt-send unix clock w b sent in ground arith
  | inr ((c, err x), sent) ↦ absurd (ground arith)
]

register_step :
    (unix : Duration) (clock ts : HlcTimestamp) {clock' : HlcTimestamp} {o : Outcome}
    → clock < 2 ^ 64
    → ts < 2 ^ 64
    → datacake_epoch ≤ unix
    → BeforeEnd unix
    → on_register unix clock ts ≡ some (clock', o)
    → ((o ≡ refused ts) × (clock' ≡ clock))
      ⊎ ((o ≡ observed ts)
          × (clock < clock')
          × (ts < clock')
          × (clock' < 2 ^ 64)
          × (node clock' ≡ node clock))
unfolding on_register
register_step unix clock ts w h a b e = elim (lt-recv unix clock ts w h a b) [
  | inl (x, r) ↦ inl (ground arith)
  | inr (later, t, r, b₀, b₁, b₂, b₃, b₄, b₅, b₆) ↦ inr (ground arith)
]

-- The clock after an event, with what the event did.
abbrev Stepped : HlcTimestamp → Event → HlcTimestamp → Outcome → Type 0
Stepped clock get clock' o =
    (o ≡ issued clock') × (clock < clock') × (clock' < 2 ^ 64) × (node clock' ≡ node clock)
Stepped clock (register ts) clock' o =
    ((o ≡ refused ts) × (clock' ≡ clock))
    ⊎ ((o ≡ observed ts)
        × (clock < clock')
        × (ts < clock')
        × (clock' < 2 ^ 64)
        × (node clock' ≡ node clock))

step_Causal :
    (clock : HlcTimestamp) (event : Event) (clock' : HlcTimestamp) (o : Outcome)
    (outcomes : List Outcome)
    → clock < 2 ^ 64
    → Stepped clock event clock' o
    → (clock' < 2 ^ 64 → Causal (node clock') clock' outcomes)
    → Causal (node clock) clock (o ∷ outcomes)
step_Causal clock get clock' o outcomes w s rest =
    rw s.0 (s.3, s.1, subst (λ n. Causal n clock' outcomes) s.3 (rest s.2))
step_Causal clock (register ts) clock' o outcomes w (inl s) rest =
    rw s.0 (subst (λ c. Causal (node c) c outcomes) s.1 (rest (omega arith)))
step_Causal clock (register ts) clock' o outcomes w (inr s) rest =
    rw s.0 (clock', s.1, s.2, subst (λ n. Causal n clock' outcomes) s.4 (rest s.3))

handle-Stepped :
    (unix : Duration) (clock : HlcTimestamp) (event : Event) (clock' : HlcTimestamp) (o : Outcome)
    → clock < 2 ^ 64
    → InTime ((unix, event) ∷ [])
    → handle unix clock event ≡ some (clock', o)
    → Stepped clock event clock' o
unfolding handle
handle-Stepped unix clock get clock' o w i e = get_step unix clock w i.1 e
handle-Stepped unix clock (register ts) clock' o w i e = register_step unix clock ts w i.2 i.0 i.1 e

InTime-head :
    (unix : Duration) (event : Event) (events : List (Duration × Event))
    → InTime ((unix, event) ∷ events)
    → InTime ((unix, event) ∷ []) × InTime events
InTime-head unix get events (a, b, rest) = ((a, b, tt), rest)
InTime-head unix (register ts) events (a, b, h, rest) = ((a, b, h, tt), rest)

-- Whatever sequence of events the actor handles, while the system clock is in range, every
-- timestamp it hands out is of its node and later than all that it handed out or took in before.
pub run_clock-Causal :
    (clock : HlcTimestamp) (events : List (Duration × Event)) {last : HlcTimestamp}
    {outcomes : List Outcome}
    → clock < 2 ^ 64
    → InTime events
    → run_clock clock events ≡ some (last, outcomes)
    → Causal (node clock) clock outcomes
unfolding run_clock
run_clock-Causal clock [] {last} {outcomes} w i e =
    let none_done : [] ≡ outcomes = cc in subst (Causal (node clock) clock) none_done tt
run_clock-Causal clock ((unix, event) ∷ events) {last} {outcomes} w i e =
    elim (Option-cases (handle unix clock event)) [
      | inl dead ↦ absurd (ground arith)
      | inr ((clock', o), handled) ↦ elim (Option-cases (run_clock clock' events)) [
        | inl dead ↦ absurd (ground arith)
        | inr ((end, rest), ran) ↦
            let (now, later) = InTime-head unix event events i in
            let same : o ∷ rest ≡ outcomes = ground arith in
            subst (Causal (node clock) clock) same (
              step_Causal clock event clock' o rest w
                (handle-Stepped unix clock event clock' o w now handled)
                (λ w'. run_clock-Causal clock' events w' later ran))
      ]
    ]
