-- ===== src/Herder/Run/Monitor.antt =====
-- internal/herder/run.go: `monitor`, on the list of what each turn of its loop meets.
pub mod Streaks
pub mod Inspections
use unifi_emu.Common.{
  ℕ, ◌+◌, Bool, true, false, List, [], ◌∷◌, Option, none, some, Text, leb, if◌then◌else◌, Result,
  ok, err,
}
use unifi_emu.Herder.Protocol.{phase_runtime, docker_unavailable}
use unifi_emu.Herder.Plan.{Plan}
use unifi_emu.Herder.Readiness.{ContainerState, Failure, check_runtime_state}
use unifi_emu.Herder.Run.{
  Cause, OpError, Call, Ending, failed, Live, classify, with_devices, docker_failure_limit,
}

-- A turn of the loop: the context is done, or the ticker fires and the containers answer.
pub data Tick : Type 0 where
  context_done : Cause → Tick
  poll : (Text → Call ContainerState) → Tick

-- What a round over the units comes to.
pub data Round : Type 0 where
  ended : Ending → Round
  lost : Round
  seen : Round

-- An inspection that failed, after `consecutive` failures.
unfoldable pub inspect_failed : ℕ → Live → Option Cause → OpError → Round
inspect_failed consecutive l context e =
    if leb docker_failure_limit (consecutive + 1)
    then ended (with_devices l.unit.devices (classify context e docker_unavailable phase_runtime))
    else lost

abbrev pub judged : Live → Result Failure (Unit {0}) → Round → Round
judged l (err f) rest = ended (with_devices l.unit.devices (failed f))
judged l (ok u) rest = rest

abbrev pub inspected :
    Plan → ℕ → Live → Option Cause → Result OpError ContainerState → Round → Round
inspected plan consecutive l context (err e) rest = inspect_failed consecutive l context e
inspected plan consecutive l context (ok state) rest =
    judged l (check_runtime_state plan l.baseline state) rest

unfoldable pub poll_round : Plan → ℕ → (Text → Call ContainerState) → List Live → Round
poll_round plan consecutive inspect [] = seen
poll_round plan consecutive inspect (l ∷ ls) =
    let answer = inspect l.instance_id in
    inspected plan consecutive l answer.context answer.result
      (poll_round plan consecutive inspect ls)

abbrev pub after_round : ℕ → Round → (ℕ → Option Ending) → Option Ending
after_round consecutive (ended e) next = some e
after_round consecutive lost next = next (consecutive + 1)
after_round consecutive seen next = next 0

-- None when the ticks are used up.
unfoldable pub monitor : Plan → List Live → ℕ → List Tick → Option Ending
monitor plan lives consecutive [] = none
monitor plan lives consecutive (context_done c ∷ ts) =
    some (
      classify (some c) (record { cause = some c; failure = none }) docker_unavailable
        phase_runtime)
monitor plan lives consecutive (poll inspect ∷ ts) =
    after_round consecutive (poll_round plan consecutive inspect lives)
      (λ n. monitor plan lives n ts)
