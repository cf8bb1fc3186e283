-- ===== src/Herder/Run.antt =====
-- internal/herder/run.go: one run of the herder, from `started` to its terminal event. What Docker,
-- the clock and the signals answer is an environment; a channel of ticks is a list. Device logs and
-- diagnostics on stderr are left out, and so is the `phase` field, which nothing reads.
pub mod Startup
pub mod Monitor
pub mod Execute
pub mod Legal
pub mod Sound
pub mod Quiet
pub mod Reports
pub mod Rollback
pub mod Exits
mod Samples
mod Tests
use unifi_emu.Common.{
  ℕ, zero, suc, ◌+◌, ◌≡◌, Bool, true, false, not, ◌&&◌, ◌||◌, List, [], ◌∷◌, ◌++◌, map, Option,
  none, some, Text, Bytes, codes, leb, ◌==◌, if◌then◌else◌, Result, ok, err, ◌>>=◌, ◌>>◌,
}
use unifi_emu.Common.Int.{ℤ, pos}
use unifi_emu.Herder.Protocol.{
  Phase, phase_validate, phase_pull, phase_start, phase_health, phase_runtime, phase_cleanup, Code,
  synthetic_model_unknown, synthetic_image_required, startup_timeout, docker_unavailable,
  network_not_found, capability_unsupported, image_pull_failed, container_start_failed,
  device_unhealthy, cleanup_failed, exit_status, Identity, ReadyDevice, FailedEvent, Writer,
  WriteError, new_writer, Outcome, Emitted, write_started, write_ready, write_failed_event,
  write_stopped,
}
use unifi_emu.Herder.Plan.{
  Container, RuntimeConfig, Plan, PlanInput, PlanError, model_unknown, image_required, build_plan,
  less_ℤ,
}
use unifi_emu.Herder.Readiness.{
  ContainerState, Failure, failf, check_attachment, check_runtime_state,
}
use unifi_emu.Herder.Allocation.{RequestDevice, allocate}

abbrev pub exit_ok : ℕ
exit_ok = 0

abbrev pub exit_failure : ℕ
exit_failure = 1

abbrev pub docker_failure_limit : ℕ
docker_failure_limit = 3

-- What `ctx.Err()` may be.
pub data Cause : Type 0 where
  deadline canceled : Cause

-- An error: the context error and the failure in its chain.
pub record OpError : Type 0 where
  pub cause : Option Cause
  pub failure : Option Failure

-- The result of an operation, and what `ctx.Err()` is when its error is classified.
pub record Call (A : Type 0) : Type 0 where
  pub result : Result OpError A
  pub context : Option Cause

-- How a run ends: `errStopped`, or a failure.
pub data Ending : Type 0 where
  stopped : Ending
  failed : Failure → Ending

abbrev pub same_cause : Cause → Option Cause → Bool
same_cause c none = false
same_cause deadline (some deadline) = true
same_cause deadline (some canceled) = false
same_cause canceled (some deadline) = false
same_cause canceled (some canceled) = true

abbrev pub cause_ending : Cause → Phase → Ending
cause_ending deadline phase = failed (failf startup_timeout phase)
cause_ending canceled phase = stopped

abbrev pub failure_ending : Option Failure → Code → Phase → Ending
failure_ending none fallback phase = failed (failf fallback phase)
failure_ending (some f) fallback phase = failed f

unfoldable pub classify : Option Cause → OpError → Code → Phase → Ending
classify none e fallback phase = failure_ending e.failure fallback phase
classify (some c) e fallback phase =
    if same_cause c e.cause then cause_ending c phase else failure_ending e.failure fallback phase

abbrev pub or_devices : List Identity → List Identity → List Identity
or_devices [] devices = devices
or_devices (d ∷ ds) devices = d ∷ ds

-- `withDevices`.
abbrev pub with_devices : List Identity → Ending → Ending
with_devices devices stopped = stopped
with_devices devices (failed f) = failed (record f { devices = or_devices f.devices devices })

abbrev pub call_result :
    {A : Type 0} → Option Cause → Result OpError A → Code → Phase → Result Ending A
call_result context (ok a) fallback phase = ok a
call_result context (err e) fallback phase = err (classify context e fallback phase)

-- `if err := op(); err != nil { return r.classify(ctx, err, fallback, phase) }`.
abbrev pub attempt : {A : Type 0} → Call A → Code → Phase → Result Ending A
attempt c fallback phase = call_result c.context c.result fallback phase

-- `if err := ctx.Err(); err != nil { return r.classify(ctx, err, CodeStartupTimeout, phase) }`.
abbrev pub check_context : Option Cause → Phase → Result Ending (Unit {0})
check_context none phase = ok tt
check_context (some c) phase =
    err (classify (some c) (record { cause = some c; failure = none }) startup_timeout phase)

-- An error that already is a failure.
abbrev pub or_failed : {A : Type 0} → Result Failure A → Result Ending A
or_failed (ok a) = ok a
or_failed (err f) = err (failed f)

-- The outcome of one launch: an instance may be there with or without an error.
pub record Launch : Type 0 where
  pub instance_id : Option Text
  pub error : Option OpError
  pub context : Option Cause

-- The options, with the request, the configuration and the checks of the inform URL and the reaper
-- already read.
pub record Options : Type 0 where
  pub run_id : Text
  pub network : Text
  pub inform_url : Text
  pub synthetic_image : Text
  pub request : Result Failure (List RequestDevice)
  pub config : Result Failure RuntimeConfig
  pub random : Bytes
  pub url_check : Result Failure (Unit {0})
  pub reaper_check : Result Failure (Unit {0})

-- A backend that is given needs no connection: `connect` is then a success. The fields `pulled`,
-- `launched`, `awaited` and `attached` are what `ctx.Err()` is after each stage.
pub record Environment : Type 0 where
  pub connect : Call (Unit {0})
  pub daemon : Call (Unit {0})
  pub find_network : Call (Unit {0})
  pub capabilities : Plan → Call (Unit {0})
  pub prepare : Plan → Call (Unit {0})
  pub pulled : Option Cause
  pub launch : ℕ → Container → Launch
  pub launched : Option Cause
  pub healthy : Text → Call (Unit {0})
  pub awaited : Option Cause
  pub inspect : Text → Call ContainerState
  pub attached : Option Cause
  pub terminate : Text → Bool
  pub remaining : Option ℕ
  pub signalled : Bool

-- One launched unit.
pub record Live : Type 0 where
  pub unit : Container
  pub instance_id : Text
  pub baseline : ContainerState
  pub ip : Text
