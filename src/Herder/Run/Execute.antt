-- ===== src/Herder/Run/Execute.antt =====
-- internal/herder/run.go: `cleanup`, `finish` and `execute`.
use unifi_emu.Common.{
  ℕ, zero, suc, Bool, true, false, not, ◌&&◌, List, [], ◌∷◌, map, Option, none, some, Text, codes,
  if◌then◌else◌, Result, ok, err,
}
use unifi_emu.Herder.Protocol.{
  phase_cleanup, Code, docker_unavailable, cleanup_failed, exit_status, Identity, FailedEvent,
  Writer, WriteError, new_writer, Outcome, Emitted, write_started, write_ready, write_failed_event,
  write_stopped,
}
use unifi_emu.Herder.Plan.{Container, Plan}
use unifi_emu.Herder.Readiness.{Failure}
use unifi_emu.Herder.Run.{
  Ending, stopped, failed, OpError, Launch, Options, Environment, Live, exit_ok, exit_failure,
}
use unifi_emu.Herder.Run.Startup.{validate, launch_all, lives_of, start, ready_devices}
use unifi_emu.Herder.Run.Monitor.{Tick, monitor}

-- What the writes and the ticks of a run are.
pub record Script : Type 0 where
  pub started : Outcome
  pub ready : Outcome
  pub terminal : Outcome
  pub ticks : List Tick

-- A run that is over: stdout, the exit status, and the instances that were told to terminate.
pub record Finished : Type 0 where
  pub writer : Writer
  pub exit : ℕ
  pub terminated : List Text

unfoldable pub terminate_all : Environment → List Live → Bool
terminate_all env [] = true
terminate_all env (l ∷ ls) = env.terminate l.instance_id && terminate_all env ls

abbrev pub confirm_cleanup : Bool → Option ℕ → Bool × Bool
confirm_cleanup complete none = (false, true)
confirm_cleanup complete (some zero) = (complete, false)
confirm_cleanup complete (some (suc n)) = (false, false)

-- Whether there is a backend.
abbrev pub is_connected : Result OpError (Unit {0}) → Bool
is_connected (ok u) = true
is_connected (err e) = false

-- `complete` and `dockerLost`.
unfoldable pub cleanup : Environment → List Live → Bool × Bool
cleanup env lives =
    if not (is_connected env.connect.result)
    then (true, false)
    else confirm_cleanup (terminate_all env lives) env.remaining

-- `asFailure`.
abbrev pub ending_failure : Ending → Option Failure
ending_failure stopped = none
ending_failure (failed f) = some f

abbrev pub devices_of : Option Failure → List Identity
devices_of none = []
devices_of (some f) = f.devices

abbrev pub cleanup_cause : Option Failure → Bool → Option Code
cleanup_cause (some f) docker_lost = some f.code
cleanup_cause none true = some docker_unavailable
cleanup_cause none false = none

unfoldable pub stop_reason : Environment → Text
stop_reason env = if env.signalled then codes "signal" else codes "canceled"

abbrev pub stop_status : Option WriteError → ℕ
stop_status none = exit_ok
stop_status (some e) = exit_failure

-- The event after a complete cleanup, and the exit status.
abbrev pub report_ending : Options → Environment → Writer → Ending → Outcome → Writer × ℕ
report_ending o env w (failed f) outcome = (
  (write_failed_event w
      (record {
        run_id = o.run_id;
        phase = f.phase;
        code = f.code;
        cause = none;
        cleanup_complete = true;
        devices = f.devices;
      })
      outcome).0,
  exit_status f.code,
)
report_ending o env w stopped outcome =
    let emitted = write_stopped w o.run_id (stop_reason env) outcome in
    (emitted.0, stop_status emitted.1)

abbrev pub cleanup_event : Options → Ending → Bool → FailedEvent
cleanup_event o ending docker_lost = record {
  run_id = o.run_id;
  phase = phase_cleanup;
  code = cleanup_failed;
  cause = cleanup_cause (ending_failure ending) docker_lost;
  cleanup_complete = false;
  devices = devices_of (ending_failure ending);
}

unfoldable pub report : Options → Environment → Writer → Ending → Outcome → Bool × Bool → Writer × ℕ
report o env w ending outcome (complete, docker_lost) =
    if not complete
    then ((write_failed_event w (cleanup_event o ending docker_lost) outcome).0, exit_failure)
    else report_ending o env w ending outcome

abbrev pub told : Environment → List Live → List Text
told env lives = if is_connected env.connect.result then map (λ l. l.instance_id) lives else []

unfoldable pub finish : Options → Environment → Outcome → List Live → Writer → Ending → Finished
finish o env outcome lives w ending =
    let reported = report o env w ending outcome (cleanup env lives) in
    record { writer = reported.0; exit = reported.1; terminated = told env lives }

abbrev pub finish_monitored :
    Options → Environment → Script → List Live → Writer → Option Ending → Option Finished
finish_monitored o env s lives w none = none
finish_monitored o env s lives w (some e) = some (finish o env s.terminal lives w e)

abbrev pub after_ready :
    Options → Environment → Script → Plan → List Live → Emitted → Option Finished
after_ready o env s plan lives (w, some e) =
    some (record (finish o env s.terminal lives w stopped) { exit = exit_failure })
after_ready o env s plan lives (w, none) =
    finish_monitored o env s lives w (monitor plan lives 0 s.ticks)

abbrev pub after_start :
    Options
    → Environment
    → Script
    → Plan
    → Writer
    → List (Container × Launch)
    → Result Ending (List Live)
    → Option Finished
after_start o env s plan w launches (err e) = some (finish o env s.terminal (lives_of launches) w e)
after_start o env s plan w launches (ok lives) =
    after_ready o env s plan lives (write_ready w o.run_id (ready_devices lives) s.ready)

abbrev pub after_validate :
    Options → Environment → Script → Writer → Result Ending Plan → Option Finished
after_validate o env s w (err e) = some (finish o env s.terminal [] w e)
after_validate o env s w (ok plan) =
    let launches = launch_all env 0 plan.units in
    after_start o env s plan w launches (start env plan launches)

abbrev pub after_started :
    (Text → Bool) → Options → Environment → Script → Emitted → Option Finished
after_started known o env s (w, some e) =
    some (record { writer = w; exit = exit_failure; terminated = [] })
after_started known o env s (w, none) = after_validate o env s w (validate known o env)

-- None when the monitor's ticks are used up.
unfoldable pub execute : (Text → Bool) → Options → Environment → Script → Option Finished
execute known o env s = after_started known o env s (write_started new_writer o.run_id s.started)
