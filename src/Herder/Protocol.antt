-- ===== src/Herder/Protocol.antt =====
-- internal/herder/protocol.go: the control protocol on stdout. A code or a phase of the matrix is a
-- constructor. Each event is written in one call, whose outcome is given.
pub mod Order
mod Tests
use unifi_emu.Common.{
  ℕ, ◌≡◌, Bool, true, false, not, ◌||◌, List, [], ◌∷◌, ◌++◌, Option, none, some, Text, codes, ◌==◌,
  if◌then◌else◌,
}
use unifi_emu.Common.Int.{ℤ}

abbrev pub protocol_version : ℕ
protocol_version = 1

pub data Phase : Type 0 where
  phase_validate phase_pull phase_start phase_health phase_runtime phase_cleanup : Phase

pub data Code : Type 0 where
  invalid_request invalid_runtime_config network_not_found inform_url_invalid : Code
  docker_version_unsupported reaper_disabled synthetic_model_unknown : Code
  synthetic_image_required image_pull_failed startup_timeout image_invalid : Code
  capability_unsupported container_start_failed endpoint_mac_mismatch device_unhealthy : Code
  device_exited device_restarted network_detached docker_unavailable cleanup_failed : Code

-- One row of the matrix.
pub record CodeSpec : Type 0 where
  pub phases : List Phase
  pub exit : ℕ
  pub message : Text

abbrev row : List Phase → Text → CodeSpec
row phases message = record { phases = phases; exit = 1; message = message }

unfoldable pub code_matrix : Code → CodeSpec
code_matrix invalid_request = row (phase_validate ∷ []) (codes "the device request is not valid")
code_matrix invalid_runtime_config =
    row (phase_validate ∷ []) (codes "the runtime configuration is not valid")
code_matrix network_not_found =
    row (phase_validate ∷ []) (codes "the requested Docker network does not exist")
code_matrix inform_url_invalid =
    row (phase_validate ∷ []) (codes "the inform URL is not a canonical IPv4 inform endpoint")
code_matrix docker_version_unsupported =
    row (phase_validate ∷ [])
      (codes "the Docker daemon is older than the supported engine and API versions")
code_matrix reaper_disabled =
    row (phase_validate ∷ []) (codes "the Testcontainers reaper is disabled")
code_matrix synthetic_model_unknown =
    row (phase_validate ∷ []) (codes "a requested model has no synthetic profile")
code_matrix synthetic_image_required =
    row (phase_validate ∷ []) (codes "the plan needs a synthetic image and none was selected")
code_matrix image_pull_failed =
    row (phase_pull ∷ []) (codes "a required device image could not be pulled")
code_matrix startup_timeout =
    row (phase_validate ∷ phase_pull ∷ phase_start ∷ phase_health ∷ [])
      (codes "startup did not complete before the startup timeout")
code_matrix image_invalid =
    row (phase_pull ∷ [])
      (codes "a required device image does not satisfy the device-container contract")
code_matrix capability_unsupported =
    row (phase_validate ∷ []) (codes "the Docker daemon cannot apply the configured capability set")
code_matrix container_start_failed =
    row (phase_start ∷ []) (codes "a device container could not be created or started as required")
code_matrix endpoint_mac_mismatch =
    row (phase_start ∷ [])
      (codes "a device container endpoint MAC does not match the requested MAC")
code_matrix device_unhealthy =
    row (phase_health ∷ phase_runtime ∷ [])
      (codes "one or more device runtimes did not become healthy")
code_matrix device_exited =
    row (phase_health ∷ phase_runtime ∷ []) (codes "one or more device containers exited")
code_matrix device_restarted =
    row (phase_runtime ∷ []) (codes "one or more device containers restarted")
code_matrix network_detached =
    row (phase_runtime ∷ []) (codes "a device container network attachment changed")
code_matrix docker_unavailable =
    row (phase_validate ∷ phase_pull ∷ phase_start ∷ phase_health ∷ phase_runtime ∷ [])
      (codes "the Docker API became unavailable")
code_matrix cleanup_failed =
    row (phase_cleanup ∷ []) (codes "one or more device containers remain after cleanup")

-- Phases are equal when their numbers are.
abbrev pub phase_number : Phase → ℕ
phase_number phase_validate = 0
phase_number phase_pull = 1
phase_number phase_start = 2
phase_number phase_health = 3
phase_number phase_runtime = 4
phase_number phase_cleanup = 5

unfoldable pub phase_among : Phase → List Phase → Bool
phase_among phase [] = false
phase_among phase (p ∷ ps) = phase_number p == phase_number phase || phase_among phase ps

unfoldable pub allows_phase : Code → Phase → Bool
unfolding phase_among
allows_phase c phase = phase_among phase (code_matrix c).phases

unfoldable pub exit_status : Code → ℕ
exit_status c = (code_matrix c).exit

unfoldable pub message : Code → Text
message c = (code_matrix c).message

pub record Identity : Type 0 where
  pub index : ℤ
  pub model : Text
  pub mac : Text
  pub serial : Text
  pub name : Text

pub record ReadyDevice : Type 0 where
  pub identity : Identity
  pub ip : Text

-- A cause is none where the field is empty.
pub record FailedEvent : Type 0 where
  pub run_id : Text
  pub phase : Phase
  pub code : Code
  pub cause : Option Code
  pub cleanup_complete : Bool
  pub devices : List Identity

-- The wire shapes, whose `protocol` and `event` are fixed. A failure carries its message.
pub data Event : Type 0 where
  started_event : Text → Event
  ready_event : Text → List ReadyDevice → Event
  failed_event : FailedEvent → Text → Event
  stopped_event : Text → Text → Event

pub data WriteError : Type 0 where
  already_started ready_before_started ready_already_emitted ready_after_terminal : WriteError
  code_not_for_phase terminal_before_started terminal_already_emitted : WriteError
  marshal_error broken_stdout : WriteError

-- `out` holds the events that the io.Writer took, the first one first.
pub record Writer : Type 0 where
  pub broken : Bool
  pub started : Bool
  pub ready : Bool
  pub terminal : Bool
  pub out : List Event

unfoldable pub new_writer : Writer
new_writer = record { broken = false; started = false; ready = false; terminal = false; out = [] }

-- What json.Marshal and the io.Writer do with an event.
pub data Outcome : Type 0 where
  written marshal_failed write_failed : Outcome

abbrev pub Emitted : Type 0
Emitted = Writer × Option WriteError

abbrev pub emit_whole : Writer → Event → Outcome → Emitted
emit_whole w ev marshal_failed = (w, some marshal_error)
emit_whole w ev write_failed = (record w { broken = true }, some broken_stdout)
emit_whole w ev written = (record w { out = w.out ++ (ev ∷ []) }, none)

unfoldable pub emit : Writer → Event → Outcome → Emitted
emit w ev o = if w.broken then (w, some broken_stdout) else emit_whole w ev o

-- `if err := w.emit(...); err != nil { return err }`, and then the flag.
abbrev pub emit_then : Emitted → (Writer → Writer) → Emitted
emit_then (w, some e) f = (w, some e)
emit_then (w, none) f = (f w, none)

unfoldable pub write_started : Writer → Text → Outcome → Emitted
write_started w run_id o =
    if w.started
    then (w, some already_started)
    else emit_then (emit w (started_event run_id) o) (λ v. record v { started = true })

unfoldable pub write_ready : Writer → Text → List ReadyDevice → Outcome → Emitted
write_ready w run_id devices o =
    if not w.started
    then (w, some ready_before_started)
    else if w.ready
    then (w, some ready_already_emitted)
    else if w.terminal
    then (w, some ready_after_terminal)
    else emit_then (emit w (ready_event run_id devices) o) (λ v. record v { ready = true })

unfoldable pub before_terminal : Writer → Option WriteError
before_terminal w =
    if not w.started
    then some terminal_before_started
    else if w.terminal
    then some terminal_already_emitted
    else none

-- The rest of a terminal call, after `before_terminal`.
abbrev pub unless_refused : Option WriteError → Writer → Emitted → Emitted
unless_refused (some e) w rest = (w, some e)
unless_refused none w rest = rest

abbrev pub emit_terminal : Writer → Event → Outcome → Emitted
emit_terminal w ev o = emit_then (emit w ev o) (λ v. record v { terminal = true })

unfoldable pub write_failed_event : Writer → FailedEvent → Outcome → Emitted
write_failed_event w ev o = unless_refused (before_terminal w) w (
    if not (allows_phase ev.code ev.phase)
    then (w, some code_not_for_phase)
    else emit_terminal w (failed_event ev (message ev.code)) o)

unfoldable pub write_stopped : Writer → Text → Text → Outcome → Emitted
write_stopped w run_id reason o =
    unless_refused (before_terminal w) w (emit_terminal w (stopped_event run_id reason) o)
