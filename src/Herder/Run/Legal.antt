-- ===== src/Herder/Run/Legal.antt =====
-- internal/herder/run.go: the code and the phase of what `validate`, `start` and `monitor` end with.
use unifi_emu.Common.{
  ◌≡◌, refl, Bool, true, false, ◌||◌, not, ◌&&◌, List, Option, none, some, if◌then◌else◌, ◌==◌,
  codes, text_eq, length, Result, ok, err, OnError, OnError->>=, ◌>>=◌, fail_if,
}
use unifi_emu.Common.Assoc.{lookup}
use unifi_emu.Inform.Session.{is_empty}
use unifi_emu.Herder.Protocol.{
  Phase, phase_start, Code, allows_phase, code_matrix, phase_among, Identity, startup_timeout,
  container_start_failed,
}
use unifi_emu.Herder.Plan.{Container, Plan, endpoint_mac}
use unifi_emu.Herder.Readiness.{
  ContainerState, Failure, failf, or_failure, check_attachment, check_runtime_state, same_mac, eq_ℤ,
  is_none,
}
use unifi_emu.Common.Int.{is_positive}
use unifi_emu.Herder.Run.{
  Cause, deadline, canceled, OpError, Call, Ending, stopped, failed, classify, same_cause,
  cause_ending, failure_ending, with_devices, call_result, attempt, check_context, or_failed,
}

-- A failure with a code that is defined for its phase.
abbrev pub IsLegalFailure : Failure → Type 0
IsLegalFailure f = allows_phase f.code f.phase ≡ true

abbrev pub IsLegalEnding : Ending → Type 0
IsLegalEnding stopped = Unit {0}
IsLegalEnding (failed f) = IsLegalFailure f

abbrev pub IsLegalOption : Option Failure → Type 0
IsLegalOption none = Unit {0}
IsLegalOption (some f) = IsLegalFailure f

-- An error that is a failure is one with a code for its phase.
abbrev pub IsLegalError : OpError → Type 0
IsLegalError e = IsLegalOption e.failure

pub failure_ending-IsLegalEnding :
    (f : Option Failure) (fallback : Code) (phase : Phase)
    → IsLegalOption f
    → allows_phase fallback phase ≡ true
    → IsLegalEnding (failure_ending f fallback phase)
failure_ending-IsLegalEnding none fallback phase h a = a
failure_ending-IsLegalEnding (some f) fallback phase h a = h

cause_ending-IsLegalEnding :
    (c : Cause) (phase : Phase)
    → allows_phase startup_timeout phase ≡ true
    → IsLegalEnding (cause_ending c phase)
cause_ending-IsLegalEnding deadline phase h = h
cause_ending-IsLegalEnding canceled phase h = tt

pub classify-IsLegalEnding :
    (context : Option Cause) (e : OpError) (fallback : Code) (phase : Phase)
    → IsLegalError e
    → allows_phase fallback phase ≡ true
    → allows_phase startup_timeout phase ≡ true
    → IsLegalEnding (classify context e fallback phase)
unfolding classify
classify-IsLegalEnding none e fallback phase h a t =
    failure_ending-IsLegalEnding e.failure fallback phase h a
classify-IsLegalEnding (some c) e fallback phase h a t =
    elim (same_cause c e.cause)
      as (λ b.
        IsLegalEnding
          (if b then cause_ending c phase else failure_ending e.failure fallback phase)) [
            | true ↦ cause_ending-IsLegalEnding c phase t
            | false ↦ failure_ending-IsLegalEnding e.failure fallback phase h a
          ]

pub with_devices-IsLegalEnding :
    (devices : List Identity) (e : Ending)
    → IsLegalEnding e
    → IsLegalEnding (with_devices devices e)
with_devices-IsLegalEnding devices stopped h = tt
with_devices-IsLegalEnding devices (failed f) h = h

call_result-OnError :
    {A : Type 0} (context : Option Cause) (r : Result OpError A) (fallback : Code) (phase : Phase)
    → OnError IsLegalError r
    → allows_phase fallback phase ≡ true
    → allows_phase startup_timeout phase ≡ true
    → OnError IsLegalEnding (call_result context r fallback phase)
call_result-OnError context (ok a) fallback phase h a1 t = tt
call_result-OnError context (err e) fallback phase h a1 t =
    classify-IsLegalEnding context e fallback phase h a1 t

pub attempt-OnError :
    {A : Type 0} (c : Call A) (fallback : Code) (phase : Phase)
    → OnError IsLegalError c.result
    → allows_phase fallback phase ≡ true
    → allows_phase startup_timeout phase ≡ true
    → OnError IsLegalEnding (attempt c fallback phase)
attempt-OnError c fallback phase h a t = call_result-OnError c.context c.result fallback phase h a t

pub check_context-OnError :
    (c : Option Cause) (phase : Phase)
    → allows_phase startup_timeout phase ≡ true
    → OnError IsLegalEnding (check_context c phase)
check_context-OnError none phase t = tt
check_context-OnError (some c) phase t =
    classify-IsLegalEnding (some c) (record { cause = some c; failure = none }) startup_timeout
      phase tt t t

pub or_failed-OnError :
    {A : Type 0} (r : Result Failure A)
    → OnError IsLegalFailure r
    → OnError IsLegalEnding (or_failed r)
or_failed-OnError (ok a) h = tt
or_failed-OnError (err f) h = h

or_failure-OnError {ℓ} :
    {A : Type ℓ} (f : Failure) (o : Option A)
    → IsLegalFailure f
    → OnError IsLegalFailure (or_failure f o)
or_failure-OnError f none h = h
or_failure-OnError f (some a) h = tt

-- A test that fails with a legal failure, and what follows.
test-OnError :
    {A : Type 0} (b : Bool) (f : Failure) (next : Unit {0} → Result Failure A)
    → IsLegalFailure f
    → OnError IsLegalFailure (next tt)
    → OnError IsLegalFailure (fail_if b f >>= next)
test-OnError true f next h k = h
test-OnError false f next h k = k

pub check_attachment-OnError :
    (plan : Plan) (u : Container) (state : ContainerState)
    → OnError IsLegalFailure (check_attachment plan u state)
unfolding check_attachment allows_phase code_matrix phase_among
check_attachment-OnError plan u state =
    test-OnError (if length state.networks == 1 then false else true) _ _ refl (
      OnError->>= IsLegalFailure _ _
        (or_failure-OnError (failf container_start_failed phase_start)
          (lookup plan.network state.networks) refl)
        (λ endpoint. test-OnError (is_positive state.host_port_bindings) _ _ refl (
          test-OnError
            (not (is_empty (endpoint_mac u)) && not (same_mac endpoint.mac (endpoint_mac u))) _ _
            refl (test-OnError (is_empty endpoint.ipv4) _ _ refl tt))))

pub check_runtime_state-OnError :
    (plan : Plan) (baseline state : ContainerState)
    → OnError IsLegalFailure (check_runtime_state plan baseline state)
unfolding check_runtime_state allows_phase code_matrix phase_among
check_runtime_state-OnError plan baseline state = test-OnError (not state.running) _ _ refl (
    test-OnError (text_eq state.health (codes "unhealthy")) _ _ refl (
      test-OnError
        (not (eq_ℤ state.restart_count baseline.restart_count)
          || not (text_eq state.started_at baseline.started_at))
        _ _ refl
        (test-OnError (if length state.networks == 1 then false else true) _ _ refl
          (test-OnError (is_none (lookup plan.network state.networks)) _ _ refl tt))))
