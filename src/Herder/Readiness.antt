-- ===== src/Herder/Readiness.antt =====
-- internal/herder/readiness.go: the verdicts on an inspected container. A map of networks is an
-- association list whose keys differ; the words of an error are left out, its code and phase kept.
pub mod Verdicts
mod Tests
use unifi_emu.Common.{
  ℕ, ◌≡◌, ap, ok-injective, Bool, true, false, not, ◌&&◌, ◌||◌, List, [], ◌∷◌, map, Option, none,
  some, Text, codes, length, text_eq, ltb, leb, ◌==◌, if◌then◌else◌, Result, ok, err, ◌>>=◌, ◌>>◌,
  fail_if,
}
use unifi_emu.Common.Int.{ℤ, pos, negsuc, is_positive}
use unifi_emu.Common.Assoc.{lookup}
use unifi_emu.Common.Strings.{lower}
use unifi_emu.Inform.Session.{is_empty}
use unifi_emu.Herder.Protocol.{
  Identity, Phase, phase_start, phase_runtime, Code, container_start_failed, endpoint_mac_mismatch,
  device_exited, device_unhealthy, device_restarted, network_detached,
}
use unifi_emu.Herder.Plan.{Container, Plan, endpoint_mac}

pub record Endpoint : Type 0 where
  pub ipv4 : Text
  pub mac : Text

pub record ContainerState : Type 0 where
  pub running : Bool
  pub health : Text
  pub exit_code : ℤ
  pub restart_count : ℤ
  pub started_at : Text
  pub networks : List (Text × Endpoint)
  pub host_port_bindings : ℤ

-- A `Failure` without its words.
pub record Failure : Type 0 where
  pub code : Code
  pub phase : Phase
  pub devices : List Identity

abbrev pub failf : Code → Phase → Failure
failf code phase = record { code = code; phase = phase; devices = [] }

-- strings.EqualFold, on texts of ASCII letters: Docker and the plan spell MACs.
unfoldable pub same_mac : Text → Text → Bool
same_mac got want = text_eq (map lower got) (map lower want)

abbrev pub or_failure {ℓ} : {A : Type ℓ} → Failure → Option A → Result Failure A
or_failure e none = err e
or_failure e (some a) = ok a

abbrev start_failed : Failure
start_failed = failf container_start_failed phase_start

unfoldable pub check_attachment : Plan → Container → ContainerState → Result Failure Text
check_attachment plan unit state = do
  fail_if (if length state.networks == 1 then false else true) start_failed
  endpoint ← or_failure start_failed (lookup plan.network state.networks)
  fail_if (is_positive state.host_port_bindings) start_failed
  let want = endpoint_mac unit
  fail_if (not (is_empty want) && not (same_mac endpoint.mac want))
      (failf endpoint_mac_mismatch phase_start)
  fail_if (is_empty endpoint.ipv4) start_failed
  ok endpoint.ipv4

abbrev pub eq_ℤ : ℤ → ℤ → Bool
eq_ℤ (pos a) (pos b) = a == b
eq_ℤ (pos a) (negsuc b) = false
eq_ℤ (negsuc a) (pos b) = false
eq_ℤ (negsuc a) (negsuc b) = a == b

abbrev pub is_none {ℓ} : {A : Type ℓ} → Option A → Bool
is_none none = true
is_none (some a) = false

-- The verdict of the monitor on `state`, against what the container was when it became ready.
unfoldable pub check_runtime_state :
    Plan → ContainerState → ContainerState → Result Failure (Unit {0})
check_runtime_state plan baseline state = do
  fail_if (not state.running) (failf device_exited phase_runtime)
  fail_if (text_eq state.health (codes "unhealthy")) (failf device_unhealthy phase_runtime)
  fail_if
      (not (eq_ℤ state.restart_count baseline.restart_count)
        || not (text_eq state.started_at baseline.started_at))
      (failf device_restarted phase_runtime)
  fail_if (if length state.networks == 1 then false else true)
      (failf network_detached phase_runtime)
  fail_if (is_none (lookup plan.network state.networks)) (failf network_detached phase_runtime)
  ok tt

pub or_failure-some {ℓ} :
    {A : Type ℓ} (f : Failure) (o : Option A) (a : A) → or_failure f o ≡ ok a → o ≡ some a
or_failure-some f none a h = cc
or_failure-some f (some b) a h = ap some (ok-injective h)
