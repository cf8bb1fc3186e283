-- ===== src/Herder/Readiness/Tests.antt =====
-- A container that passes both checks, and one that was restarted.
use unifi_emu.Common.{◌≡◌, refl, inr, true, [], ◌∷◌, codes, text_eq}
use unifi_emu.Common.Int.{pos}
use unifi_emu.Common.Assoc.{lookup}
use unifi_emu.Common.Strings.{lower}
use unifi_emu.Herder.Protocol.{allows_phase, device_restarted, phase_runtime}
use unifi_emu.Herder.Plan.{Container, Plan, opaque, endpoint_mac}
use unifi_emu.Herder.Readiness.{
  ContainerState, failf, same_mac, check_attachment, check_runtime_state,
}
use unifi_emu.Herder.Readiness.Verdicts.{
  IsAttached, IsSteady, check_attachment-IsAttached, check_runtime_state-IsSteady, verdicts_legal,
}

abbrev switch : Container
switch = record {
  kind = opaque;
  image = codes "switch";
  cap_add = [];
  devices =
      record {
        index = pos 0;
        model = codes "US8";
        mac = codes "02:00:00:00:00:0a";
        serial = [];
        name = [];
      }
      ∷ [];
}

abbrev plan : Plan
plan = record { run_id = codes "r1"; network = codes "lab"; inform_url = []; units = switch ∷ [] }

abbrev state : ContainerState
state = record {
  running = true;
  health = codes "healthy";
  exit_code = pos 0;
  restart_count = pos 0;
  started_at = codes "12:00";
  networks =
      (codes "lab", record { ipv4 = codes "10.0.0.5"; mac = codes "02:00:00:00:00:0A" }) ∷ [];
  host_port_bindings = pos 0;
}

abbrev restarted : ContainerState
restarted = record state { restart_count = pos 1 }

check_attachment-IsAttached_example : IsAttached plan switch state (codes "10.0.0.5")
unfolding check_attachment lookup text_eq endpoint_mac same_mac lower
check_attachment-IsAttached_example =
    check_attachment-IsAttached plan switch state (codes "10.0.0.5") refl

check_runtime_state-IsSteady_example : IsSteady plan state state
unfolding check_runtime_state lookup text_eq
check_runtime_state-IsSteady_example = check_runtime_state-IsSteady plan state state refl

verdicts_legal_example : allows_phase device_restarted phase_runtime ≡ true
unfolding check_runtime_state text_eq
verdicts_legal_example =
    verdicts_legal plan switch state restarted (failf device_restarted phase_runtime) (inr refl)
