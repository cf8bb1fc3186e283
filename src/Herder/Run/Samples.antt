-- ===== src/Herder/Run/Samples.antt =====
-- A run of two synthetic devices in one container, which a signal stops after one poll.
use unifi_emu.Common.{
  ◌≡◌, refl, Bool, true, false, List, [], ◌∷◌, none, some, Text, codes, text_eq, ok, err,
}
use unifi_emu.Common.Int.{pos}
use unifi_emu.Common.Assoc.{lookup}
use unifi_emu.Common.Mac.{parse_mac, mac_string, hex_digit}
use unifi_emu.Common.Strings.{upper}
use unifi_emu.Emu.Profile.{without_colons}
use unifi_emu.Herder.Protocol.{
  Identity, started_event, ready_event, stopped_event, new_writer, written, write_started,
  write_ready, write_stopped, before_terminal, emit,
}
use unifi_emu.Herder.Plan.{
  endpoint_mac, text_among, build_plan, check_models, mapping, place_all, fill_unit,
}
use unifi_emu.Herder.Readiness.{ContainerState, check_attachment, check_runtime_state}
use unifi_emu.Herder.Identity.{
  canonical_mac, mac_hex, derived_serial, derived_name, normalize_model, check_model,
  printable_ascii, check_name, dns_label, is_alnum, check_serial, trim_right_dash, trim_left_dash,
}
use unifi_emu.Herder.Allocation.{
  allocate, supply_all, supply_one, claim, add_text, complete_all, complete_one, pick, candidate,
  claim_all, generate, generate_all,
}
use unifi_emu.Herder.Run.{Call, Options, Environment, canceled, classify}
use unifi_emu.Herder.Run.Startup.{
  plan_input, prepare_plan, validate, launch_all, lives_of, check_launches, await_all, attach_all,
  start, ready_of, all_ready, sink_ready, sort_ready, turn_ready, ready_devices,
}
use unifi_emu.Herder.Run.Monitor.{Tick, context_done, poll, poll_round, monitor}
use unifi_emu.Herder.Run.Execute.{
  Script, Finished, terminate_all, cleanup, stop_reason, report, finish, execute,
}

abbrev pub answer : {A : Type 0} → A → Call A
answer a = record { result = ok a; context = none }

abbrev pub silent : {A : Type 0} → Call A
silent = record { result = err (record { cause = none; failure = none }); context = none }

abbrev pub healthy_state : ContainerState
healthy_state = record {
  running = true;
  health = codes "healthy";
  exit_code = pos 0;
  restart_count = pos 0;
  started_at = codes "now";
  networks = (codes "lab", record { ipv4 = codes "10.0.0.2"; mac = [] }) ∷ [];
  host_port_bindings = pos 0;
}

abbrev pub options : Options
options = record {
  run_id = codes "r1";
  network = codes "lab";
  inform_url = codes "http://10.0.0.1:8080/inform";
  synthetic_image = codes "emu:1";
  request = ok (
      record { model = codes "U7"; mac = codes "02:00:00:00:00:0a"; serial = []; name = codes "ap" }
      ∷ record {
        model = codes "US8";
        mac = codes "02:00:00:00:00:0b";
        serial = codes "S1";
        name = codes "sw";
      }
      ∷ []);
  config = ok [];
  random = [];
  url_check = ok tt;
  reaper_check = ok tt;
}

abbrev pub environment : Environment
environment = record {
  connect = answer tt;
  daemon = answer tt;
  find_network = answer tt;
  capabilities = λ plan. answer tt;
  prepare = λ plan. answer tt;
  pulled = none;
  launch = λ i u. record { instance_id = some (codes "c1"); error = none; context = none };
  launched = none;
  healthy = λ id. answer tt;
  awaited = none;
  inspect = λ id. answer healthy_state;
  attached = none;
  terminate = λ id. true;
  remaining = some 0;
  signalled = true;
}

abbrev pub all_ticks : List Tick
all_ticks = poll (λ id. answer healthy_state) ∷ context_done canceled ∷ []

abbrev pub script : Script
script = record { started = written; ready = written; terminal = written; ticks = all_ticks }

abbrev pub known : Text → Bool
known model = true

abbrev pub access_point : Identity
access_point = record {
  index = pos 0;
  model = codes "U7";
  mac = codes "02:00:00:00:00:0a";
  serial = codes "EMU02000000000A";
  name = codes "ap";
}

abbrev pub switch : Identity
switch = record {
  index = pos 1;
  model = codes "US8";
  mac = codes "02:00:00:00:00:0b";
  serial = codes "S1";
  name = codes "sw";
}

abbrev pub finished : Finished
finished = record {
  writer = record {
    broken = false;
    started = true;
    ready = true;
    terminal = true;
    out =
        started_event (codes "r1")
        ∷ ready_event (codes "r1") (
            record { identity = access_point; ip = codes "10.0.0.2" }
            ∷ record { identity = switch; ip = codes "10.0.0.2" }
            ∷ [])
        ∷ stopped_event (codes "r1") (codes "signal")
        ∷ [];
  };
  exit = 0;
  terminated = codes "c1" ∷ [];
}

pub execute_lem : execute known options environment script ≡ some finished
unfolding allocate supply_all supply_one claim add_text complete_all complete_one pick candidate
    claim_all generate generate_all text_among text_eq parse_mac mac_string hex_digit upper
    without_colons canonical_mac mac_hex derived_serial derived_name normalize_model check_model
    printable_ascii check_name dns_label is_alnum check_serial trim_right_dash trim_left_dash
    build_plan check_models mapping place_all fill_unit lookup check_attachment check_runtime_state
    classify plan_input prepare_plan validate launch_all lives_of check_launches await_all
    attach_all start ready_of all_ready sink_ready sort_ready turn_ready ready_devices poll_round
    monitor terminate_all cleanup stop_reason report finish execute new_writer write_started
    write_ready write_stopped before_terminal emit endpoint_mac
execute_lem = refl
