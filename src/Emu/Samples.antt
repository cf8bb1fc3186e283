-- ===== src/Emu/Samples.antt =====
-- Data for tests: a catalog of one access point, and the device that it gives.
use unifi_emu.Common.{◌≡◌, refl, [], ◌∷◌, none, Text, codes, ok, text_eq}
use unifi_emu.Common.Int.{pos}
use unifi_emu.Common.Mac.{hex_digit, parse_mac}
use unifi_emu.Common.Assoc.{lookup}
use unifi_emu.Inform.Session.{new_session}
use unifi_emu.Emu.Profile.{ModelProfile, DeviceSpec, Registry, profile, build_descriptor}
use unifi_emu.Emu.Device.{Device, pending, complete_spec, new_device}

abbrev pub sample_spec : DeviceSpec
sample_spec = record {
  mac = codes "02:00:00:00:00:07";
  serial = [];
  type = codes "uap";
  model = codes "U7PG2";
  model_display = [];
  version = [];
  name = [];
  ip = codes "10.0.0.9";
  ports = pos 0;
  ssids = [];
  fw_caps = none;
}

abbrev pub sample_profile : ModelProfile
sample_profile = record {
  model = codes "U7PG2";
  model_display = codes "UAP-AC-Pro";
  type = codes "uap";
  version = codes "6.6.77";
  udapi_version = [];
  udapi_caps = pos 0;
  fw_caps = pos 0;
  ports = [];
  radios = [];
}

abbrev pub sample_registry : Registry
sample_registry = (codes "U7PG2", sample_profile) ∷ []

abbrev pub sample_url : Text
sample_url = codes "http://10.0.0.1:8080/inform"

abbrev pub fresh_device : Device
fresh_device = record {
  spec = complete_spec sample_spec (codes "uap") sample_profile;
  session =
      new_session
        (build_descriptor (complete_spec sample_spec (codes "uap") sample_profile) sample_profile)
        sample_url 0;
  state = pending;
  interval = pos 10_000_000_000;
  last_status = 0;
  status_run = 0;
  last_status_log = 0;
  last_mgmt = [];
}

pub fresh_device_lem : new_device sample_registry sample_spec sample_url 0 ≡ ok fresh_device
unfolding new_device profile lookup text_eq parse_mac hex_digit
fresh_device_lem = refl
