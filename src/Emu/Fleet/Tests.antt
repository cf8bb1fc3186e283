-- ===== src/Emu/Fleet/Tests.antt =====
-- A fleet of one device.
use unifi_emu.Common.{◌≡◌, refl, ◌≤◌, true, false, [], ◌∷◌, some, length, codes, ok, err, text_eq}
use unifi_emu.Common.Int.{pos}
use unifi_emu.Common.Mac.{hex_digit, parse_mac, mac_string}
use unifi_emu.Common.Assoc.{lookup, insert}
use unifi_emu.Emu.Profile.{DeviceSpec, profile}
use unifi_emu.Emu.Device.{pending, new_device, duplicate_mac, after_start}
use unifi_emu.Emu.Fleet.{Emu, normalize_mac, add_one, add, start, state, already_started}
use unifi_emu.Emu.Fleet.Laws.{add_one_known, start_once}
use unifi_emu.Emu.Samples.{sample_spec, sample_registry, sample_url, fresh_device}

abbrev empty_fleet : Emu
empty_fleet = record {
  inform_url = sample_url;
  interval = pos 10_000_000_000;
  devices = [];
  started = false;
}

abbrev dashed_spec : DeviceSpec
dashed_spec = record sample_spec { mac = codes "02-00-00-00-00-07" }

abbrev fleet : Emu
fleet = record empty_fleet { devices = (codes "02:00:00:00:00:07", fresh_device) ∷ [] }

fleet_lem : add_one sample_registry 0 empty_fleet dashed_spec ≡ ok fleet
unfolding add_one normalize_mac new_device profile lookup insert text_eq parse_mac mac_string
    hex_digit
fleet_lem = refl

add_one_known_example :
    (state fleet (codes "0200.0000.0007") ≡ some pending)
    × (add_one sample_registry 0 fleet sample_spec ≡ err duplicate_mac)
unfolding parse_mac hex_digit
add_one_known_example =
    add_one_known sample_registry 0 empty_fleet fleet dashed_spec sample_spec
      (codes "0200.0000.0007") fleet_lem refl refl

start_once_example :
    (1 ≤ length fleet.devices)
    × (start (record fleet { started = true }) ≡ err already_started)
    × (add sample_registry 0 (record fleet { started = true }) (sample_spec ∷ [])
        ≡ (record fleet { started = true }, some after_start))
unfolding start
start_once_example =
    start_once sample_registry 0 fleet (record fleet { started = true }) (sample_spec ∷ []) refl
