-- ===== src/Emu/Entries/Tests.antt =====
-- A wait for a device that is not there, a misspelled key, and two models out of order.
use unifi_emu.Common.{◌≡◌, refl, [], ◌∷◌, none, err, codes, text_eq}
use unifi_emu.Common.Assoc.{lookup}
use unifi_emu.Common.Mac.{parse_mac, mac_string, hex_char, hex_digit, parse_pairs}
use unifi_emu.Herder.Plan.{text_among}
use unifi_emu.Emu.Device.{connected}
use unifi_emu.Emu.Fleet.{new_emu, state, normalize_mac}
use unifi_emu.Emu.Samples.{sample_spec, sample_profile}
use unifi_emu.Emu.Entries.{
  wait_state, unknown_device, unmarshal_yaml, mapping, unknown_key, check_keys, models, insert_text,
  less_text,
}

wait_state-unknown :
    wait_state (new_emu [] none) (codes "02:00:00:00:00:01") connected [] ≡ unknown_device
unfolding wait_state new_emu state normalize_mac parse_mac mac_string hex_char hex_digit parse_pairs
    lookup
wait_state-unknown = refl

unmarshal_yaml-modle :
    unmarshal_yaml sample_spec (mapping (codes "mac" ∷ codes "modle" ∷ []) none)
    ≡ err (unknown_key (codes "modle"))
unfolding unmarshal_yaml check_keys text_among text_eq
unmarshal_yaml-modle = refl

models-sorted :
    models ((codes "US8", sample_profile) ∷ (codes "U7", sample_profile) ∷ [])
    ≡ codes "U7" ∷ codes "US8" ∷ []
unfolding models insert_text less_text
models-sorted = refl
