-- ===== src/Cli/Tests.antt =====
-- A switch and an access point, the second with an address of its own.
use unifi_emu.Common.{
  ◌≤◌, ◌≡◌, ◌≢◌, refl, [], ◌∷◌, List, Option, none, some, Text, Bytes, codes, text_eq, ok, arith,
}
use unifi_emu.Common.Int.{pos}
use unifi_emu.Common.Assoc.{lookup}
use unifi_emu.Common.Mac.{parse_mac, mac_string, hex_char, hex_digit, parse_pairs}
use unifi_emu.Common.Strings.{split, cut, trim_space}
use unifi_emu.Inform.Tables.{decimal_text}
use unifi_emu.Emu.Profile.{DeviceSpec, ModelProfile, Registry, profile}
use unifi_emu.Net.{parse_ip_to4, parse_ip4, to4_from, parse_octet, digits_from, ip4_text, atoi}
use unifi_emu.Cli.Devices.{plain_spec, parse_models_list, parse_items, parse_item}
use unifi_emu.Cli.Fleet.{expand_fleet, expand_from, next_ip, next_mac, mac_value}
use unifi_emu.Cli.Fleet.Filled.{AllFilled, count_gateways, expand_fleet-AllFilled}
use unifi_emu.Cli.Fleet.Macs.{next_mac-ne}

abbrev model_profile : Text → Text → ModelProfile
model_profile model type = record {
  model = model;
  model_display = model;
  type = type;
  version = [];
  udapi_version = [];
  udapi_caps = pos 0;
  fw_caps = pos 0;
  ports = [];
  radios = [];
}

abbrev registry : Registry
registry =
    (codes "U7", model_profile (codes "U7") (codes "uap"))
    ∷ (codes "UGW3", model_profile (codes "UGW3") (codes "ugw"))
    ∷ []

abbrev no_ip6 : Text → Option Bytes
no_ip6 s = none

abbrev listed : List DeviceSpec
listed =
    plain_spec (codes "UGW3") [] [] []
    ∷ plain_spec (codes "U7") [] [] []
    ∷ plain_spec (codes "U7") [] [] []
    ∷ []

parse_models_list-listed : parse_models_list (codes "UGW3, U7:2,") ≡ ok listed
unfolding parse_models_list parse_items parse_item split cut trim_space atoi digits_from
parse_models_list-listed = refl

abbrev expanded : List DeviceSpec
expanded =
    record (plain_spec (codes "UGW3") [] [] []) {
      mac = codes "02:00:00:00:00:ff";
      ip = codes "10.0.0.253";
    }
    ∷ record (plain_spec (codes "U7") [] [] []) {
      mac = codes "02:00:00:00:01:00";
      ip = codes "10.0.0.254";
    }
    ∷ []

abbrev given : List DeviceSpec
given = plain_spec (codes "UGW3") [] [] [] ∷ plain_spec (codes "U7") [] [] [] ∷ []

expand_fleet-given :
    expand_fleet no_ip6 registry given (codes "02:00:00:00:00:fe") (codes "10.0.0.253")
    ≡ ok expanded
unfolding expand_fleet expand_from next_ip next_mac mac_value parse_mac mac_string hex_char
    hex_digit parse_pairs parse_ip_to4 parse_ip4 to4_from parse_octet digits_from split ip4_text
    decimal_text profile lookup text_eq
expand_fleet-given = refl

expand_fleet-AllFilled_example :
    (mac : Bytes) × (ip : Bytes) × (parse_mac (codes "02:00:00:00:00:fe") ≡ some mac)
    × (parse_ip_to4 no_ip6 (codes "10.0.0.253") ≡ some ip)
    × AllFilled registry mac ip 0 given expanded
    × (count_gateways registry given ≤ 1)
expand_fleet-AllFilled_example =
    expand_fleet-AllFilled no_ip6 registry given (codes "02:00:00:00:00:fe") (codes "10.0.0.253")
      expanded expand_fleet-given

abbrev high_base : Bytes
high_base = 255 ∷ 255 ∷ 255 ∷ 255 ∷ 255 ∷ 255 ∷ []

next_mac-ne_example : next_mac high_base 0 ≢ next_mac high_base 1
next_mac-ne_example = next_mac-ne high_base 0 1 (omega arith) (omega arith) (omega arith)
