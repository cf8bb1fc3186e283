-- ===== src/Herder/Allocation/Tests.antt =====
-- Two devices of one model, the first with a MAC of its own.
use unifi_emu.Common.{◌≡◌, refl, List, [], ◌∷◌, Bytes, codes, ok, err, text_eq}
use unifi_emu.Common.Int.{pos}
use unifi_emu.Common.Mac.{parse_mac, mac_string, hex_digit}
use unifi_emu.Common.Strings.{upper}
use unifi_emu.Emu.Profile.{without_colons}
use unifi_emu.Herder.Protocol.{Identity}
use unifi_emu.Herder.Plan.{text_among}
use unifi_emu.Herder.Identity.{
  bad_request, canonical_mac, mac_hex, derived_serial, derived_name, normalize_model, check_model,
  printable_ascii, check_name, dns_label, is_alnum, check_serial, trim_right_dash, trim_left_dash,
}
use unifi_emu.Herder.Allocation.{
  RequestDevice, allocate, supply_all, supply_one, claim, add_text, complete_all, complete_one,
  pick, candidate, claim_all, generate, generate_all,
}
use unifi_emu.Herder.Allocation.Filling.{IsSeparate}
use unifi_emu.Herder.Allocation.Claims.{macs_of, serials_of, names_of}
use unifi_emu.Herder.Allocation.Outcomes.{AreServed, allocate-IsOutcome}
use unifi_emu.Herder.Allocation.Unique.{allocate-IsSeparate}

abbrev requested : List RequestDevice
requested =
    record { model = codes "U7"; mac = codes "02-00-00-00-00-0A"; serial = []; name = codes "ap" }
    ∷ record { model = codes "U7"; mac = []; serial = codes "S1"; name = [] }
    ∷ []

abbrev random : Bytes
random = 255 ∷ 1 ∷ 2 ∷ 3 ∷ 4 ∷ 5 ∷ 9 ∷ []

abbrev allocated : List Identity
allocated =
    record {
      index = pos 0;
      model = codes "U7";
      mac = codes "02:00:00:00:00:0a";
      serial = codes "EMU02000000000A";
      name = codes "ap";
    }
    ∷ record {
      index = pos 1;
      model = codes "U7";
      mac = codes "fe:01:02:03:04:05";
      serial = codes "S1";
      name = codes "emu-u7-fe0102030405";
    }
    ∷ []

allocate-requested : allocate requested random ≡ ok allocated
unfolding allocate supply_all supply_one claim add_text complete_all complete_one pick candidate
    claim_all generate generate_all text_among text_eq parse_mac mac_string hex_digit upper
    without_colons canonical_mac mac_hex derived_serial derived_name normalize_model check_model
    printable_ascii check_name dns_label is_alnum check_serial trim_right_dash trim_left_dash
allocate-requested = refl

allocate-IsSeparate_example :
    IsSeparate (macs_of allocated)
    × IsSeparate (serials_of allocated)
    × IsSeparate (names_of allocated)
allocate-IsSeparate_example = allocate-IsSeparate requested random allocated allocate-requested

abbrev repeated : List RequestDevice
repeated =
    record { model = codes "U7"; mac = []; serial = []; name = codes "ap" }
    ∷ record { model = codes "U7"; mac = []; serial = []; name = codes "ap" }
    ∷ []

allocate-repeated : allocate repeated random ≡ err bad_request
unfolding allocate supply_all supply_one claim add_text complete_all complete_one pick candidate
    claim_all generate generate_all text_among text_eq parse_mac mac_string hex_digit upper
    without_colons canonical_mac mac_hex derived_serial derived_name normalize_model check_model
    printable_ascii check_name dns_label is_alnum check_serial trim_right_dash trim_left_dash
allocate-repeated = refl

allocate-IsOutcome_example : AreServed 0 requested allocated
unfolding allocate supply_all supply_one claim add_text complete_all complete_one pick candidate
    claim_all generate generate_all text_among text_eq parse_mac mac_string hex_digit upper
    without_colons canonical_mac mac_hex derived_serial derived_name normalize_model check_model
    printable_ascii check_name dns_label is_alnum check_serial trim_right_dash trim_left_dash
allocate-IsOutcome_example = allocate-IsOutcome requested random
