-- ===== src/Discovery/Tests.antt =====
-- The discovery codec on one announcement of version 2.
use unifi_emu.Common.{
  ◌≡◌, ◌≢◌, refl, ◌↔◌, ◌≤◌, [], ◌∷◌, ◌++◌, some, Bytes, length, codes, ok, err, arith,
}
use unifi_emu.Common.Endian.{put_uint16}
use unifi_emu.Discovery.{
  Announcement, v2, marshal, parse, out_of_fuel, marshal_body, put_mac, put_addresses, put_address,
  to4, put_v2, put_netmask, put_mask, put_tlv, put_text, put_number, put_u32, put_common,
}
use unifi_emu.Discovery.Shape.{IsValid, encode, fields}
use unifi_emu.Discovery.Fold.{normalize}
use unifi_emu.Discovery.Loop.{parse-ne-out_of_fuel}
use unifi_emu.Discovery.RoundTrip.{marshal_iff, parse-marshal}

abbrev hw : Bytes
hw = 2 ∷ 0 ∷ 0 ∷ 0 ∷ 0 ∷ 7 ∷ []

abbrev announced : Announcement
announced = record {
  version = v2;
  command = 6;
  mac = some hw;
  addresses = record { mac = hw; ip = 10 ∷ 0 ∷ 0 ∷ 9 ∷ [] } ∷ [];
  firmware = codes "7.0";
  uptime = 300;
  hostname = codes "ap";
  platform = [];
  essid = [];
  wmode = 0;
  seq = 5;
  source_mac = some hw;
  model = codes "U7";
  netmask = some (255 ∷ 255 ∷ 255 ∷ 0 ∷ []);
}

abbrev written : Bytes
written =
    2 ∷ 6 ∷ 0 ∷ 68 ∷ 1 ∷ 0 ∷ 6 ∷ 2 ∷ 0 ∷ 0 ∷ 0 ∷ 0 ∷ 7 ∷ 2 ∷ 0 ∷ 10 ∷ 2 ∷ 0 ∷ 0 ∷ 0 ∷ 0 ∷ 7 ∷ 10 ∷ 0
    ∷ 0 ∷ 9 ∷ 3 ∷ 0 ∷ 3 ∷ 55 ∷ 46 ∷ 48 ∷ 10 ∷ 0 ∷ 4 ∷ 0 ∷ 0 ∷ 1 ∷ 44 ∷ 11 ∷ 0 ∷ 2 ∷ 97 ∷ 112 ∷ 18
    ∷ 0 ∷ 4 ∷ 0 ∷ 0 ∷ 0 ∷ 5 ∷ 19 ∷ 0 ∷ 6 ∷ 2 ∷ 0 ∷ 0 ∷ 0 ∷ 0 ∷ 7 ∷ 21 ∷ 0 ∷ 2 ∷ 85 ∷ 55 ∷ 53 ∷ 0 ∷ 4
    ∷ 255 ∷ 255 ∷ 255 ∷ 0 ∷ []

marshal-announced : marshal announced ≡ ok written
unfolding marshal marshal_body put_mac put_addresses put_address to4 put_v2 put_netmask put_mask
    put_tlv put_text put_number put_u32 put_common
marshal-announced = refl

parse-marshal_example : parse (written ++ (9 ∷ [])) ≡ ok (normalize announced)
parse-marshal_example =
    parse-marshal announced written (9 ∷ [])
      (record { uptime_fits = omega arith; wmode_fits = omega arith; seq_fits = omega arith })
      marshal-announced

marshal_iff_example : (marshal announced ≡ ok written) ↔ (
    IsValid announced
    × (length (encode (fields announced)) ≤ 0xffff)
    × (announced.version ∷ announced.command ∷ put_uint16 (length (encode (fields announced)))
          ++ encode (fields announced)
        ≡ written))
marshal_iff_example = marshal_iff announced written

parse-ne-out_of_fuel_example : parse (2 ∷ 6 ∷ 0 ∷ 3 ∷ 1 ∷ 0 ∷ 6 ∷ []) ≢ err out_of_fuel
parse-ne-out_of_fuel_example = parse-ne-out_of_fuel (2 ∷ 6 ∷ 0 ∷ 3 ∷ 1 ∷ 0 ∷ 6 ∷ [])
