-- ===== src/Inform/Tables/Tests.antt =====
-- Two radios and two networks.
use unifi_emu.Common.{[], ◌∷◌, codes, arith}
use unifi_emu.Common.Int.{pos}
use unifi_emu.Inform.Descriptor.{Radio, Descriptor}
use unifi_emu.Inform.Tables.{mac_header, vaps}
use unifi_emu.Inform.Tables.Bssids.{IsNumbered, IsApart, vaps-IsApart}
use unifi_emu.Inform.Samples.{sample_desc}

abbrev radio : Radio
radio = record {
  name = codes "wifi0";
  radio = codes "ng";
  channel = pos 1;
  ht = codes "20";
  min_tx_power = pos 6;
  max_tx_power = pos 20;
  nss = pos 2;
  radio_caps = pos 0;
  antenna_gain = pos 3;
}

abbrev busy_desc : Descriptor
busy_desc = record sample_desc {
  radios = radio ∷ record radio { name = codes "wifi1"; radio = codes "na" } ∷ [];
  ssids = codes "home" ∷ codes "guest" ∷ [];
}

vaps-IsApart_example :
    IsNumbered (mac_header busy_desc.mac) 0 (vaps busy_desc) × IsApart (vaps busy_desc)
unfolding vaps
vaps-IsApart_example = vaps-IsApart busy_desc (omega arith)
