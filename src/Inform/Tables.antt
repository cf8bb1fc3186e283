-- ===== src/Inform/Tables.antt =====
-- inform/tables.go: the port, ethernet, radio and access-point tables of a payload.
pub mod Bssids
mod Tests
use Prim.Native.Nat.{bit_or}
use unifi_emu.Common.{
  ℕ, zero, suc, ◌+◌, ◌%◌, ◌/◌, true, List, [], ◌∷◌, ◌++◌, map, Option, none, some, Text, Bytes,
  length, codes, ◌==◌, ltb, if◌then◌else◌,
}
use unifi_emu.Common.Int.{pos, negsuc}
use unifi_emu.Common.Mac.{parse_mac, mac_string}
use unifi_emu.Inform.Json.{Json, str, num, bool, arr, nil, table}
use unifi_emu.Inform.Descriptor.{Port, Radio, Descriptor}

abbrev zero_mac : Bytes
zero_mac = 0 ∷ 0 ∷ 0 ∷ 0 ∷ 0 ∷ 0 ∷ []

header_of : Option Bytes → Bytes
header_of none = zero_mac
header_of (some hw) = if length hw == 6 then hw else zero_mac

-- The six bytes of a MAC, zero where it does not parse.
unfoldable pub mac_header : Text → Bytes
unfolding header_of
mac_header mac = header_of (parse_mac mac)

port_row : Port → List (Text × Json)
port_row p =
    (codes "ifname", str p.if_name)
    ∷ (codes "name", str p.name)
    ∷ (codes "port_idx", num p.port_idx)
    ∷ (codes "media", str p.media)
    ∷ (codes "poe_caps", num p.poe_caps)
    ∷ (codes "is_uplink", bool p.is_uplink)
    ∷ (codes "up", bool true)
    ∷ (codes "speed", num (pos 1000))
    ∷ (codes "full_duplex", bool true)
    ∷ (codes "rx_bytes", num (pos 0))
    ∷ (codes "tx_bytes", num (pos 0))
    ∷ []

unfoldable pub port_table : Descriptor → Json
unfolding port_row
port_table desc = table (map port_row desc.ports)

unfoldable pub ethernet_table : Descriptor → Json
ethernet_table desc = table (
    ((codes "mac", str desc.mac)
      ∷ (codes "name", str (codes "eth0"))
      ∷ (codes "num_port", num (pos (length desc.ports)))
      ∷ [])
    ∷ [])

radio_row : Radio → List (Text × Json)
radio_row r =
    (codes "name", str r.name)
    ∷ (codes "radio", str r.radio)
    ∷ (codes "channel", num r.channel)
    ∷ (codes "ht", str r.ht)
    ∷ (codes "min_txpower", num r.min_tx_power)
    ∷ (codes "max_txpower", num r.max_tx_power)
    ∷ (codes "nss", num r.nss)
    ∷ (codes "tx_power", num r.max_tx_power)
    ∷ (codes "radio_caps", num r.radio_caps)
    ∷ (codes "antenna_gain", num r.antenna_gain)
    ∷ (codes "builtin_antenna", bool true)
    ∷ (codes "builtin_ant_gain", num r.antenna_gain)
    ∷ []

unfoldable pub radio_table : Descriptor → Json
unfolding radio_row
radio_table desc = table (map radio_row desc.radios)

stats_row : Radio → List (Text × Json)
stats_row r =
    (codes "name", str r.name)
    ∷ (codes "channel", num r.channel)
    ∷ (codes "tx_power", num r.max_tx_power)
    ∷ (codes "cu_self_tx", num (pos 0))
    ∷ (codes "cu_self_rx", num (pos 0))
    ∷ (codes "cu_total", num (pos 0))
    ∷ (codes "num_sta", num (pos 0))
    ∷ (codes "noise", num (negsuc 94))
    ∷ []

unfoldable pub radio_table_stats : Descriptor → Json
unfolding stats_row
radio_table_stats desc = table (map stats_row desc.radios)

-- `bssid[0] |= 0x02; bssid[4] += byte(idx)`, on a six-byte array.
unfoldable pub bssid : Bytes → ℕ → Bytes
bssid (b0 ∷ b1 ∷ b2 ∷ b3 ∷ b4 ∷ b5 ∷ []) idx =
    bit_or b0 0x02 ∷ b1 ∷ b2 ∷ b3 ∷ (b4 + idx % 256) % 256 ∷ b5 ∷ []
bssid mac idx = mac

-- The decimal digits of a number, lowest first, `fuel` of them at most.
unfoldable pub decimal_digits : ℕ → ℕ → Text → Text
decimal_digits zero n tail = tail
decimal_digits (suc fuel) n tail =
    let more = decimal_digits fuel (n / 10) ((b'0' + n % 10) ∷ tail) in
    if ltb n 10 then (b'0' + n) ∷ tail else more

-- `%d` of a number that is not negative; a number has no more digits than its value plus one.
unfoldable pub decimal_text : ℕ → Text
unfolding decimal_digits
decimal_text n = decimal_digits (n + 1) n []

-- One access point of the table: its name and BSSID carry the running index.
pub record Vap : Type 0 where
  pub ssid : Text
  pub address : Bytes
  pub index : ℕ
  pub radio : Radio

-- The inner loop, over the SSIDs, with `idx` counting on.
vaps_of_radio : Bytes → Radio → List Text → ℕ → List Vap
vaps_of_radio mac r [] idx = []
vaps_of_radio mac r (ssid ∷ ssids) idx =
    record { ssid = ssid; address = bssid mac idx; index = idx; radio = r }
    ∷ vaps_of_radio mac r ssids (idx + 1)

-- The outer loop, over the radios.
vaps_from : Bytes → List Radio → List Text → ℕ → List Vap
vaps_from mac [] ssids idx = []
vaps_from mac (r ∷ rs) ssids idx =
    vaps_of_radio mac r ssids idx ++ vaps_from mac rs ssids (idx + length ssids)

unfoldable pub vaps : Descriptor → List Vap
unfolding bssid vaps_of_radio vaps_from
vaps desc = vaps_from (mac_header desc.mac) desc.radios desc.ssids 0

vap_row : Vap → List (Text × Json)
vap_row v =
    (codes "essid", str v.ssid)
    ∷ (codes "bssid", str (mac_string v.address))
    ∷ (codes "name", str (codes "wlan" ++ decimal_text v.index))
    ∷ (codes "radio", str v.radio.radio)
    ∷ (codes "up", bool true)
    ∷ (codes "channel", num v.radio.channel)
    ∷ (codes "tx_power", num v.radio.max_tx_power)
    ∷ (codes "num_sta", num (pos 0))
    ∷ (codes "usage", str (codes "user"))
    ∷ (codes "id", str (codes "user"))
    ∷ (codes "ccq", num (pos 0))
    ∷ (codes "rx_bytes", num (pos 0))
    ∷ (codes "tx_bytes", num (pos 0))
    ∷ (codes "rx_packets", num (pos 0))
    ∷ (codes "tx_packets", num (pos 0))
    ∷ (codes "sta_table", arr nil)
    ∷ []

unfoldable pub vap_table : Descriptor → Json
unfolding vaps vap_row
vap_table desc = table (map vap_row (vaps desc))
