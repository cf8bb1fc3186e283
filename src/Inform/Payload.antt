-- ===== src/Inform/Payload.antt =====
-- inform/session.go: `BuildPayload` and `EncodeInform`. The map is an association list, and its
-- marshalling to JSON a parameter. A time is in nanoseconds.
pub mod Laws
mod Tests
use unifi_emu.Common.{
  ℕ, ◌-◌, ◌/◌, ◌≡◌, Bool, true, false, not, ◌||◌, List, [], ◌∷◌, Option, none, some, Text, Bytes,
  codes, text_eq, if◌then◌else◌, Result,
}
use unifi_emu.Common.Int.{pos, nanoseconds}
use unifi_emu.Common.Assoc.{insert}
use unifi_emu.Inform.Json.{Json, str, num, decimal, bool, raw, object}
use unifi_emu.Inform.Descriptor.{Descriptor}
use unifi_emu.Inform.Tables.{
  port_table, ethernet_table, radio_table, radio_table_stats, vap_table, decimal_text,
}
use unifi_emu.Inform.Session.{Session, is_empty}
use unifi_emu.Inform.Crypto.{Ciphers, Error}
use unifi_emu.Inform.Packet.{Packet, encode, encode_gcm}

abbrev pub Payload : Type 0
Payload = List (Text × Json)

-- The whole seconds since the boot, for a clock that does not go back.
unfoldable pub uptime_of : Session → ℕ → ℕ
uptime_of s now = (now - s.boot_time) / nanoseconds

-- The keys of every payload.
unfoldable pub base_payload : Session → ℕ → Payload
base_payload s now =
    (codes "mac", str s.desc.mac)
    ∷ (codes "serial", str s.desc.serial)
    ∷ (codes "model", str s.desc.model)
    ∷ (codes "model_display", str s.desc.model_display)
    ∷ (codes "version", str s.desc.version)
    ∷ (codes "ip", str s.desc.ip)
    ∷ (codes "hostname", str s.desc.hostname)
    ∷ (codes "inform_url", str s.inform_url)
    ∷ (codes "uptime", num (pos (uptime_of s now)))
    ∷ (codes "time", num (pos (now / nanoseconds)))
    ∷ (codes "cfgversion", str s.cfgversion)
    ∷ (codes "x_authkey", str s.key)
    ∷ (codes "default", bool (not s.adopted))
    ∷ (codes "_default_key", bool (not s.adopted))
    ∷ (codes "state", num (pos 1))
    ∷ (codes "fw_caps", num s.desc.fw_caps)
    ∷ (codes "isolated", bool false)
    ∷ (codes "locating", bool false)
    ∷ (codes "selfrun_beacon", bool true)
    ∷ []

unfoldable pub udapi_part : Descriptor → Payload → Payload
udapi_part desc m =
    if is_empty desc.udapi_version
    then m
    else insert (codes "udapi_caps") (num desc.udapi_caps)
        (insert (codes "udapi_version") (object ((codes "version", str desc.udapi_version) ∷ [])) m)

unfoldable pub gateway_part : Descriptor → ℕ → Payload → Payload
gateway_part desc uptime m =
    insert (codes "uplink")
      (object (
        (codes "name", str (codes "eth0"))
        ∷ (codes "num_port", num (pos 1))
        ∷ (codes "ip", str desc.ip)
        ∷ (codes "mac", str desc.mac)
        ∷ (codes "type", str (codes "wire"))
        ∷ (codes "up", bool true)
        ∷ (codes "speed", num (pos 1000))
        ∷ (codes "max_speed", num (pos 1000))
        ∷ (codes "full_duplex", bool true)
        ∷ (codes "rx_bytes", num (pos 0))
        ∷ (codes "tx_bytes", num (pos 0))
        ∷ []))
      (insert (codes "netmask") (str (codes "255.255.255.0")) (
        insert (codes "config_network_wan") (object ((codes "type", str (codes "dhcp")) ∷ [])) (
          insert (codes "system-stats")
            (object (
              (codes "cpu", str (codes "1.5"))
              ∷ (codes "mem", str (codes "50.0"))
              ∷ (codes "uptime", str (decimal_text uptime))
              ∷ []))
            m)))

unfoldable pub switch_part : Descriptor → Payload → Payload
switch_part desc m =
    insert (codes "ethernet_table") (ethernet_table desc)
      (insert (codes "port_table") (port_table desc) m)

unfoldable pub access_point_part : Descriptor → Payload → Payload
access_point_part desc m = insert (codes "port_table") (port_table desc) (
    insert (codes "ethernet_table") (ethernet_table desc) (
      insert (codes "vap_table") (vap_table desc) (
        insert (codes "radio_table_stats") (radio_table_stats desc)
          (insert (codes "radio_table") (radio_table desc) m))))

-- The `switch s.desc.Type`.
unfoldable pub type_part : Descriptor → ℕ → Payload → Payload
type_part desc uptime m =
    if text_eq desc.type (codes "ugw") || text_eq desc.type (codes "uxg")
    then gateway_part desc uptime m
    else if text_eq desc.type (codes "usw")
    then switch_part desc m
    else if text_eq desc.type (codes "uap")
    then access_point_part desc m
    else m

unfoldable pub adopted_part : Session → ℕ → Payload → Payload
adopted_part s uptime m =
    if s.adopted
    then type_part s.desc uptime (
        insert (codes "sys_stats")
          (object (
            (codes "cpu", decimal (codes "1.5"))
            ∷ (codes "mem_total", num (pos 134217728))
            ∷ (codes "mem_used", num (pos 67108864))
            ∷ (codes "mem_buffer", num (pos 16777216))
            ∷ []))
          (insert (codes "bootrom_version") (str (codes "unknown"))
            (insert (codes "state") (num (pos 4)) m)))
    else m

-- `for k, v := range s.setstate { m[k] = v }`; the keys of a map differ, so their order is free.
unfoldable pub overlay : List (Text × Bytes) → Payload → Payload
overlay [] m = m
overlay ((k, v) ∷ rest) m = insert k (raw v) (overlay rest m)

unfoldable pub build_payload : Session → ℕ → Payload
unfolding overlay
build_payload s now =
    overlay s.setstate (adopted_part s (uptime_of s now) (udapi_part s.desc (base_payload s now)))

-- The inform packet in the negotiated mode.
unfoldable pub encode_inform :
    Ciphers → (Payload → Bytes) → Session → ℕ → Bytes → Result Error Bytes
encode_inform c marshal s now iv =
    let pkt : Packet = record { mac = s.mac_header; payload = marshal (build_payload s now) } in
    if s.use_aes_gcm then encode_gcm c pkt s.key iv else encode c pkt s.key iv
