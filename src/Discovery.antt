-- ===== src/Discovery.antt =====
-- discovery/packet.go: the UDP discovery packet, `Marshal` and `Parse`.
-- A MAC or a netmask that may be nil is an Option. An IP is its byte slice, empty for nil.
pub mod Shape
pub mod Loop
pub mod Fold
pub mod RoundTrip
mod Tests
use unifi_emu.Common.{
  ℕ, zero, suc, ◌+◌, ◌-◌, ◌≡◌, refl, Bool, true, false, ◌&&◌, List, [], ◌∷◌, ◌++◌, Option, none,
  some, Bytes, length, take, drop, ltb, ◌==◌, if◌then◌else◌, Result, ok, err, ◌>>=◌, ◌>>◌, fail_if,
  text_eq,
}
use unifi_emu.Common.Endian.{u16, put_uint16, put_uint32, uint16, uint32}

abbrev pub v2 : ℕ
v2 = 2

pub record Address : Type 0 where
  pub mac : Bytes
  pub ip : Bytes

pub record Announcement : Type 0 where
  pub version : ℕ
  pub command : ℕ
  pub mac : Option Bytes
  pub addresses : List Address
  pub firmware : Bytes
  pub uptime : ℕ
  pub hostname : Bytes
  pub platform : Bytes
  pub essid : Bytes
  pub wmode : ℕ
  pub seq : ℕ
  pub source_mac : Option Bytes
  pub model : Bytes
  pub netmask : Option Bytes

-- The error returns of both functions. `out_of_fuel` is no Go value: the loop of `parse` is cut.
pub data Error : Type 0 where
  version_required bad_mac bad_address_mac bad_address_ip bad_source_mac bad_netmask : Error
  body_too_long packet_too_short body_exceeds_packet truncated_header overrun out_of_fuel : Error

-- The TLV type codes.
abbrev pub tlv_mac : ℕ
tlv_mac = 0x01

abbrev pub tlv_macip : ℕ
tlv_macip = 0x02

abbrev pub tlv_firmware : ℕ
tlv_firmware = 0x03

abbrev pub tlv_uptime : ℕ
tlv_uptime = 0x0a

abbrev pub tlv_hostname : ℕ
tlv_hostname = 0x0b

abbrev pub tlv_platform : ℕ
tlv_platform = 0x0c

abbrev pub tlv_essid : ℕ
tlv_essid = 0x0d

abbrev pub tlv_wmode : ℕ
tlv_wmode = 0x0e

abbrev pub tlv_seq : ℕ
tlv_seq = 0x12

abbrev pub tlv_src_mac : ℕ
tlv_src_mac = 0x13

abbrev pub tlv_model : ℕ
tlv_model = 0x15

abbrev pub tlv_netmask : ℕ
tlv_netmask = 0x35

-- net.IP.To4: a 4-byte slice, or the tail of a 16-byte one that maps an IPv4 address.
abbrev pub v4_in_v6_prefix : Bytes
v4_in_v6_prefix = 0 ∷ 0 ∷ 0 ∷ 0 ∷ 0 ∷ 0 ∷ 0 ∷ 0 ∷ 0 ∷ 0 ∷ 0xff ∷ 0xff ∷ []

pub to4 : Bytes → Option Bytes
to4 ip =
    if length ip == 4
    then some ip
    else if length ip == 16 && text_eq (take 12 ip) v4_in_v6_prefix
    then some (drop 12 ip)
    else none

pub put_tlv : Bytes → ℕ → Bytes → Bytes
put_tlv buf typ val = buf ++ (typ ∷ put_uint16 (u16 (length val))) ++ val

pub put_u32 : Bytes → ℕ → ℕ → Bytes
put_u32 buf typ v = put_tlv buf typ (put_uint32 v)

-- `if s != "" { body = putTLV(body, typ, []byte(s)) }`.
pub put_text : Bytes → ℕ → Bytes → Bytes
put_text buf typ [] = buf
put_text buf typ (c ∷ s) = put_tlv buf typ (c ∷ s)

-- `if v != 0 { body = putU32(body, typ, v) }`.
pub put_number : Bytes → ℕ → ℕ → Bytes
put_number buf typ zero = buf
put_number buf typ (suc v) = put_u32 buf typ (suc v)

-- `if m != nil { if len(m) != 6 { return err }; body = putTLV(body, typ, m) }`.
pub put_mac : Bytes → ℕ → Error → Option Bytes → Result Error Bytes
put_mac buf typ e none = ok buf
put_mac buf typ e (some m) = if length m == 6 then ok (put_tlv buf typ m) else err e

put_address : Bytes → Bytes → Option Bytes → Result Error Bytes
put_address buf m none = err bad_address_ip
put_address buf m (some ip) = ok (put_tlv buf tlv_macip (m ++ ip))

-- The loop over `a.Addresses`.
pub put_addresses : Bytes → List Address → Result Error Bytes
put_addresses buf [] = ok buf
put_addresses buf (ad ∷ rest) = do
  fail_if (if length ad.mac == 6 then false else true) bad_address_mac
  buf' ← put_address buf ad.mac (to4 ad.ip)
  put_addresses buf' rest

-- The part under `if a.Version == V2`.
pub put_v2 : Bytes → Announcement → Result Error Bytes
put_v2 buf a =
    if a.version == v2
    then (do
      b ← put_mac (put_number buf tlv_seq a.seq) tlv_src_mac bad_source_mac a.source_mac
      ok (put_text b tlv_model a.model))
    else ok buf

put_mask : Bytes → Option Bytes → Result Error Bytes
put_mask buf none = err bad_netmask
put_mask buf (some ip) = ok (put_tlv buf tlv_netmask ip)

pub put_netmask : Bytes → Option Bytes → Result Error Bytes
put_netmask buf none = ok buf
put_netmask buf (some m) = put_mask buf (to4 m)

-- The fields that every version emits, up to the platform's ESSID and Wmode.
pub put_common : Bytes → Announcement → Bytes
put_common body a =
    let b1 = put_text body tlv_firmware a.firmware in
    let b2 = put_number b1 tlv_uptime a.uptime in
    let b3 = put_text b2 tlv_hostname a.hostname in
    let b4 = put_text b3 tlv_platform a.platform in
    put_number (put_text b4 tlv_essid a.essid) tlv_wmode a.wmode

pub marshal_body : Announcement → Result Error Bytes
marshal_body a = do
  fail_if (a.version == 0) version_required
  b0 ← put_mac [] tlv_mac bad_mac a.mac
  b1 ← put_addresses b0 a.addresses
  b2 ← put_v2 (put_common b1 a) a
  put_netmask b2 a.netmask

pub marshal : Announcement → Result Error Bytes
marshal a = do
  body ← marshal_body a
  fail_if (ltb 0xffff (length body)) body_too_long
  ok (a.version ∷ a.command ∷ put_uint16 (u16 (length body)) ++ body)

-- One recognised or unknown TLV: the `switch typ` of `Parse`.
pub apply_tlv : Announcement → ℕ → Bytes → Announcement
apply_tlv a typ v =
    if typ == tlv_mac
    then (if n == 6 then record a { mac = some v } else a)
    else if typ == tlv_macip
    then (if n == 10
        then record a { addresses = a.addresses ++ (record { mac = take 6 v; ip = drop 6 v } ∷ []) }
        else a)
    else if typ == tlv_firmware
    then record a { firmware = v }
    else if typ == tlv_uptime
    then (if n == 4 then record a { uptime = uint32 v } else a)
    else if typ == tlv_hostname
    then record a { hostname = v }
    else if typ == tlv_platform
    then record a { platform = v }
    else if typ == tlv_essid
    then record a { essid = v }
    else if typ == tlv_wmode
    then (if n == 4 then record a { wmode = uint32 v } else a)
    else if typ == tlv_seq
    then (if n == 4 then record a { seq = uint32 v } else a)
    else if typ == tlv_src_mac
    then (if n == 6 then record a { source_mac = some v } else a)
    else if typ == tlv_model
    then record a { model = v }
    else if typ == tlv_netmask
    then (if n == 4 then record a { netmask = some v } else a)
    else a
  where
    n : ℕ
    n = length v

-- The loop `for len(b) > 0`; each round drops the three header bytes at least.
pub parse_loop : ℕ → Bytes → Announcement → Result Error Announcement
parse_loop fuel [] a = ok a
parse_loop zero (typ ∷ b) a = err out_of_fuel
parse_loop (suc fuel) (typ ∷ []) a = err truncated_header
parse_loop (suc fuel) (typ ∷ hi ∷ []) a = err truncated_header
parse_loop (suc fuel) (typ ∷ hi ∷ lo ∷ rest) a =
    let n = uint16 (hi ∷ lo ∷ []) in
    let more = parse_loop fuel (drop n rest) (apply_tlv a typ (take n rest)) in
    if ltb (length rest) n then err overrun else more

abbrev pub blank : ℕ → ℕ → Announcement
blank version command = record {
  version = version;
  command = command;
  mac = none;
  addresses = [];
  firmware = [];
  uptime = 0;
  hostname = [];
  platform = [];
  essid = [];
  wmode = 0;
  seq = 0;
  source_mac = none;
  model = [];
  netmask = none;
}

-- `pkt` with its first four bytes taken off is `body`; the loop sees the announced part of it.
pub parse : Bytes → Result Error Announcement
parse (version ∷ command ∷ hi ∷ lo ∷ body) =
    let n = uint16 (hi ∷ lo ∷ []) in
    if ltb (length body) n
    then err body_exceeds_packet
    else parse_loop (length body) (take n body) (blank version command)
parse _ = err packet_too_short
