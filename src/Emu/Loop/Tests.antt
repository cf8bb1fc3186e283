-- ===== src/Emu/Loop/Tests.antt =====
-- One device and its controller, from PENDING to CONNECTED.
use unifi_emu.Common.{◌≡◌, refl, List, [], ◌∷◌, ◌++◌, Text, Bytes, codes, ok, replicate, text_eq}
use unifi_emu.Common.Int.{pos}
use unifi_emu.Common.Mac.{hex_digit, parse_mac}
use unifi_emu.Inform.Session.{new_session}
use unifi_emu.Inform.Tables.{mac_header}
use unifi_emu.Inform.Crypto.{
  pad, unpad, parse_key, decode_hex, check_key, encrypt_cbc, decrypt_cbc, all_equal,
}
use unifi_emu.Inform.Packet.{Packet, header, encode, decode, open_body, decompress}
use unifi_emu.Inform.Payload.{encode_inform}
use unifi_emu.Inform.Samples.{
  adopted_session, sample_decoder, plain_ciphers, sample_marshal, own_key, own_key-ne-default_key,
  noop_response,
}
use unifi_emu.Emu.Samples.{sample_spec, sample_registry, fresh_device, fresh_device_lem}
use unifi_emu.Emu.Device.{Device, adopting, connected}
use unifi_emu.Emu.Device.Laws.{IsCoherent}
use unifi_emu.Emu.Loop.{World, Exchange, answered, inform_once}
use unifi_emu.Emu.Loop.Handshake.{adopting_completes}
use unifi_emu.Emu.Loop.Runs.{Round, run, new_device-run-IsCoherent, connected_after_adopting}

abbrev world : World
world = record { ciphers = plain_ciphers; decoder = sample_decoder; marshal = sample_marshal }

abbrev adopting_device : Device
adopting_device = record {
  spec = sample_spec;
  session = adopted_session;
  state = adopting;
  interval = pos 10_000_000_000;
  last_status = 0;
  status_run = 0;
  last_status_log = 0;
  last_mgmt = [];
}

adopting_device-IsCoherent : IsCoherent adopting_device
adopting_device-IsCoherent = record { pending_unadopted = λ e. cc; unadopted_pending = λ e. cc }

abbrev iv : Bytes
iv = replicate 16 5

abbrev head : Bytes
head =
    codes "TNBU"
    ++ (0 ∷ 0 ∷ 0 ∷ 1 ∷ 2 ∷ 0 ∷ 0 ∷ 0 ∷ 0 ∷ 7 ∷ 0 ∷ 3 ∷ [])
    ++ iv
    ++ (0 ∷ 0 ∷ 0 ∷ 1 ∷ 0 ∷ 0 ∷ 0 ∷ 16 ∷ [])

abbrev request : Bytes
request = head ++ codes "{}" ++ replicate 14 14

abbrev reply_tail : Bytes
reply_tail =
    codes "NBU"
    ++ (0 ∷ 0 ∷ 0 ∷ 1 ∷ 2 ∷ 0 ∷ 0 ∷ 0 ∷ 0 ∷ 7 ∷ 0 ∷ 3 ∷ [])
    ++ iv
    ++ (0 ∷ 0 ∷ 0 ∷ 1 ∷ 0 ∷ 0 ∷ 0 ∷ 16 ∷ [])
    ++ (1 ∷ replicate 15 15)

-- The controller answers every request with the same packet, whose payload is a noop.
abbrev network : Text → Bytes → Exchange
network url enc = answered 200 (b'T' ∷ reply_tail)

request_written : encode_inform plain_ciphers sample_marshal adopted_session 9 iv ≡ ok request
unfolding encode_inform encode encrypt_cbc check_key parse_key decode_hex pad header hex_digit
    new_session mac_header parse_mac
request_written = refl

abbrev reply : Packet
reply = record { mac = 2 ∷ 0 ∷ 0 ∷ 0 ∷ 0 ∷ 7 ∷ []; payload = 1 ∷ [] }

reply_read : decode plain_ciphers (b'T' ∷ reply_tail) own_key ≡ ok reply
unfolding decode decrypt_cbc check_key parse_key decode_hex unpad all_equal hex_digit open_body
    decompress text_eq
reply_read = refl

connects : (inform_once world adopting_device 9 iv network).0.state ≡ connected
connects =
    adopting_completes world adopting_device 9 iv network request b'T' reply_tail reply
      noop_response adopting_device-IsCoherent refl own_key-ne-default_key request_written refl
      reply_read refl (λ e. cc)

adopting_completes_example : (inform_once world adopting_device 9 iv network).0.state ≡ connected
adopting_completes_example =
    adopting_completes world adopting_device 9 iv network request b'T' reply_tail reply
      noop_response adopting_device-IsCoherent refl own_key-ne-default_key request_written refl
      reply_read refl (λ e. cc)

connected_after_adopting_example :
    (before : List Round) × (after : List Round) × (before ++ after
      ≡ record { now = 9; iv = iv; network = network } ∷ [])
    × ((run world adopting_device before).state ≡ adopting)
unfolding run
connected_after_adopting_example =
    connected_after_adopting world adopting_device
      (record { now = 9; iv = iv; network = network } ∷ []) (λ e. cc) connects

new_device-run-IsCoherent_example :
    IsCoherent (run world fresh_device (record { now = 9; iv = iv; network = network } ∷ []))
new_device-run-IsCoherent_example =
    new_device-run-IsCoherent sample_registry sample_spec (codes "http://10.0.0.1:8080/inform") 0
      fresh_device world (record { now = 9; iv = iv; network = network } ∷ []) fresh_device_lem
