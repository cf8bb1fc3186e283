-- ===== src/Inform/Packet/Tests.antt =====
-- A packet in both modes.
use unifi_emu.Common.{◌≡◌, refl, [], ◌∷◌, ◌++◌, Bytes, codes, ok, arith, replicate}
use unifi_emu.Common.Mac.{hex_digit}
use unifi_emu.Inform.Crypto.{pad, unpad, parse_key, decode_hex, check_key, encrypt_cbc, encrypt_gcm}
use unifi_emu.Inform.Packet.{Packet, header, encode, encode_gcm, decode}
use unifi_emu.Inform.Packet.Padding.{unpad-pad}
use unifi_emu.Inform.Packet.RoundTrip.{decode-encode, decode-encode_gcm}
use unifi_emu.Inform.Samples.{own_key, plain_ciphers, plain_ciphers-IsInverse}

unpad-pad_example : unpad (pad (codes "reply")) ≡ ok (codes "reply")
unpad-pad_example = unpad-pad (codes "reply")

abbrev packet : Packet
packet = record { mac = 2 ∷ 0 ∷ 0 ∷ 0 ∷ 0 ∷ 7 ∷ []; payload = codes "{}" }

abbrev iv : Bytes
iv = replicate 16 5

abbrev cbc_packet : Bytes
cbc_packet =
    codes "TNBU"
    ++ (0 ∷ 0 ∷ 0 ∷ 1 ∷ 2 ∷ 0 ∷ 0 ∷ 0 ∷ 0 ∷ 7 ∷ 0 ∷ 3 ∷ [])
    ++ iv
    ++ (0 ∷ 0 ∷ 0 ∷ 1 ∷ 0 ∷ 0 ∷ 0 ∷ 16 ∷ [])
    ++ codes "{}"
    ++ replicate 14 14

cbc_written : encode plain_ciphers packet own_key iv ≡ ok cbc_packet
unfolding encode encrypt_cbc check_key parse_key decode_hex pad header hex_digit
cbc_written = refl

decode-encode_example : decode plain_ciphers cbc_packet own_key ≡ ok packet
decode-encode_example =
    decode-encode plain_ciphers packet own_key iv cbc_packet plain_ciphers-IsInverse refl refl
      (omega arith) cbc_written

abbrev gcm_packet : Bytes
gcm_packet =
    codes "TNBU"
    ++ (0 ∷ 0 ∷ 0 ∷ 1 ∷ 2 ∷ 0 ∷ 0 ∷ 0 ∷ 0 ∷ 7 ∷ 0 ∷ 11 ∷ [])
    ++ iv
    ++ (0 ∷ 0 ∷ 0 ∷ 1 ∷ 0 ∷ 0 ∷ 0 ∷ 18 ∷ [])
    ++ codes "{}"
    ++ replicate 16 0

gcm_written : encode_gcm plain_ciphers packet own_key iv ≡ ok gcm_packet
unfolding encode_gcm encrypt_gcm check_key parse_key decode_hex header hex_digit
gcm_written = refl

decode-encode_gcm_example : decode plain_ciphers gcm_packet own_key ≡ ok packet
decode-encode_gcm_example =
    decode-encode_gcm plain_ciphers packet own_key iv gcm_packet plain_ciphers-IsInverse refl refl
      (omega arith) gcm_written
