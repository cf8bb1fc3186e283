-- ===== src/Inform/Packet.antt =====
-- inform/packet.go: the TNBU packet. The random IV is an argument, a Go int has 64 bits.
pub mod Padding
pub mod RoundTrip
mod Tests
use unifi_emu.Common.{
  ℕ, zero, suc, ◌+◌, ◌-◌, ◌/◌, ◌%◌, ◌^◌, ◌≡◌, Bool, true, false, ◌&&◌, List, [], ◌∷◌, ◌++◌, Option,
  none, some, Bytes, Text, codes, length, take, drop, ltb, ◌==◌, if◌then◌else◌, Result, ok, err,
  ◌>>=◌, ◌>>◌, fail_if, text_eq,
}
use unifi_emu.Common.Endian.{u32, put_uint16, put_uint32, uint16, uint32}
use unifi_emu.Inform.Crypto.{
  Ciphers, Error, too_short, bad_magic, bad_length, snappy_failed, zlib_failed, parse_key,
  encrypt_cbc, decrypt_cbc, encrypt_gcm, decrypt_gcm,
}

-- The bits of the flags field.
abbrev pub flag_encrypted : ℕ
flag_encrypted = 1

abbrev pub flag_zlib : ℕ
flag_zlib = 2

abbrev pub flag_snappy : ℕ
flag_snappy = 4

abbrev pub flag_gcm : ℕ
flag_gcm = 8

abbrev pub header_len : ℕ
header_len = 40

pub record Packet : Type 0 where
  pub mac : Bytes
  pub payload : Bytes

-- `flags & flag != 0`, for a flag of one bit.
abbrev pub has : ℕ → ℕ → Bool
has flags flag = flags / flag % 2 == 1

-- Magic, packet version 1, MAC, flags, IV, payload version 1 and the body's length.
unfoldable pub header : Bytes → ℕ → Bytes → ℕ → Bytes
header mac flags iv n =
    codes "TNBU"
    ++ (put_uint32 1 ++ (mac ++ (put_uint16 flags ++ (iv ++ (put_uint32 1 ++ put_uint32 (u32 n))))))

-- `data[i:i+n]`.
abbrev pub slice : ℕ → ℕ → Bytes → Bytes
slice i n bytes = take n (drop i bytes)

abbrev pub or_fail : Error → Option Bytes → Result Error Bytes
or_fail e none = err e
or_fail e (some b) = ok b

module _ (c : Ciphers) where
  unfoldable pub encode : Packet → Text → Bytes → Result Error Bytes
  encode p hex_key iv = do
    key ← parse_key hex_key
    body ← encrypt_cbc c key iv (c.deflate p.payload)
    ok (header p.mac (flag_encrypted + flag_zlib) iv (length body) ++ body)

  unfoldable pub encode_gcm : Packet → Text → Bytes → Result Error Bytes
  encode_gcm p hex_key iv = do
    key ← parse_key hex_key
    let plain = c.deflate p.payload
    let head = header p.mac (flag_encrypted + flag_zlib + flag_gcm) iv (length plain + 16)
    body ← encrypt_gcm c key iv head plain
    ok (head ++ body)

  -- The first `switch`: the plain text of the body.
  unfoldable pub open_body : ℕ → Bytes → Bytes → Bytes → Bytes → Result Error Bytes
  open_body flags key iv aad body =
      if has flags flag_encrypted
      then (if has flags flag_gcm then decrypt_gcm c key iv aad body else decrypt_cbc c key iv body)
      else ok body

  -- The second `switch`: snappy before zlib.
  unfoldable pub decompress : ℕ → Bytes → Result Error Bytes
  decompress flags plain =
      if has flags flag_snappy
      then or_fail snappy_failed (c.unsnap plain)
      else if has flags flag_zlib
      then or_fail zlib_failed (c.inflate plain)
      else ok plain

  unfoldable pub decode : Bytes → Text → Result Error Packet
  decode bytes hex_key = do
    fail_if (ltb (length bytes) header_len) too_short
    fail_if (if text_eq (take 4 bytes) (codes "TNBU") then false else true) bad_magic
    key ← parse_key hex_key
    let flags = uint16 (slice 14 2 bytes)
    let n = uint32 (slice 36 4 bytes)
    fail_if (ltb (length bytes - header_len) n) bad_length
    plain ←
        open_body flags key (slice 16 16 bytes) (take header_len bytes) (slice header_len n bytes)
    payload ← decompress flags plain
    ok (record { mac = slice 8 6 bytes; payload = payload })
