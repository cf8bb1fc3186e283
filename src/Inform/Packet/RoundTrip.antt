-- ===== src/Inform/Packet/RoundTrip.antt =====
-- `decode` after `encode` and `encode_gcm`, for every behaviour of the ciphers that is an inverse.
use mathlib.Core.Path.{subst}
use unifi_emu.Common.{
  ok-injective, ℕ, ◌+◌, ◌-◌, ◌≤◌, ◌<◌, ◌^◌, ◌≡◌, ap, ◌∙◌, ◌++◌, Bytes, Text, codes, length, take,
  drop, ok, arith, length-append, take_exact, drop_exact, append_assoc, drop_more, take_all,
  text_eq_refl, ltb-false, >>=-eq-ok,
}
use unifi_emu.Common.Endian.{u32, put_uint16, put_uint32, uint16, uint32}
use unifi_emu.Inform.Crypto.{
  Ciphers, IsInverse, parse_key, check_key, pad, encrypt_cbc, decrypt_cbc, encrypt_gcm, decrypt_gcm,
}
use unifi_emu.Inform.Packet.{
  Packet, header, slice, encode, encode_gcm, open_body, decompress, decode, flag_encrypted,
  flag_zlib, flag_gcm,
}
use unifi_emu.Inform.Packet.Padding.{unpad-pad, length-pad}

-- The fields of a header at the places where `decode` reads them.
module _ (mac iv body : Bytes) (flags n : ℕ) (six : length mac ≡ 6) (sixteen : length iv ≡ 16) where
  abbrev after_iv : Bytes
  after_iv = put_uint32 1 ++ (put_uint32 (u32 n) ++ body)

  abbrev after_mac : Bytes
  after_mac = put_uint16 flags ++ (iv ++ after_iv)

  abbrev whole : Bytes
  whole = codes "TNBU" ++ (put_uint32 1 ++ (mac ++ after_mac))

  header-append : header mac flags iv n ++ body ≡ whole
  unfolding header
  header-append = simp append_assoc

  length-header : length (header mac flags iv n) ≡ 40
  unfolding header
  length-header = omega (
    arith,
    length-append mac (put_uint16 flags ++ (iv ++ (put_uint32 1 ++ put_uint32 (u32 n)))),
    length-append iv (put_uint32 1 ++ put_uint32 (u32 n)),
  )

  slice_mac : slice 8 6 whole ≡ mac
  slice_mac = take_exact 6 mac after_mac six

  slice_flags : flags < 65536 → uint16 (slice 14 2 whole) ≡ flags
  slice_flags h =
      ap (λ t. uint16 (take 2 t)) (drop_exact 6 mac after_mac six)
      ∙ (let e : uint16 (put_uint16 flags) ≡ flags = omega arith in e)

  slice_iv : slice 16 16 whole ≡ iv
  slice_iv =
      ap (λ t. take 16 t) (drop_more 6 2 mac after_mac six) ∙ take_exact 16 iv after_iv sixteen

  slice_length : n < 2 ^ 32 → uint32 (slice 36 4 whole) ≡ n
  slice_length h =
      ap (λ t. uint32 (take 4 t))
        (drop_more 6 22 mac after_mac six ∙ drop_more 16 4 iv after_iv sixteen)
      ∙ (let e : uint32 (put_uint32 (u32 n)) ≡ n = omega arith in e)

  slice_body : drop 40 (header mac flags iv n ++ body) ≡ body
  slice_body = drop_exact 40 (header mac flags iv n) body length-header

  slice_head : take 40 (header mac flags iv n ++ body) ≡ header mac flags iv n
  slice_head = take_exact 40 (header mac flags iv n) body length-header

-- `decode` of bytes whose fields are known.
decode_fields :
    (c : Ciphers) (bytes : Bytes) (flags n : ℕ) (hex_key : Text) (key plain payload : Bytes)
    → 40 ≤ length bytes
    → take 4 bytes ≡ codes "TNBU"
    → parse_key hex_key ≡ ok key
    → uint16 (slice 14 2 bytes) ≡ flags
    → uint32 (slice 36 4 bytes) ≡ n
    → n ≤ length bytes - 40
    → open_body c flags key (slice 16 16 bytes) (take 40 bytes) (slice 40 n bytes) ≡ ok plain
    → decompress c flags plain ≡ ok payload
    → decode c bytes hex_key ≡ ok (record { mac = slice 8 6 bytes; payload = payload })
unfolding decode
decode_fields c bytes flags n hex_key key plain payload h1 h2 h3 h4 h5 h6 h7 h8 = rw (
  ltb-false (length bytes) 40 h1,
  h2,
  text_eq_refl (codes "TNBU"),
  h3,
  h4,
  h5,
  ltb-false (length bytes - 40) n h6,
  h7,
  h8,
)

-- `decode` of a header and the body it announces.
decode_framed :
    (c : Ciphers) (mac iv body : Bytes) (flags : ℕ) (hex_key : Text) (key plain payload : Bytes)
    → length mac ≡ 6
    → length iv ≡ 16
    → flags < 65536
    → length body < 2 ^ 32
    → parse_key hex_key ≡ ok key
    → open_body c flags key iv (header mac flags iv (length body)) body ≡ ok plain
    → decompress c flags plain ≡ ok payload
    → decode c (header mac flags iv (length body) ++ body) hex_key
      ≡ ok (record { mac = mac; payload = payload })
decode_framed c mac iv body flags hex_key key plain payload six sixteen small fits hk ho hd =
    let n = length body in
    let pkt = header mac flags iv n ++ body in
    let e = header-append mac iv body flags n six sixteen in
    let size : length pkt ≡ 40 + n = omega (
      arith,
      length-append (header mac flags iv n) body,
      length-header mac iv body flags n six sixteen,
    ) in
    let at_mac = ap (slice 8 6) e ∙ slice_mac mac iv body flags n six sixteen in
    let at_iv = ap (slice 16 16) e ∙ slice_iv mac iv body flags n six sixteen in
    let at_body = ap (take n) (slice_body mac iv body flags n six sixteen) ∙ take_all body in
    decode_fields c pkt flags n hex_key key plain payload (omega arith) (ap (take 4) e) hk
      (ap (λ t. uint16 (slice 14 2 t)) e ∙ slice_flags mac iv body flags n six sixteen small)
      (ap (λ t. uint32 (slice 36 4 t)) e ∙ slice_length mac iv body flags n six sixteen fits)
      (omega arith) (rw (at_iv, slice_head mac iv body flags n six sixteen, at_body) ho) hd
    ∙ ap (λ m. ok (record { mac = m; payload = payload })) at_mac

encrypt_cbc_inv :
    (c : Ciphers) (key iv plain : Bytes) {body : Bytes}
    → encrypt_cbc c key iv plain ≡ ok body
    → (check_key key ≡ ok tt) × (c.cbc_encrypt key iv (pad plain) ≡ body)
unfolding encrypt_cbc
encrypt_cbc_inv c key iv plain h = ground arith

encrypt_gcm_inv :
    (c : Ciphers) (key iv aad plain : Bytes) {body : Bytes}
    → encrypt_gcm c key iv aad plain ≡ ok body
    → (check_key key ≡ ok tt) × (c.gcm_seal key iv plain aad ≡ body)
unfolding encrypt_gcm
encrypt_gcm_inv c key iv aad plain h = ground arith

decrypt-encrypt_cbc :
    (c : Ciphers) (key iv plain : Bytes)
    → IsInverse c
    → check_key key ≡ ok tt
    → decrypt_cbc c key iv (c.cbc_encrypt key iv (pad plain)) ≡ ok plain
unfolding decrypt_cbc
decrypt-encrypt_cbc c key iv plain law hk =
    let (whole_blocks, some_block, _) = length-pad plain in
    let size = law.cbc_length key iv (pad plain) whole_blocks in
    rw (hk, size, whole_blocks)
      (rw (law.cbc_inverse key iv (pad plain) whole_blocks, unpad-pad plain) (ground arith))

decompress_zlib :
    (c : Ciphers) (payload : Bytes)
    → IsInverse c
    → decompress c (flag_encrypted + flag_zlib) (c.deflate payload) ≡ ok payload
unfolding decompress
decompress_zlib c payload law = rw (law.inflate-deflate payload)

-- A packet encoded in CBC mode is decoded with the same key to the packet, for every IV of 16 bytes
-- and a compressed payload whose padded length fits the length field.
pub decode-encode :
    (c : Ciphers) (p : Packet) (hex_key : Text) (iv out : Bytes)
    → IsInverse c
    → length p.mac ≡ 6
    → length iv ≡ 16
    → length (c.deflate p.payload) + 16 < 2 ^ 32
    → encode c p hex_key iv ≡ ok out
    → decode c out hex_key ≡ ok p
unfolding encode
decode-encode c p hex_key iv out law six sixteen fits h =
    let plain = c.deflate p.payload in
    let (key, hk, g) = >>=-eq-ok (parse_key hex_key) _ h in
    let (body, hb, e) = >>=-eq-ok (encrypt_cbc c key iv plain) _ g in
    let (good, sealed) = encrypt_cbc_inv c key iv plain hb in
    let (whole_blocks, _, padded) = length-pad plain in
    let size = law.cbc_length key iv (pad plain) whole_blocks in
    let opened : decrypt_cbc c key iv body ≡ ok plain =
      rw (← sealed) (decrypt-encrypt_cbc c key iv plain law good) in
    let inflated : decompress c 3 plain ≡ ok p.payload = decompress_zlib c p.payload law in
    let small : length body < 2 ^ 32 = rw (← sealed) (omega arith) in
    let framed =
      decode_framed c p.mac iv body 3 hex_key key plain p.payload six sixteen (omega arith) small hk
        (unfold open_body in opened) inflated in
    subst (λ t. decode c t hex_key ≡ ok p) (ok-injective e) framed

decrypt-seal :
    (c : Ciphers) (key iv aad plain : Bytes)
    → IsInverse c
    → check_key key ≡ ok tt
    → decrypt_gcm c key iv aad (c.gcm_seal key iv plain aad) ≡ ok plain
unfolding decrypt_gcm
decrypt-seal c key iv aad plain law hk = rw (hk, law.gcm_inverse key iv plain aad)

decompress_gcm :
    (c : Ciphers) (payload : Bytes)
    → IsInverse c
    → decompress c (flag_encrypted + flag_zlib + flag_gcm) (c.deflate payload) ≡ ok payload
unfolding decompress
decompress_gcm c payload law = rw (law.inflate-deflate payload)

-- A packet encoded in GCM mode, which authenticates the header with the body, is decoded with the
-- same key to the packet, for every IV of 16 bytes and a compressed payload that fits the length
-- field with the tag.
pub decode-encode_gcm :
    (c : Ciphers) (p : Packet) (hex_key : Text) (iv out : Bytes)
    → IsInverse c
    → length p.mac ≡ 6
    → length iv ≡ 16
    → length (c.deflate p.payload) + 16 < 2 ^ 32
    → encode_gcm c p hex_key iv ≡ ok out
    → decode c out hex_key ≡ ok p
unfolding encode_gcm
decode-encode_gcm c p hex_key iv out law six sixteen fits h =
    let plain = c.deflate p.payload in
    let head = header p.mac 11 iv (length plain + 16) in
    let (key, hk, g) = >>=-eq-ok (parse_key hex_key) _ h in
    let (body, hb, e) = >>=-eq-ok (encrypt_gcm c key iv head plain) _ g in
    let (good, sealed) = encrypt_gcm_inv c key iv head plain hb in
    let size : length body ≡ length plain + 16 = rw (← sealed) (law.gcm_length key iv plain head) in
    let opened : decrypt_gcm c key iv head body ≡ ok plain =
      rw (← sealed) (decrypt-seal c key iv head plain law good) in
    let framed =
      decode_framed c p.mac iv body 11 hex_key key plain p.payload six sixteen (omega arith)
        (omega arith) hk (rw size (unfold open_body in opened)) (decompress_gcm c p.payload law) in
    subst (λ t. decode c t hex_key ≡ ok p)
      (ap (λ n. header p.mac 11 iv n ++ body) size ∙ ok-injective e) framed
