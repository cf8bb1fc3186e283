-- ===== src/Discovery/RoundTrip.antt =====
-- `parse` after `marshal`, and when `marshal` succeeds.
use unifi_emu.Common.{
  ℕ, ◌≤◌, ◌≡◌, refl, ap, ◌∙◌, ◌∷◌, ◌++◌, Bytes, length, ltb, ok, arith, Bool-cases, inl, inr,
  ltb-false, take_exact, length-append, >>=-eq-ok, ◌↔◌,
}
use unifi_emu.Common.Endian.{u16, put_uint16, uint16}
use unifi_emu.Discovery.{Announcement, marshal_body, marshal, parse, blank}
use unifi_emu.Discovery.Shape.{encode, fields, IsValid, marshal_body_lem, marshal_body-IsValid}
use unifi_emu.Discovery.Loop.{apply_all, parse_loop-encode}
use unifi_emu.Discovery.Fold.{normalize, HasU32s, apply_all-fields}

abbrev packet : Announcement → Bytes
packet a = a.version ∷ a.command ∷ put_uint16 (length (encode (fields a))) ++ encode (fields a)

u16_small : (n : ℕ) → n ≤ 0xffff → u16 n ≡ n
u16_small n h = omega arith

marshal_packet :
    (a : Announcement) → IsValid a → length (encode (fields a)) ≤ 0xffff → marshal a ≡ ok (packet a)
unfolding marshal
marshal_packet a v h =
    rw (marshal_body_lem a v) (
      rw
        (ltb-false 0xffff (length (encode (fields a))) h, u16_small (length (encode (fields a))) h))

marshal_inv :
    (a : Announcement) {out : Bytes}
    → marshal a ≡ ok out
    → IsValid a × (length (encode (fields a)) ≤ 0xffff) × (packet a ≡ out)
unfolding marshal
marshal_inv a h =
    let (b, hb, g) = >>=-eq-ok (marshal_body a) _ h in
    let v = marshal_body-IsValid a hb in
    let e = rw (marshal_body_lem a v) at h in
    elim (Bool-cases (ltb 0xffff (length (encode (fields a))))) [
      | inl big ↦ cc (rw big at e)
      | inr small ↦
          let fits : length (encode (fields a)) ≤ 0xffff = ground arith in
          (v, fits, cc (marshal_packet a v fits))
    ]

-- `marshal` succeeds exactly on the announcements that are valid (a version, six-byte MACs, IPv4
-- addresses and netmask; the source MAC only in version 2) and whose fields fit 65535 bytes. What
-- it writes then is the header with the body's length, and the fields in their order.
pub marshal_iff :
    (a : Announcement) (out : Bytes)
    → (marshal a ≡ ok out) ↔ (
        IsValid a
        × (length (encode (fields a)) ≤ 0xffff)
        × (a.version ∷ a.command ∷ put_uint16 (length (encode (fields a))) ++ encode (fields a)
            ≡ out))
marshal_iff a out = (marshal_inv a, λ h. marshal_packet a h.0 h.1 ∙ ap ok h.2)

parse-packet :
    (a : Announcement) (extra : Bytes)
    → length (encode (fields a)) ≤ 0xffff
    → parse (packet a ++ extra) ≡ ok (apply_all (blank a.version a.command) (fields a))
unfolding parse
parse-packet a extra h =
    let body = encode (fields a) in
    let e : uint16 (put_uint16 (length body)) ≡ length body = omega arith in
    let longer : length body ≤ length (body ++ extra) = omega (arith, length-append body extra) in
    rw e (
      rw
        (
          ltb-false (length (body ++ extra)) (length body) longer,
          take_exact (length body) body extra refl,
        )
        (parse_loop-encode (fields a) (length (body ++ extra)) (blank a.version a.command) longer
          h))

-- Every packet that `marshal` writes is read back by `parse`, whatever bytes follow it: addresses
-- and netmask come back in IPv4 form, and the fields of version 2 only in a version 2 packet.
pub parse-marshal :
    (a : Announcement) (out extra : Bytes)
    → HasU32s a
    → marshal a ≡ ok out
    → parse (out ++ extra) ≡ ok (normalize a)
parse-marshal a out extra w h =
    let (v, fits, e) = marshal_inv a h in
    rw (← e, parse-packet a extra fits) (ap ok (apply_all-fields a v w))
