-- ===== src/Herder/Identity/Addresses.antt =====
-- internal/herder/identity.go: `canonicalMAC` and the reading of what it returns.
use unifi_emu.Common.{
  ℕ, ◌/◌, ◌%◌, ◌≡◌, refl, sym, ap, ◌∙◌, [], ◌∷◌, Option, none, some, Text, Bytes, length, ok,
  >>=-eq-ok, ok-injective, arith,
}
use unifi_emu.Common.Mac.{parse_mac, mac_string, parse_mac-mac_string, parse_mac-All}
use unifi_emu.Herder.Identity.{unicast_local, parsed, canonical_mac}

parsed-ok : (o : Option Bytes) {hw : Bytes} → parsed o ≡ ok hw → (o ≡ some hw) × (length hw ≡ 6)
parsed-ok none h = cc
parsed-ok (some hw) h = ground arith

unicast_local-ok : (hw : Bytes) {b : Bytes} → unicast_local hw ≡ ok b → hw ≡ b
unicast_local-ok [] h = ok-injective h
unicast_local-ok (x ∷ hw) h = ground arith

-- A first byte whose multicast bit is clear and whose local bit is set, by the arithmetic of the two.
first_byte :
    (b : ℕ) (hw kept : Bytes) → unicast_local (b ∷ hw) ≡ ok kept → (b % 2 ≡ 0) × (b / 2 % 2 ≡ 1)
first_byte b hw kept h = ground arith

unicast_local-bits :
    (hw kept : Bytes)
    → length hw ≡ 6
    → unicast_local hw ≡ ok kept
    → (b : ℕ) × (rest : Bytes) × (hw ≡ b ∷ rest) × (length rest ≡ 5) × (b % 2 ≡ 0) × (b / 2 % 2 ≡ 1)
unicast_local-bits [] kept six h = cc
unicast_local-bits (b ∷ hw) kept six h =
    let (unicast, local) = first_byte b hw kept h in (b, hw, refl, omega arith, unicast, local)

-- What `canonicalMAC` returns is a fixed point of it, and reads back as six bytes, the first of which
-- has its lowest bit, the multicast bit, clear and the bit above it, the local bit, set.
pub canonical_mac_stable :
    (s mac : Text)
    → canonical_mac s ≡ ok mac
    → (canonical_mac mac ≡ ok mac)
      × ((b : ℕ) × (rest : Bytes) × (parse_mac mac ≡ some (b ∷ rest))
          × (length rest ≡ 5)
          × (b % 2 ≡ 0)
          × (b / 2 % 2 ≡ 1))
unfolding canonical_mac
canonical_mac_stable s mac h =
    let (hw, h1, g1) = >>=-eq-ok (parsed (parse_mac s)) _ h in
    let (kept, h2, g2) = >>=-eq-ok (unicast_local hw) _ g1 in
    let (read, six) = parsed-ok (parse_mac s) h1 in
    let same = unicast_local-ok hw h2 in
    let e : mac_string hw ≡ mac = ap mac_string same ∙ ok-injective g2 in
    let back : parse_mac mac ≡ some hw =
      ap parse_mac (sym e) ∙ parse_mac-mac_string hw six (parse_mac-All s read) in
    let (b, rest, split, five, unicast, local) = unicast_local-bits hw kept six h2 in
    (
      rw (back, six, h2 ∙ ap ok (sym same)) (ap ok e),
      (b, rest, back ∙ ap some split, five, unicast, local),
    )
