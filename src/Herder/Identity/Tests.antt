-- ===== src/Herder/Identity/Tests.antt =====
-- Names and addresses of two devices.
use unifi_emu.Common.{
  ℕ, ◌/◌, ◌%◌, ◌≡◌, refl, ◌∷◌, Bytes, some, length, codes, ok, ◌≢◌, text_eq, unequal,
}
use unifi_emu.Common.Mac.{parse_mac, mac_string, hex_digit}
use unifi_emu.Herder.Identity.{check_name, derived_name, canonical_mac, is_alnum}
use unifi_emu.Herder.Identity.Names.{check_name-derived_name, derived_name-ne}
use unifi_emu.Herder.Identity.Addresses.{canonical_mac_stable}

check_name-derived_name_example :
    check_name (derived_name (codes "USW Pro 48 (PoE)!") (codes "02000000000a")) ≡ ok tt
unfolding is_alnum
check_name-derived_name_example =
    check_name-derived_name (codes "USW Pro 48 (PoE)!") (codes "02000000000a") refl (
      refl,
      (refl, (refl, (refl, (refl, (refl, (refl, (refl, (refl, (refl, (refl, (refl, tt))))))))))),
    )

digits-ne : codes "02000000000a" ≢ codes "02000000000b"
unfolding text_eq
digits-ne = unequal (codes "02000000000a") (codes "02000000000b") refl

derived_name-ne_example :
    derived_name (codes "US-8") (codes "02000000000a")
    ≢ derived_name (codes "us.8") (codes "02000000000b")
derived_name-ne_example =
    derived_name-ne (codes "US-8") (codes "us.8") (codes "02000000000a") (codes "02000000000b") refl
      digits-ne

canonical_mac_stable_example :
    (canonical_mac (codes "02:00:00:00:00:0a") ≡ ok (codes "02:00:00:00:00:0a"))
    × ((b : ℕ) × (rest : Bytes) × (parse_mac (codes "02:00:00:00:00:0a") ≡ some (b ∷ rest))
        × (length rest ≡ 5)
        × (b % 2 ≡ 0)
        × (b / 2 % 2 ≡ 1))
unfolding canonical_mac parse_mac mac_string hex_digit
canonical_mac_stable_example =
    canonical_mac_stable (codes "02-00-00-00-00-0A") (codes "02:00:00:00:00:0a") refl
