-- ===== src/Cli/Fleet/Macs.antt =====
-- cmd/unifi-emu/devices.go: the MACs that `nextMAC` gives.
use unifi_emu.Common.{
  ℕ, ◌+◌, ◌/◌, ◌%◌, ◌<◌, ◌≡◌, ◌≢◌, refl, sym, ap, ◌∙◌, Option, some, Bytes, arith, All,
}
use unifi_emu.Common.Endian.{IsByte}
use unifi_emu.Common.Mac.{parse_mac, mac_string, parse_mac-mac_string}
use unifi_emu.Cli.Fleet.{mac_value, mac_bytes, next_mac}

bytes_apart : (v w : ℕ) → mac_bytes v ≡ mac_bytes w → v % 281474976710656 ≡ w % 281474976710656
bytes_apart v w h =
    let same : (v / 1099511627776 % 256 ≡ w / 1099511627776 % 256)
        × (v / 4294967296 % 256 ≡ w / 4294967296 % 256)
        × (v / 16777216 % 256 ≡ w / 16777216 % 256)
        × (v / 65536 % 256 ≡ w / 65536 % 256)
        × (v / 256 % 256 ≡ w / 256 % 256)
        × (v % 256 ≡ w % 256) =
      (cc, cc, cc, cc, cc, cc) in
    omega (arith, same.0, same.1, same.2, same.3, same.4, same.5)

remainder-IsByte : (x : ℕ) → IsByte (x % 256)
remainder-IsByte x = omega arith

mac_bytes-IsByte : (v : ℕ) → All IsByte (mac_bytes v)
mac_bytes-IsByte v = (
  remainder-IsByte (v / 1099511627776),
  (
    remainder-IsByte (v / 4294967296),
    (
      remainder-IsByte (v / 16777216),
      (remainder-IsByte (v / 65536), (remainder-IsByte (v / 256), (remainder-IsByte v, tt))),
    ),
  ),
)

some-injective : (a b : Bytes) → ◌≡◌ {A = Option Bytes} (some a) (some b) → a ≡ b
some-injective a b h = cc

same_bytes :
    (v w : ℕ) → mac_string (mac_bytes v) ≡ mac_string (mac_bytes w) → mac_bytes v ≡ mac_bytes w
same_bytes v w h = some-injective (mac_bytes v) (mac_bytes w) (
    sym (parse_mac-mac_string (mac_bytes v) refl (mac_bytes-IsByte v))
    ∙ ap parse_mac h
    ∙ parse_mac-mac_string (mac_bytes w) refl (mac_bytes-IsByte w))

value_apart :
    (b m n : ℕ)
    → m < 281474976710656
    → n < 281474976710656
    → (b + m) % 18446744073709551616 % 281474976710656
      ≡ (b + n) % 18446744073709551616 % 281474976710656
    → m ≡ n
value_apart b m n h k e = omega arith

next_mac-injective :
    (base : Bytes) (m n : ℕ)
    → m < 281474976710656
    → n < 281474976710656
    → next_mac base m ≡ next_mac base n
    → m ≡ n
unfolding next_mac
next_mac-injective base m n h k e = value_apart (mac_value 0 base) m n h k (
    bytes_apart ((mac_value 0 base + m) % 18446744073709551616)
      ((mac_value 0 base + n) % 18446744073709551616)
      (same_bytes ((mac_value 0 base + m) % 18446744073709551616)
        ((mac_value 0 base + n) % 18446744073709551616) e))

-- The MACs that follow any base at two different distances below 2^48 differ, also where the
-- addition passes ff:ff:ff:ff:ff:ff and starts again at zero.
pub next_mac-ne :
    (base : Bytes) (m n : ℕ)
    → m < 281474976710656
    → n < 281474976710656
    → m ≢ n
    → next_mac base m ≢ next_mac base n
next_mac-ne base m n h k ne e = ne (next_mac-injective base m n h k e)
