-- ===== src/Cli/Fleet.antt =====
-- cmd/unifi-emu/devices.go: `expandFleet`, which fills in the addresses that a fleet leaves out.
pub mod Filled
pub mod Macs
use unifi_emu.Common.{
  ℕ, zero, suc, ◌+◌, ◌*◌, ◌/◌, ◌%◌, Bool, true, false, ◌||◌, List, [], ◌∷◌, Option, none, some,
  Text, Bytes, codes, text_eq, ltb, if◌then◌else◌, Result, ok, err, ◌>>=◌,
}
use unifi_emu.Common.Mac.{parse_mac, mac_string}
use unifi_emu.Emu.Profile.{DeviceSpec, ModelProfile, Registry, profile}
use unifi_emu.Net.{parse_ip_to4, ip4_text}
use unifi_emu.Cli.Devices.{
  FleetError, bad_mac_base, bad_ip_base, unknown_model, second_gateway, outside_subnet,
}

-- `v = v<<8 | uint64(b)`.
unfoldable pub mac_value : ℕ → Bytes → ℕ
mac_value v [] = v
mac_value v (b ∷ bs) = mac_value ((v * 256 + b) % 18446744073709551616) bs

-- The six low bytes.
abbrev pub mac_bytes : ℕ → Bytes
mac_bytes v =
    v / 1099511627776 % 256
    ∷ v / 4294967296 % 256
    ∷ v / 16777216 % 256
    ∷ v / 65536 % 256
    ∷ v / 256 % 256
    ∷ v % 256
    ∷ []

unfoldable pub next_mac : Bytes → ℕ → Text
next_mac base n = mac_string (mac_bytes ((mac_value 0 base + n) % 18446744073709551616))

-- To4 has given four bytes.
unfoldable pub next_ip : Bytes → ℕ → Result FleetError Text
next_ip (a ∷ b ∷ c ∷ d ∷ []) n =
    let last = d + n in
    if ltb 254 last then err outside_subnet else ok (ip4_text (a ∷ b ∷ c ∷ last % 256 ∷ []))
next_ip _ n = err outside_subnet

abbrev pub or_error : {A : Type 0} → FleetError → Option A → Result FleetError A
or_error e none = err e
or_error e (some a) = ok a

abbrev pub is_gateway : ModelProfile → Bool
is_gateway p = text_eq p.type (codes "ugw") || text_eq p.type (codes "uxg")

-- The gateways so far, of which there is one at most.
abbrev pub claim_gateway : ℕ → Bool → Result FleetError ℕ
claim_gateway gateways false = ok gateways
claim_gateway zero true = ok 1
claim_gateway (suc n) true = err second_gateway

abbrev pub fill_mac : Text → Bytes → ℕ → Text
fill_mac [] base i = next_mac base (i + 1)
fill_mac (c ∷ s) base i = c ∷ s

abbrev pub fill_ip : Text → Bytes → ℕ → Result FleetError Text
fill_ip [] base i = next_ip base i
fill_ip (c ∷ s) base i = ok (c ∷ s)

-- The loop, from the entry of index i on.
unfoldable pub expand_from :
    Registry → Bytes → Bytes → ℕ → ℕ → List DeviceSpec → Result FleetError (List DeviceSpec)
expand_from registry mac ip i gateways [] = ok []
expand_from registry mac ip i gateways (s ∷ ss) = do
  p ← or_error (unknown_model s.model) (profile registry s.model)
  now ← claim_gateway gateways (is_gateway p)
  address ← fill_ip s.ip ip i
  rest ← expand_from registry mac ip (i + 1) now ss
  ok (record s { mac = fill_mac s.mac mac i; ip = address } ∷ rest)

-- What net.ParseIP and To4 make of an IPv6 text is the first argument.
unfoldable pub expand_fleet :
    (Text → Option Bytes)
    → Registry
    → List DeviceSpec
    → Text
    → Text
    → Result FleetError (List DeviceSpec)
expand_fleet ip6 registry specs mac_base ip_base = do
  mac ← or_error bad_mac_base (parse_mac mac_base)
  ip ← or_error bad_ip_base (parse_ip_to4 ip6 ip_base)
  expand_from registry mac ip 0 0 specs
