-- ===== src/Cli/Fleet/Filled.antt =====
-- cmd/unifi-emu/devices.go: what a fleet is after `expandFleet`.
use unifi_emu.Common.{
  ℕ, ◌+◌, ◌%◌, ◌≤◌, ◌≡◌, refl, Bool, true, false, List, [], ◌∷◌, Option, none, some, Text, Bytes,
  ltb, if◌then◌else◌, ok, OnValue, OnValue->>=, given, >>=-eq-ok, arith, Bool-cases, inl, inr,
}
use unifi_emu.Common.Mac.{parse_mac}
use unifi_emu.Emu.Profile.{DeviceSpec, ModelProfile, Registry, profile}
use unifi_emu.Net.{parse_ip_to4, ip4_text}
use unifi_emu.Cli.Devices.{FleetError, bad_mac_base, bad_ip_base, unknown_model}
use unifi_emu.Cli.Fleet.{
  next_mac, next_ip, or_error, is_gateway, claim_gateway, fill_mac, fill_ip, expand_from,
  expand_fleet,
}

-- The address that follows the base by i, where the last octet is 254 at most.
abbrev pub Follows : Bytes → ℕ → Text → Type 0
Follows (a ∷ b ∷ c ∷ d ∷ []) i address =
    (d + i ≤ 254) × (address ≡ ip4_text (a ∷ b ∷ c ∷ (d + i) ∷ []))
Follows _ i address = ◌≡◌ {A = Bool} true false

-- An address that is given stays.
abbrev pub HasIp : Text → Bytes → ℕ → Text → Type 0
HasIp [] base i address = Follows base i address
HasIp (c ∷ s) base i address = address ≡ (c ∷ s)

abbrev pub HasMac : Text → Bytes → ℕ → Text → Type 0
HasMac [] base i mac = mac ≡ next_mac base (i + 1)
HasMac (c ∷ s) base i mac = mac ≡ (c ∷ s)

-- An entry of a known model, with its addresses, and else as it was given.
abbrev pub IsFilled : Registry → Bytes → Bytes → ℕ → DeviceSpec → DeviceSpec → Type 0
IsFilled registry mac ip i given out =
    ((p : ModelProfile) × (profile registry given.model ≡ some p))
    × HasMac given.mac mac i out.mac
    × HasIp given.ip ip i out.ip
    × (out ≡ record given { mac = out.mac; ip = out.ip })

-- Each entry of the fleet in its order, from index i on.
unfoldable pub AllFilled : Registry → Bytes → Bytes → ℕ → List DeviceSpec → List DeviceSpec → Type 0
AllFilled registry mac ip i [] [] = Unit {0}
AllFilled registry mac ip i (s ∷ ss) (o ∷ os) =
    IsFilled registry mac ip i s o × AllFilled registry mac ip (i + 1) ss os
AllFilled registry mac ip i [] (o ∷ os) = ◌≡◌ {A = Bool} true false
AllFilled registry mac ip i (s ∷ ss) [] = ◌≡◌ {A = Bool} true false

abbrev pub one_if : Option ModelProfile → ℕ
one_if none = 0
one_if (some p) = if is_gateway p then 1 else 0

unfoldable pub count_gateways : Registry → List DeviceSpec → ℕ
count_gateways registry [] = 0
count_gateways registry (s ∷ ss) = one_if (profile registry s.model) + count_gateways registry ss

small_octet : (x : ℕ) → x ≤ 254 → x % 256 ≡ x
small_octet x h = omega arith

next_ip-Follows : (base : Bytes) (i : ℕ) → OnValue (Follows base i) (next_ip base i)
unfolding next_ip
next_ip-Follows [] i = tt
next_ip-Follows (a ∷ []) i = tt
next_ip-Follows (a ∷ b ∷ []) i = tt
next_ip-Follows (a ∷ b ∷ c ∷ []) i = tt
next_ip-Follows (a ∷ b ∷ c ∷ d ∷ e ∷ bs) i = tt
next_ip-Follows (a ∷ b ∷ c ∷ d ∷ []) i = elim (Bool-cases (ltb 254 (d + i))) [
  | inl e ↦ rw e tt
  | inr e ↦ let h : d + i ≤ 254 = ground arith in rw e (h, rw (small_octet (d + i) h) refl)
]

fill_ip-HasIp : (s : Text) (base : Bytes) (i : ℕ) → OnValue (HasIp s base i) (fill_ip s base i)
fill_ip-HasIp [] base i = next_ip-Follows base i
fill_ip-HasIp (c ∷ s) base i = refl

fill_mac-HasMac : (s : Text) (base : Bytes) (i : ℕ) → HasMac s base i (fill_mac s base i)
fill_mac-HasMac [] base i = refl
fill_mac-HasMac (c ∷ s) base i = refl

-- What is left of the one gateway.
claim_gateway-OnValue :
    (g : ℕ) (b : Bool)
    → g ≤ 1
    → OnValue (λ now. (now ≤ 1) × (now ≡ g + (if b then 1 else 0))) (claim_gateway g b)
claim_gateway-OnValue g b h = ground arith

or_error-OnValue :
    {A : Type 0} (e : FleetError) (o : Option A) → OnValue (λ a. o ≡ some a) (or_error e o)
or_error-OnValue e none = tt
or_error-OnValue e (some a) = refl

Expanded : Registry → Bytes → Bytes → ℕ → ℕ → List DeviceSpec → List DeviceSpec → Type 0
Expanded registry mac ip i g ss out =
    AllFilled registry mac ip i ss out × (g + count_gateways registry ss ≤ 1)

add_count : (g now one rest : ℕ) → now ≡ g + one → now + rest ≤ 1 → g + (one + rest) ≤ 1
add_count g now one rest h k = omega arith

expand_from-Expanded :
    (registry : Registry) (mac ip : Bytes) (i g : ℕ) (ss : List DeviceSpec)
    → g ≤ 1
    → OnValue (Expanded registry mac ip i g ss) (expand_from registry mac ip i g ss)
unfolding expand_from Expanded AllFilled count_gateways
expand_from-Expanded registry mac ip i g [] h = (tt, omega arith)
expand_from-Expanded registry mac ip i g (s ∷ ss) h =
    let P = Expanded registry mac ip i g (s ∷ ss) in
    OnValue->>= P (or_error (unknown_model s.model) (profile registry s.model)) _ (λ p known.
      OnValue->>= P (claim_gateway g (is_gateway p)) _ (λ now claimed.
        OnValue->>= P (fill_ip s.ip ip i) _ (λ address filled.
          OnValue->>= P (expand_from registry mac ip (i + 1) now ss) _ (λ rest expanded.
            let has : profile registry s.model ≡ some p = given _ known (or_error-OnValue _ _) in
            let slot = given _ claimed (claim_gateway-OnValue g (is_gateway p) h) in
            let tail =
              given _ expanded (expand_from-Expanded registry mac ip (i + 1) now ss slot.0) in
            (
              (
                (
                  (p, has),
                  fill_mac-HasMac s.mac mac i,
                  given _ filled (fill_ip-HasIp s.ip ip i),
                  refl,
                ),
                tail.0,
              ),
              rw has (add_count g now _ (count_gateways registry ss) slot.1 tail.1),
            )))))

-- A fleet that is expanded has the entries that were given, in their order, each of a known model; a
-- missing MAC is the base MAC advanced by the index plus one, a missing IP the base IP with the
-- index added to its last octet, 254 at most; what is given stays, and one gateway at most is there.
pub expand_fleet-AllFilled :
    (ip6 : Text → Option Bytes) (registry : Registry) (specs : List DeviceSpec)
    (mac_base ip_base : Text) (out : List DeviceSpec)
    → expand_fleet ip6 registry specs mac_base ip_base ≡ ok out
    → (mac : Bytes) × (ip : Bytes) × (parse_mac mac_base ≡ some mac)
      × (parse_ip_to4 ip6 ip_base ≡ some ip)
      × AllFilled registry mac ip 0 specs out
      × (count_gateways registry specs ≤ 1)
unfolding expand_fleet Expanded
expand_fleet-AllFilled ip6 registry specs mac_base ip_base out h =
    let (mac, em, h1) = >>=-eq-ok (or_error bad_mac_base (parse_mac mac_base)) _ h in
    let (ip, ei, h2) = >>=-eq-ok (or_error bad_ip_base (parse_ip_to4 ip6 ip_base)) _ h1 in
    let r = given _ h2 (expand_from-Expanded registry mac ip 0 0 specs (omega arith)) in
    let bound : count_gateways registry specs ≤ 1 = omega (arith, r.1) in
    (mac, ip, given _ em (or_error-OnValue _ _), given _ ei (or_error-OnValue _ _), r.0, bound)
