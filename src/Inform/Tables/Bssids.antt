-- ===== src/Inform/Tables/Bssids.antt =====
-- The access points of one device: their numbering and their BSSIDs.
use unifi_emu.Common.{
  ℕ, suc, ◌+◌, ◌%◌, ◌≤◌, ◌<◌, ◌≡◌, ◌≢◌, refl, ap, List, [], ◌∷◌, ◌++◌, Option, none, some, Text,
  Bytes, length, arith, All,
}
use unifi_emu.Common.Mac.{parse_mac}
use unifi_emu.Inform.Descriptor.{Radio, Descriptor}
use unifi_emu.Inform.Tables.{Vap, bssid, header_of, mac_header, vaps_of_radio, vaps_from, vaps}

-- Consecutive numbers from idx on, and the BSSID of each number.
pub IsNumbered : Bytes → ℕ → List Vap → Type 0
IsNumbered mac idx [] = Unit {0}
IsNumbered mac idx (v ∷ vs) =
    (v.index ≡ idx) × (v.address ≡ bssid mac idx) × IsNumbered mac (idx + 1) vs

IsNumbered-append :
    (mac : Bytes) (idx : ℕ) (xs ys : List Vap)
    → IsNumbered mac idx xs
    → IsNumbered mac (idx + length xs) ys
    → IsNumbered mac idx (xs ++ ys)
unfolding IsNumbered
IsNumbered-append mac idx [] ys h k = let e : idx + 0 ≡ idx = omega arith in rw e at k
IsNumbered-append mac idx (x ∷ xs) ys h k =
    let e : idx + suc (length xs) ≡ idx + 1 + length xs = omega arith in
    (h.0, h.1, IsNumbered-append mac (idx + 1) xs ys h.2 (rw e at k))

vaps_of_radio-IsNumbered :
    (mac : Bytes) (r : Radio) (ssids : List Text) (idx : ℕ)
    → IsNumbered mac idx (vaps_of_radio mac r ssids idx)
      × (length (vaps_of_radio mac r ssids idx) ≡ length ssids)
unfolding IsNumbered vaps_of_radio
vaps_of_radio-IsNumbered mac r [] idx = (tt, refl)
vaps_of_radio-IsNumbered mac r (s ∷ ssids) idx =
    let (rest, size) = vaps_of_radio-IsNumbered mac r ssids (idx + 1) in
    ((refl, refl, rest), ap suc size)

vaps_from-IsNumbered :
    (mac : Bytes) (rs : List Radio) (ssids : List Text) (idx : ℕ)
    → IsNumbered mac idx (vaps_from mac rs ssids idx)
unfolding IsNumbered vaps_from
vaps_from-IsNumbered mac [] ssids idx = tt
vaps_from-IsNumbered mac (r ∷ rs) ssids idx =
    let (first, size) = vaps_of_radio-IsNumbered mac r ssids idx in
    IsNumbered-append mac idx (vaps_of_radio mac r ssids idx) _ first
      (rw size (vaps_from-IsNumbered mac rs ssids (idx + length ssids)))

length-header_of : (o : Option Bytes) → length (header_of o) ≡ 6
unfolding header_of
length-header_of none = refl
length-header_of (some hw) = ground arith

length-mac_header : (mac : Text) → length (mac_header mac) ≡ 6
unfolding mac_header
length-mac_header mac = length-header_of (parse_mac mac)

-- The fifth byte of an address.
fifth : Bytes → ℕ
fifth (a ∷ b ∷ c ∷ d ∷ e ∷ rest) = e
fifth _ = 0

bssid-ne : (mac : Bytes) (i j : ℕ) → length mac ≡ 6 → i < j → j < 256 → bssid mac i ≢ bssid mac j
unfolding bssid fifth
bssid-ne (a ∷ b ∷ c ∷ d ∷ e ∷ f ∷ []) i j h lt small =
    λ p. let same : (e + i % 256) % 256 ≡ (e + j % 256) % 256 = ap fifth p in omega arith
bssid-ne _ i j h lt small = absurd (omega arith)

pub IsApart : List Vap → Type 0
IsApart [] = Unit {0}
IsApart (v ∷ vs) = All (λ w. v.address ≢ w.address) vs × IsApart vs

bssid-ne_later :
    (mac : Bytes) (i idx : ℕ) (vs : List Vap)
    → length mac ≡ 6
    → i < idx
    → idx + length vs ≤ 256
    → IsNumbered mac idx vs
    → All (λ w. bssid mac i ≢ w.address) vs
unfolding IsNumbered
bssid-ne_later mac i idx [] six lt fits h = tt
bssid-ne_later mac i idx (v ∷ vs) six lt fits h = (
  rw h.1 (bssid-ne mac i idx six lt (omega arith)),
  bssid-ne_later mac i (idx + 1) vs six (omega arith) (omega arith) h.2,
)

IsApart-numbered :
    (mac : Bytes) (idx : ℕ) (vs : List Vap)
    → length mac ≡ 6
    → idx + length vs ≤ 256
    → IsNumbered mac idx vs
    → IsApart vs
unfolding IsNumbered IsApart
IsApart-numbered mac idx [] six fits h = tt
IsApart-numbered mac idx (v ∷ vs) six fits h = (
  rw h.1 (bssid-ne_later mac idx (idx + 1) vs six (omega arith) (omega arith) h.2),
  IsApart-numbered mac (idx + 1) vs six (omega arith) h.2,
)

-- The access points of a device are numbered from 0 on, over all radios, with the BSSID of their
-- number; where there are at most 256 of them, no two have the same BSSID.
pub vaps-IsApart :
    (desc : Descriptor)
    → length (vaps desc) ≤ 256
    → IsNumbered (mac_header desc.mac) 0 (vaps desc) × IsApart (vaps desc)
unfolding vaps
vaps-IsApart desc fits =
    let mac = mac_header desc.mac in
    let all = vaps_from mac desc.radios desc.ssids 0 in
    let numbered = vaps_from-IsNumbered mac desc.radios desc.ssids 0 in
    (numbered, IsApart-numbered mac 0 all (length-mac_header desc.mac) (omega arith) numbered)
