-- ===== src/Herder/Allocation/Outcomes.antt =====
-- internal/herder/identity.go: what `Allocate` comes to, on its errors and on its success.
use unifi_emu.Common.{
  ℕ, ◌+◌, ◌≡◌, ◌≢◌, refl, sym, ap, ◌∙◌, subst, List, [], ◌∷◌, Text, Bytes, Result, ok, err,
  >>=-eq-ok, ok-injective, OnError,
}
use unifi_emu.Common.Int.{pos}
use unifi_emu.Common.Mac.{parse_mac}
use unifi_emu.Herder.Protocol.{Identity, invalid_request, phase_validate}
use unifi_emu.Herder.Readiness.{Failure}
use unifi_emu.Herder.Identity.{
  check_model, check_serial, check_name, canonical_mac, mac_hex, derived_serial, derived_name,
}
use unifi_emu.Herder.Identity.Addresses.{canonical_mac_stable}
use unifi_emu.Herder.Allocation.{
  RequestDevice, IdentitySet, new_identity_set, keep_mac, supply, supply_one, supply_all,
  complete_entry, complete_all, generate_entry, generate_all, allocate,
}
use unifi_emu.Herder.Allocation.Failures.{IsBad, allocate-OnError}
use unifi_emu.Herder.Allocation.Filled.{
  TextFrom, IsLocalUnicast, Fills, Completes, Generates, complete_entry-Completes,
  generate_entry-Generates,
}

-- A supplied MAC in its canonical form, or one that is made up.
abbrev pub MacFrom : Text → Text → Type 0
MacFrom [] mac = IsLocalUnicast mac
MacFrom (c ∷ s) mac = canonical_mac (c ∷ s) ≡ ok mac

-- The identity of the device at a position of the request.
abbrev pub Serves : ℕ → RequestDevice → Identity → Type 0
Serves i d o =
    (o.index ≡ pos i)
    × (o.model ≡ d.model)
    × MacFrom d.mac o.mac
    × TextFrom d.serial (derived_serial (mac_hex o.mac)) o.serial
    × TextFrom d.name (derived_name d.model (mac_hex o.mac)) o.name

-- One identity for each device, in their order, from a position on.
unfoldable pub AreServed : ℕ → List RequestDevice → List Identity → Type 0
AreServed i [] ids = ids ≡ []
AreServed i (d ∷ ds) ids =
    (o : Identity) × (rest : List Identity) × (ids ≡ o ∷ rest)
    × Serves i d o
    × AreServed (i + 1) ds rest

-- What the first pass makes of a device.
abbrev Supplies : ℕ → RequestDevice → Identity → Type 0
Supplies i d id =
    (id.index ≡ pos i)
    × (id.model ≡ d.model)
    × (keep_mac d.mac d.mac ≡ ok id.mac)
    × (id.serial ≡ d.serial)
    × (id.name ≡ d.name)

supply_one-Supplies :
    (i : ℕ) (d : RequestDevice) (set : IdentitySet) (id : Identity) (next : IdentitySet)
    → supply_one i d set ≡ ok (id, next)
    → Supplies i d id
unfolding supply_one
supply_one-Supplies i d set id next h =
    let (_, _, g0) = >>=-eq-ok (check_model d.model) _ h in
    let (mac, kept, g1) = >>=-eq-ok (keep_mac d.mac d.mac) _ g0 in
    let (macs, _, g2) = >>=-eq-ok (supply mac (λ m. ok tt) set.macs) _ g1 in
    let (serials, _, g3) = >>=-eq-ok (supply d.serial check_serial set.serials) _ g2 in
    let (names, _, g4) = >>=-eq-ok (supply d.name check_name set.names) _ g3 in
    subst (λ p. Supplies i d p.0) (ok-injective g4) (refl, refl, kept, refl, refl)

-- What the later passes make of a MAC.
abbrev MacKept : Text → Text → Type 0
MacKept [] mac = IsLocalUnicast mac
MacKept (c ∷ s) mac = mac ≡ c ∷ s

later_passes :
    (mac : Text) (id id1 o : Identity)
    → id.mac ≡ mac
    → Completes mac id id1
    → Generates id1.mac id1 o
    → MacKept mac o.mac × Fills id o
later_passes [] id id1 o e c g =
    subst (λ t. Generates t id o) e (subst (λ x. Generates x.mac x o) c g)
later_passes (x ∷ mac) id id1 o e c g =
    let same : o ≡ id1 = subst (λ t. Generates t id1 o) c.0 g in
    subst (λ y. MacKept (x ∷ mac) y.mac × Fills id y) (sym same) c

canonical_mac-ne : (s : Text) → canonical_mac s ≢ ok []
unfolding parse_mac
canonical_mac-ne s h = let (_, (_, _, back, _, _, _)) = canonical_mac_stable s [] h in cc back

mac_from : (s mac m : Text) → keep_mac s s ≡ ok mac → MacKept mac m → MacFrom s m
mac_from [] mac m h k = subst (λ t. MacKept t m) (sym (ok-injective h)) k
mac_from (c ∷ s) [] m h k = absurd (canonical_mac-ne (c ∷ s) h)
mac_from (c ∷ s) (x ∷ mac) m h k = h ∙ ap ok (sym k)

passes-Serves :
    (i : ℕ) (d : RequestDevice) (id id1 o : Identity)
    → Supplies i d id
    → Completes id.mac id id1
    → Generates id1.mac id1 o
    → Serves i d o
passes-Serves i d id id1 o (index, model, mac, serial, name) c g =
    let (kept, fills) = later_passes id.mac id id1 o refl c g in
    let (index1, model1, serial1, name1) = fills in
    (
      index1 ∙ index,
      model1 ∙ model,
      mac_from d.mac id.mac o.mac mac kept,
      subst (λ t. TextFrom t (derived_serial (mac_hex o.mac)) o.serial) serial serial1,
      subst (λ t. TextFrom t (derived_name d.model (mac_hex o.mac)) o.name) name
          (subst (λ t. TextFrom id.name (derived_name t (mac_hex o.mac)) o.name) model name1),
    )

all_passes-AreServed :
    (i : ℕ) (ds : List RequestDevice) (set reserved final reserved1 final1 : IdentitySet)
    (source : Bytes) (ids ids1 ids2 : List Identity) (last last1 last2 : IdentitySet)
    → supply_all i ds set ≡ ok (ids, last)
    → complete_all reserved final ids ≡ ok (ids1, last1)
    → generate_all reserved1 final1 ids1 source ≡ ok (ids2, last2)
    → AreServed i ds ids2
unfolding supply_all complete_all generate_all AreServed
all_passes-AreServed i [] set reserved final reserved1 final1 source ids ids1 ids2 last last1 last2
      h k l =
    let k1 : ok ([], final) ≡ ok (ids1, last1) =
      subst (λ p. complete_all reserved final p.0 ≡ ok (ids1, last1)) (sym (ok-injective h)) k in
    let l1 : ok ([], final1) ≡ ok (ids2, last2) =
      subst (λ p. generate_all reserved1 final1 p.0 source ≡ ok (ids2, last2))
        (sym (ok-injective k1)) l in
    sym (ap (λ p. p.0) (ok-injective l1))
all_passes-AreServed i (d ∷ ds) set reserved final reserved1 final1 source ids ids1 ids2 last last1
      last2 h k l =
    let ((id, set1), h1, g1) = >>=-eq-ok (supply_one i d set) _ h in
    let ((rest, set2), h2, g2) = >>=-eq-ok (supply_all (i + 1) ds set1) _ g1 in
    let k0 : complete_all reserved final (id ∷ rest) ≡ ok (ids1, last1) =
      subst (λ p. complete_all reserved final p.0 ≡ ok (ids1, last1)) (sym (ok-injective g2)) k in
    let ((id1, final2), k1, m1) = >>=-eq-ok (complete_entry reserved final id id.mac) _ k0 in
    let ((rest1, final3), k2, m2) = >>=-eq-ok (complete_all reserved final2 rest) _ m1 in
    let l0 : generate_all reserved1 final1 (id1 ∷ rest1) source ≡ ok (ids2, last2) =
      subst (λ p. generate_all reserved1 final1 p.0 source ≡ ok (ids2, last2))
        (sym (ok-injective m2)) l in
    let ((o, (final4, left)), l1, n1) =
      >>=-eq-ok (generate_entry reserved1 final1 id1 id1.mac source) _ l0 in
    let ((rest2, final5), l2, n2) = >>=-eq-ok (generate_all reserved1 final4 rest1 left) _ n1 in
    (
      o,
      rest2,
      sym (ap (λ p. p.0) (ok-injective n2)),
      passes-Serves i d id id1 o (supply_one-Supplies i d set id set1 h1)
          (complete_entry-Completes reserved final id id.mac id1 final2 refl k1)
          (generate_entry-Generates reserved1 final1 id1 id1.mac source o final4 left l1),
      all_passes-AreServed (i + 1) ds set1 reserved final2 reserved1 final4 left rest rest1 rest2
          set2 final3 final5 h2 k2 l2,
    )

-- An invalid request in the phase validate, that names no device; or an identity for each device.
abbrev pub IsOutcome : List RequestDevice → Result Failure (List Identity) → Type 0
IsOutcome ds (err f) = (f.code ≡ invalid_request) × (f.phase ≡ phase_validate) × (f.devices ≡ [])
IsOutcome ds (ok ids) = AreServed 0 ds ids

allocate-AreServed :
    (ds : List RequestDevice) (source : Bytes) (ids : List Identity)
    → allocate ds source ≡ ok ids
    → AreServed 0 ds ids
unfolding allocate
allocate-AreServed ds source ids h =
    let ((supplied, reserved), h1, g1) = >>=-eq-ok (supply_all 0 ds new_identity_set) _ h in
    let ((completed, final), h2, g2) =
      >>=-eq-ok (complete_all reserved new_identity_set supplied) _ g1 in
    let ((last, final1), h3, g3) = >>=-eq-ok (generate_all reserved final completed source) _ g2 in
    subst (AreServed 0 ds) (ok-injective g3) (
      all_passes-AreServed 0 ds new_identity_set reserved new_identity_set reserved final source
        supplied completed last reserved final final1 h1 h2 h3)

bad_or_served :
    (ds : List RequestDevice) (r : Result Failure (List Identity))
    → OnError IsBad r
    → ((ids : List Identity) → r ≡ ok ids → AreServed 0 ds ids)
    → IsOutcome ds r
bad_or_served ds (ok ids) h k = k ids refl
bad_or_served ds (err f) h k = (ap (λ g. g.code) h, ap (λ g. g.phase) h, ap (λ g. g.devices) h)

-- Whatever is requested and whichever bytes the random source gives, the allocation fails with an
-- invalid request in the phase validate that names no device, or gives one identity for each device,
-- in their order: its index is the position and its model the device's; a supplied MAC is there in
-- its canonical form, and a missing one is made up, unicast and locally administered; a serial or a
-- name that is supplied is kept, and a missing one is derived from the identity's MAC.
pub allocate-IsOutcome :
    (ds : List RequestDevice) (source : Bytes) → IsOutcome ds (allocate ds source)
allocate-IsOutcome ds source =
    bad_or_served ds (allocate ds source) (allocate-OnError ds source)
      (allocate-AreServed ds source)
