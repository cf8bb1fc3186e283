-- ===== src/Herder/Allocation/Claims.antt =====
-- internal/herder/identity.go: the first pass of `Allocate` as claims on the three fields.
use unifi_emu.Common.{
  ℕ, ◌+◌, ◌≡◌, refl, subst, ◌⊎◌, inl, inr, List, [], ◌∷◌, map, Text, Result, ok, >>=-eq-ok,
  ok-injective, Bool-cases,
}
use unifi_emu.Herder.Protocol.{Identity}
use unifi_emu.Herder.Plan.{text_among}
use unifi_emu.Herder.Readiness.{Failure}
use unifi_emu.Herder.Identity.{check_model, check_serial, check_name}
use unifi_emu.Herder.Allocation.{
  RequestDevice, IdentitySet, claim, keep_mac, supply, supply_one, supply_all,
}
use unifi_emu.Herder.Allocation.Filling.{Has, Lacks, Within, Has-cons, Within-cons, Claimed}

-- The three fields that `Allocate` keeps unique.
abbrev pub macs_of : List Identity → List Text
macs_of ids = map (λ d. d.mac) ids

abbrev pub serials_of : List Identity → List Text
serials_of ids = map (λ d. d.serial) ids

abbrev pub names_of : List Identity → List Text
names_of ids = map (λ d. d.name) ids

-- One claim: of an empty value, or of a new one.
abbrev IsClaim : List Text → List Text → Text → Type 0
IsClaim set next v = Within set next × ((v ≡ []) ⊎ (Lacks set v × Has next v))

claim-IsClaim :
    (v : Text) (set : List Text) {next : List Text} → claim v set ≡ ok next → IsClaim set next v
unfolding claim
claim-IsClaim v set h = elim (Bool-cases (text_among v set)) [
  | inl e ↦ cc (rw e at h)
  | inr e ↦ rw (← ok-injective (rw e at h)) (Within-cons v set, inr (e, Has-cons v set))
]

supply-IsClaim :
    (v : Text) (check : Text → Result Failure (Unit {0})) (set : List Text) {next : List Text}
    → supply v check set ≡ ok next
    → IsClaim set next v
supply-IsClaim [] check set h = rw (← ok-injective h) (λ t has. has, inl refl)
supply-IsClaim (c ∷ v) check set h =
    let (_, _, g) = >>=-eq-ok (check (c ∷ v)) _ h in claim-IsClaim (c ∷ v) set g

-- What one device claims of the three sets.
abbrev ClaimsOne : IdentitySet → IdentitySet → Identity → Type 0
ClaimsOne set next d =
    IsClaim set.macs next.macs d.mac
    × IsClaim set.serials next.serials d.serial
    × IsClaim set.names next.names d.name

supply_one-ClaimsOne :
    (i : ℕ) (d : RequestDevice) (set : IdentitySet) (id : Identity) (next : IdentitySet)
    → supply_one i d set ≡ ok (id, next)
    → ClaimsOne set next id
unfolding supply_one
supply_one-ClaimsOne i d set id next h =
    let (_, _, g0) = >>=-eq-ok (check_model d.model) _ h in
    let (mac, _, g1) = >>=-eq-ok (keep_mac d.mac d.mac) _ g0 in
    let (macs, h2, g2) = >>=-eq-ok (supply mac (λ m. ok tt) set.macs) _ g1 in
    let (serials, h3, g3) = >>=-eq-ok (supply d.serial check_serial set.serials) _ g2 in
    let (names, h4, g4) = >>=-eq-ok (supply d.name check_name set.names) _ g3 in
    let e = ok-injective g4 in
    subst (λ p. ClaimsOne set p.1 p.0) e
      (
        supply-IsClaim mac (λ m. ok tt) set.macs h2,
        supply-IsClaim d.serial check_serial set.serials h3,
        supply-IsClaim d.name check_name set.names h4,
      )

abbrev pub ClaimsAll : IdentitySet → IdentitySet → List Identity → Type 0
ClaimsAll set last ids =
    Claimed set.macs last.macs (macs_of ids)
    × Claimed set.serials last.serials (serials_of ids)
    × Claimed set.names last.names (names_of ids)

pub supply_all-ClaimsAll :
    (i : ℕ) (ds : List RequestDevice) (set : IdentitySet) (ids : List Identity) (last : IdentitySet)
    → supply_all i ds set ≡ ok (ids, last)
    → ClaimsAll set last ids
unfolding supply_all Claimed
supply_all-ClaimsAll i [] set ids last h =
    subst (λ p. ClaimsAll set p.1 p.0) (ok-injective h) (λ t has. has, λ t has. has, λ t has. has)
supply_all-ClaimsAll i (d ∷ ds) set ids last h =
    let ((id, next), h1, g1) = >>=-eq-ok (supply_one i d set) _ h in
    let ((rest, last1), h2, g2) = >>=-eq-ok (supply_all (i + 1) ds next) _ g1 in
    let (m, s, n) = supply_one-ClaimsOne i d set id next h1 in
    let (ms, ss, ns) = supply_all-ClaimsAll (i + 1) ds next rest last1 h2 in
    subst (λ p. ClaimsAll set p.1 p.0) (ok-injective g2)
      ((next.macs, m.0, m.1, ms), (next.serials, s.0, s.1, ss), (next.names, n.0, n.1, ns))
