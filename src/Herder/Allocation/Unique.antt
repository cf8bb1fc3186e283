-- ===== src/Herder/Allocation/Unique.antt =====
-- internal/herder/identity.go: the three passes of `Allocate` together.
use unifi_emu.Common.{◌≡◌, refl, subst, List, [], ◌∷◌, Text, Bytes, ok, >>=-eq-ok, ok-injective}
use unifi_emu.Herder.Protocol.{Identity}
use unifi_emu.Herder.Allocation.{
  RequestDevice, IdentitySet, new_identity_set, supply_all, complete_entry, complete_all,
  generate_entry, generate_all, allocate,
}
use unifi_emu.Herder.Allocation.Filling.{
  Claimed, Filled, IsSeparate, Claimed-IsSeparate, Claimed-IsKnown, Filled-IsSeparate,
}
use unifi_emu.Herder.Allocation.Claims.{macs_of, serials_of, names_of, supply_all-ClaimsAll}
use unifi_emu.Herder.Allocation.Steps.{StepsOne, complete_entry-StepsOne, generate_entry-StepsOne}

-- What a whole pass does to the three fields.
abbrev pub FillsAll :
    IdentitySet → IdentitySet → IdentitySet → List Identity → List Identity → Type 0
FillsAll reserved set last ds os =
    Filled reserved.macs set.macs last.macs (macs_of ds) (macs_of os)
    × Filled reserved.serials set.serials last.serials (serials_of ds) (serials_of os)
    × Filled reserved.names set.names last.names (names_of ds) (names_of os)

nil-FillsAll : (reserved set : IdentitySet) → FillsAll reserved set set [] []
unfolding Filled
nil-FillsAll reserved set = (λ t has. has, λ t has. has, λ t has. has)

cons-FillsAll :
    (reserved set next last : IdentitySet) (d o : Identity) (ds os : List Identity)
    → StepsOne reserved set next d o
    → FillsAll reserved next last ds os
    → FillsAll reserved set last (d ∷ ds) (o ∷ os)
unfolding Filled
cons-FillsAll reserved set next last d o ds os (m, s, n) (ms, ss, ns) =
    ((next.macs, m, ms), (next.serials, s, ss), (next.names, n, ns))

pub complete_all-FillsAll :
    (reserved set : IdentitySet) (ds os : List Identity) (last : IdentitySet)
    → complete_all reserved set ds ≡ ok (os, last)
    → FillsAll reserved set last ds os
unfolding complete_all
complete_all-FillsAll reserved set [] os last h =
    subst (λ p. FillsAll reserved set p.1 [] p.0) (ok-injective h) (nil-FillsAll reserved set)
complete_all-FillsAll reserved set (d ∷ ds) os last h =
    let ((o, next), h1, g1) = >>=-eq-ok (complete_entry reserved set d d.mac) _ h in
    let ((rest, last1), h2, g2) = >>=-eq-ok (complete_all reserved next ds) _ g1 in
    subst (λ p. FillsAll reserved set p.1 (d ∷ ds) p.0) (ok-injective g2)
      (cons-FillsAll reserved set next last1 d o ds rest
        (complete_entry-StepsOne reserved set d d.mac o next h1)
        (complete_all-FillsAll reserved next ds rest last1 h2))

pub generate_all-FillsAll :
    (reserved set : IdentitySet) (ds : List Identity) (source : Bytes) (os : List Identity)
    (last : IdentitySet)
    → generate_all reserved set ds source ≡ ok (os, last)
    → FillsAll reserved set last ds os
unfolding generate_all
generate_all-FillsAll reserved set [] source os last h =
    subst (λ p. FillsAll reserved set p.1 [] p.0) (ok-injective h) (nil-FillsAll reserved set)
generate_all-FillsAll reserved set (d ∷ ds) source os last h =
    let ((o, (next, left)), h1, g1) = >>=-eq-ok (generate_entry reserved set d d.mac source) _ h in
    let ((rest, last1), h2, g2) = >>=-eq-ok (generate_all reserved next ds left) _ g1 in
    subst (λ p. FillsAll reserved set p.1 (d ∷ ds) p.0) (ok-injective g2)
      (cons-FillsAll reserved set next last1 d o ds rest
        (generate_entry-StepsOne reserved set d d.mac source o next left refl h1)
        (generate_all-FillsAll reserved next ds left rest last1 h2))

-- One field over the three passes.
three_passes :
    (reserved mid last supplied completed ids : List Text)
    → Claimed [] reserved supplied
    → Filled reserved [] mid supplied completed
    → Filled reserved mid last completed ids
    → IsSeparate ids
three_passes reserved mid last supplied completed ids c f g =
    let (apart1, known1, _) =
      Filled-IsSeparate reserved [] mid supplied completed f
        (Claimed-IsKnown [] reserved supplied [] c) (Claimed-IsSeparate [] reserved supplied c) in
    (Filled-IsSeparate reserved mid last completed ids g known1 apart1).0

-- No two identities that `Allocate` returns share a MAC, a serial or a name that is not empty,
-- whatever the request supplied and whatever the random source holds.
pub allocate-IsSeparate :
    (devices : List RequestDevice) (source : Bytes) (ids : List Identity)
    → allocate devices source ≡ ok ids
    → IsSeparate (macs_of ids) × IsSeparate (serials_of ids) × IsSeparate (names_of ids)
unfolding allocate
allocate-IsSeparate devices source ids h =
    let ((supplied, reserved), h1, g1) = >>=-eq-ok (supply_all 0 devices new_identity_set) _ h in
    let ((completed, mid), h2, g2) =
      >>=-eq-ok (complete_all reserved new_identity_set supplied) _ g1 in
    let ((out, last), h3, g3) = >>=-eq-ok (generate_all reserved mid completed source) _ g2 in
    let (cm, cs, cn) = supply_all-ClaimsAll 0 devices new_identity_set supplied reserved h1 in
    let (fm, fs, fn) = complete_all-FillsAll reserved new_identity_set supplied completed mid h2 in
    let (gm, gs, gn) = generate_all-FillsAll reserved mid completed source out last h3 in
    subst (λ t. IsSeparate (macs_of t) × IsSeparate (serials_of t) × IsSeparate (names_of t))
      (ok-injective g3)
      (
        three_passes reserved.macs mid.macs last.macs _ _ _ cm fm gm,
        three_passes reserved.serials mid.serials last.serials _ _ _ cs fs gs,
        three_passes reserved.names mid.names last.names _ _ _ cn fn gn,
      )
