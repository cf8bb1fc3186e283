-- ===== src/Herder/Allocation/Steps.antt =====
-- internal/herder/identity.go: what the later passes of `Allocate` do to one entry.
use unifi_emu.Common.{
  ℕ, zero, suc, ◌≡◌, refl, ap, subst, ◌⊎◌, inl, inr, ◌||◌, List, [], ◌∷◌, Option, none, some, Text,
  Bytes, length, take, drop, ltb, Result, ok, >>=-eq-ok, ok-injective, arith, Bool-cases,
}
use unifi_emu.Common.Mac.{mac_string}
use unifi_emu.Herder.Protocol.{Identity}
use unifi_emu.Herder.Plan.{text_among}
use unifi_emu.Herder.Readiness.{Failure}
use unifi_emu.Herder.Identity.{mac_hex, derived_serial, derived_name}
use unifi_emu.Herder.Allocation.{
  IdentitySet, pick, add_derived, or_taken, complete_one, complete_entry, local_unicast, candidate,
  with_mac, claim_all, Generated, accept_or, generate, generate_entry, mac_retries,
}
use unifi_emu.Herder.Allocation.Filling.{Has, Lacks, Within, Has-add_text, Within-add_text, IsStep}

-- A picked value is the supplied one, or one that neither set has.
pick-cases :
    (reserved final : List Text) (s derived : Text) {o : Text}
    → pick reserved final s derived ≡ some o
    → (o ≡ s) ⊎ ((s ≡ []) × (Lacks reserved o × Lacks final o))
unfolding pick
pick-cases reserved final [] derived h = ground arith
pick-cases reserved final (c ∷ s) derived h = ground arith

pub or_taken-some {ℓ} : {A : Type ℓ} (o : Option A) {a : A} → or_taken o ≡ ok a → o ≡ some a
or_taken-some none h = cc
or_taken-some (some b) h = ap some (ok-injective h)

add_derived-Has : (s v : Text) (set : List Text) → s ≡ [] → Has (add_derived s v set) v
add_derived-Has [] v set e = Has-add_text v set
add_derived-Has (c ∷ s) v set e = cc

Within-add_derived : (s v : Text) (set : List Text) → Within set (add_derived s v set)
Within-add_derived [] v set = Within-add_text v set
Within-add_derived (c ∷ s) v set = λ t has. has

picked-IsStep :
    (reserved final next : List Text) (s derived : Text) {o : Text}
    → Within final next
    → (s ≡ [] → Has next o)
    → pick reserved final s derived ≡ some o
    → IsStep reserved final next s o
picked-IsStep reserved final next s derived grows has h = (
  grows,
  elim (pick-cases reserved final s derived h) [
    | inl kept ↦ inl kept
    | inr new ↦ inr (new.0, (new.1.0, (new.1.1, has new.0)))
  ],
)

-- What one entry does to the three fields.
abbrev pub StepsOne : IdentitySet → IdentitySet → IdentitySet → Identity → Identity → Type 0
StepsOne reserved set next d o =
    IsStep reserved.macs set.macs next.macs d.mac o.mac
    × IsStep reserved.serials set.serials next.serials d.serial o.serial
    × IsStep reserved.names set.names next.names d.name o.name

pub stays-StepsOne : (reserved set : IdentitySet) (d : Identity) → StepsOne reserved set set d d
stays-StepsOne reserved set d =
    ((λ t has. has, inl refl), (λ t has. has, inl refl), (λ t has. has, inl refl))

pub complete_entry-StepsOne :
    (reserved set : IdentitySet) (d : Identity) (mac : Text) (o : Identity) (next : IdentitySet)
    → complete_entry reserved set d mac ≡ ok (o, next)
    → StepsOne reserved set next d o
unfolding complete_one
complete_entry-StepsOne reserved set d [] o next h =
    subst (λ p. StepsOne reserved set p.1 d p.0) (ok-injective h) (stays-StepsOne reserved set d)
complete_entry-StepsOne reserved set d (c ∷ mac) o next h =
    let hex = mac_hex d.mac in
    let (serial, h1, g1) =
      >>=-eq-ok (or_taken (pick reserved.serials set.serials d.serial (derived_serial hex))) _ h in
    let (name, h2, g2) =
      >>=-eq-ok (or_taken (pick reserved.names set.names d.name (derived_name d.model hex))) _ g1 in
    subst (λ p. StepsOne reserved set p.1 d p.0) (ok-injective g2)
      (
        (λ t has. has, inl refl),
        picked-IsStep reserved.serials set.serials _ d.serial (derived_serial hex)
            (Within-add_derived d.serial serial set.serials)
            (add_derived-Has d.serial serial set.serials) (or_taken-some _ h1),
        picked-IsStep reserved.names set.names _ d.name (derived_name d.model hex)
            (Within-add_derived d.name name set.names) (add_derived-Has d.name name set.names)
            (or_taken-some _ h2),
      )

with_mac-some :
    (d : Identity) (mac : Text) (serial name : Option Text) {o : Identity}
    → with_mac d mac serial name ≡ some o
    → (o.mac ≡ mac) × ((serial ≡ some o.serial) × (name ≡ some o.name))
with_mac-some d mac none name h = cc
with_mac-some d mac (some s) none h = cc
with_mac-some d mac (some s) (some n) h = ground arith

-- A candidate that is accepted is a step, whatever the attempt.
candidate-StepsOne :
    (reserved set : IdentitySet) (d : Identity) (mac : Text) (o : Identity)
    → d.mac ≡ []
    → candidate reserved set d mac ≡ some o
    → StepsOne reserved set (claim_all o set) d o
unfolding candidate claim_all
candidate-StepsOne reserved set d mac o e h =
    elim (Bool-cases (text_among mac reserved.macs || text_among mac set.macs)) [
      | inl taken ↦ cc (rw taken at h)
      | inr free ↦
          let lacks : Lacks reserved.macs mac × Lacks set.macs mac = ground arith in
          let (m, (s, n)) = with_mac-some d mac _ _ (rw free at h) in
          (
            (
              Within-add_text o.mac set.macs,
              inr (e, (rw m lacks.0, (rw m lacks.1, Has-add_text o.mac set.macs))),
            ),
            picked-IsStep reserved.serials set.serials _ d.serial _
                (Within-add_text o.serial set.serials) (λ _. Has-add_text o.serial set.serials) s,
            picked-IsStep reserved.names set.names _ d.name _ (Within-add_text o.name set.names)
                (λ _. Has-add_text o.name set.names) n,
          )
    ]

accept_or-StepsOne :
    (reserved set : IdentitySet) (d : Identity) (rest : Bytes) (c : Option Identity)
    (retry : Result Failure Generated) (o : Identity) (next : IdentitySet) (left : Bytes)
    → ((p : Identity) → c ≡ some p → StepsOne reserved set (claim_all p set) d p)
    → (retry ≡ ok (o, (next, left)) → StepsOne reserved set next d o)
    → accept_or set rest c retry ≡ ok (o, (next, left))
    → StepsOne reserved set next d o
accept_or-StepsOne reserved set d rest none retry o next left now later h = later h
accept_or-StepsOne reserved set d rest (some p) retry o next left now later h =
    subst (λ t. StepsOne reserved set t.1.0 d t.0) (ok-injective h) (now p refl)

generate-StepsOne :
    (attempts : ℕ) (reserved set : IdentitySet) (d : Identity) (source : Bytes) (o : Identity)
    (next : IdentitySet) (left : Bytes)
    → d.mac ≡ []
    → generate attempts d reserved set source ≡ ok (o, (next, left))
    → StepsOne reserved set next d o
unfolding generate
generate-StepsOne zero reserved set d source o next left e h = cc
generate-StepsOne (suc attempts) reserved set d source o next left e h =
    let mac = mac_string (local_unicast (take 6 source)) in
    elim (Bool-cases (ltb (length source) 6)) [
      | inl short ↦ cc (rw short at h)
      | inr enough ↦
          accept_or-StepsOne reserved set d (drop 6 source) (candidate reserved set d mac)
            (generate attempts d reserved set (drop 6 source)) o next left
            (λ p c. candidate-StepsOne reserved set d mac p e c)
            (generate-StepsOne attempts reserved set d (drop 6 source) o next left e)
            (rw enough at h)
    ]

pub generate_entry-StepsOne :
    (reserved set : IdentitySet) (d : Identity) (mac : Text) (source : Bytes) (o : Identity)
    (next : IdentitySet) (left : Bytes)
    → d.mac ≡ mac
    → generate_entry reserved set d mac source ≡ ok (o, (next, left))
    → StepsOne reserved set next d o
generate_entry-StepsOne reserved set d [] source o next left e h =
    generate-StepsOne mac_retries reserved set d source o next left e h
generate_entry-StepsOne reserved set d (c ∷ mac) source o next left e h =
    subst (λ t. StepsOne reserved set t.1.0 d t.0) (ok-injective h) (stays-StepsOne reserved set d)
