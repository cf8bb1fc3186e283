-- ===== src/Herder/Allocation/Filled.antt =====
-- internal/herder/identity.go: what the passes of `Allocate` leave and what they fill in.
use unifi_emu.Common.{
  ℕ, zero, suc, ◌+◌, ◌*◌, ◌≤◌, ◌/◌, ◌%◌, ◌≡◌, refl, subst, inl, inr, ◌||◌, List, [], ◌∷◌, Option,
  none, some, Text, Bytes, length, take, drop, ltb, Result, ok, >>=-eq-ok, ok-injective, arith,
  Bool-cases, length-take, false,
}
use unifi_emu.Common.Mac.{mac_string}
use unifi_emu.Herder.Protocol.{Identity}
use unifi_emu.Herder.Plan.{text_among}
use unifi_emu.Herder.Readiness.{Failure}
use unifi_emu.Herder.Identity.{mac_hex, derived_serial, derived_name}
use unifi_emu.Herder.Allocation.{
  IdentitySet, with_mac, pick, complete_one, complete_entry, or_taken, local_unicast, candidate,
  Generated, accept_or, generate, generate_entry, mac_retries,
}
use unifi_emu.Herder.Allocation.Steps.{or_taken-some}

-- A supplied text stays; one that is missing is derived.
abbrev pub TextFrom : Text → Text → Text → Type 0
TextFrom [] derived v = v ≡ derived
TextFrom (c ∷ s) derived v = v ≡ c ∷ s

-- The six bytes of an address that is unicast and locally administered, in its canonical text.
abbrev pub IsLocalUnicast : Text → Type 0
IsLocalUnicast mac =
    (b : ℕ) × (rest : Bytes) × (mac ≡ mac_string (b ∷ rest))
    × (length rest ≡ 5)
    × (b % 2 ≡ 0)
    × (b / 2 % 2 ≡ 1)

-- What a pass fills in besides the MAC.
abbrev pub Fills : Identity → Identity → Type 0
Fills id o =
    (o.index ≡ id.index)
    × (o.model ≡ id.model)
    × TextFrom id.serial (derived_serial (mac_hex o.mac)) o.serial
    × TextFrom id.name (derived_name id.model (mac_hex o.mac)) o.name

-- The second pass leaves an entry without a MAC and fills in the others.
abbrev pub Completes : Text → Identity → Identity → Type 0
Completes [] id o = o ≡ id
Completes (c ∷ mac) id o = (o.mac ≡ c ∷ mac) × Fills id o

-- The third pass fills in an entry without a MAC and leaves the others.
abbrev pub Generates : Text → Identity → Identity → Type 0
Generates [] id o = IsLocalUnicast o.mac × Fills id o
Generates (c ∷ mac) id o = o ≡ id

pick-TextFrom :
    (reserved final : List Text) (s derived v : Text)
    → pick reserved final s derived ≡ some v
    → TextFrom s derived v
unfolding pick
pick-TextFrom reserved final [] derived v h = ground arith
pick-TextFrom reserved final (c ∷ s) derived v h = ground arith

pub complete_entry-Completes :
    (reserved final : IdentitySet) (id : Identity) (mac : Text) (o : Identity) (next : IdentitySet)
    → id.mac ≡ mac
    → complete_entry reserved final id mac ≡ ok (o, next)
    → Completes mac id o
unfolding complete_one
complete_entry-Completes reserved final id [] o next e h =
    subst (λ p. p.0 ≡ id) (ok-injective h) refl
complete_entry-Completes reserved final id (c ∷ mac) o next e h =
    let hex = mac_hex id.mac in
    let (serial, h1, g1) =
      >>=-eq-ok (or_taken (pick reserved.serials final.serials id.serial (derived_serial hex))) _
        h in
    let (name, h2, g2) =
      >>=-eq-ok (or_taken (pick reserved.names final.names id.name (derived_name id.model hex))) _
        g1 in
    subst (λ p. Completes (c ∷ mac) id p.0) (ok-injective g2)
      (
        e,
        (
          refl,
          refl,
          pick-TextFrom reserved.serials final.serials id.serial _ serial (or_taken-some _ h1),
          pick-TextFrom reserved.names final.names id.name _ name (or_taken-some _ h2),
        ),
      )

local_unicast-IsLocalUnicast :
    (raw : Bytes) → length raw ≡ 6 → IsLocalUnicast (mac_string (local_unicast raw))
local_unicast-IsLocalUnicast [] h = cc
local_unicast-IsLocalUnicast (b ∷ raw) h =
    (b / 4 * 4 + 2, raw, refl, omega arith, omega arith, omega arith)

some_injective : {A : Type 0} {a b : A} → ◌≡◌ {A = Option A} (some a) (some b) → a ≡ b
some_injective h = cc

with_mac-filled :
    (id : Identity) (mac : Text) (serial name : Option Text) (o : Identity)
    → with_mac id mac serial name ≡ some o
    → (s : Text) × (n : Text) × (serial ≡ some s)
      × (name ≡ some n)
      × (record id { mac = mac; serial = s; name = n } ≡ o)
with_mac-filled id mac none name o h = cc
with_mac-filled id mac (some s) none o h = cc
with_mac-filled id mac (some s) (some n) o h = (s, n, refl, refl, some_injective h)

candidate-Generates :
    (reserved final : IdentitySet) (id : Identity) (mac : Text) (o : Identity)
    → IsLocalUnicast mac
    → candidate reserved final id mac ≡ some o
    → Generates [] id o
unfolding candidate
candidate-Generates reserved final id mac o local h =
    elim (Bool-cases (text_among mac reserved.macs || text_among mac final.macs)) [
      | inl taken ↦ cc (rw taken at h)
      | inr free ↦
          let (s, n, hs, hn, e) = with_mac-filled id mac _ _ o (rw free at h) in
          subst (Generates [] id) e (
            local,
            (
              refl,
              refl,
              pick-TextFrom reserved.serials final.serials id.serial _ s hs,
              pick-TextFrom reserved.names final.names id.name _ n hn,
            ),
          )
    ]

accept_or-Generates :
    (final : IdentitySet) (id : Identity) (rest : Bytes) (c : Option Identity)
    (retry : Result Failure Generated) (o : Identity) (next : IdentitySet) (left : Bytes)
    → ((p : Identity) → c ≡ some p → Generates [] id p)
    → (retry ≡ ok (o, (next, left)) → Generates [] id o)
    → accept_or final rest c retry ≡ ok (o, (next, left))
    → Generates [] id o
accept_or-Generates final id rest none retry o next left now later h = later h
accept_or-Generates final id rest (some p) retry o next left now later h =
    subst (λ t. Generates [] id t.0) (ok-injective h) (now p refl)

long_enough : (s : Bytes) → ltb (length s) 6 ≡ false → 6 ≤ length s
long_enough s h = ground arith

generate-Generates :
    (attempts : ℕ) (id : Identity) (reserved final : IdentitySet) (source : Bytes) (o : Identity)
    (next : IdentitySet) (left : Bytes)
    → generate attempts id reserved final source ≡ ok (o, (next, left))
    → Generates [] id o
unfolding generate
generate-Generates zero id reserved final source o next left h = cc
generate-Generates (suc attempts) id reserved final source o next left h =
    elim (Bool-cases (ltb (length source) 6)) [
      | inl short ↦ cc (rw short at h)
      | inr enough ↦
          let six : length (take 6 source) ≡ 6 =
            omega (arith, length-take 6 source, long_enough source enough) in
          accept_or-Generates final id (drop 6 source)
            (candidate reserved final id (mac_string (local_unicast (take 6 source))))
            (generate attempts id reserved final (drop 6 source)) o next left
            (λ p c.
              candidate-Generates reserved final id _ p
                (local_unicast-IsLocalUnicast (take 6 source) six) c)
            (generate-Generates attempts id reserved final (drop 6 source) o next left)
            (rw enough at h)
    ]

pub generate_entry-Generates :
    (reserved final : IdentitySet) (id : Identity) (mac : Text) (source : Bytes) (o : Identity)
    (next : IdentitySet) (left : Bytes)
    → generate_entry reserved final id mac source ≡ ok (o, (next, left))
    → Generates mac id o
generate_entry-Generates reserved final id [] source o next left h =
    generate-Generates mac_retries id reserved final source o next left h
generate_entry-Generates reserved final id (c ∷ mac) source o next left h =
    subst (λ t. t.0 ≡ id) (ok-injective h) refl
