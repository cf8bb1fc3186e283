-- ===== src/Inform/Payload/Laws.antt =====
-- What a payload says of the session, whatever the controller had it echo.
use unifi_emu.Common.{
  ℕ, ◌≡◌, refl, ap, ◌∙◌, inl, inr, Bool, true, false, not, List, [], ◌∷◌, Option, none, some, Text,
  Bytes, codes, text_eq, if◌then◌else◌, arith, All, Bool-cases,
}
use unifi_emu.Common.Int.{pos}
use unifi_emu.Common.Assoc.{lookup, lookup-insert}
use unifi_emu.Inform.Json.{Json, str, num, bool, raw}
use unifi_emu.Inform.Session.{Session, is_empty, echoed_keys}
use unifi_emu.Inform.Session.Rules.{IsEchoed, IsConsistent}
use unifi_emu.Inform.Payload.{
  Payload, uptime_of, base_payload, udapi_part, gateway_part, switch_part, access_point_part,
  type_part, adopted_part, overlay, build_payload,
}

abbrev echo : Option Bytes → Option Json → Option Json
echo none old = old
echo (some v) old = some (raw v)

-- The overlay wins where it has a key, and hides nothing else.
lookup-overlay :
    (j : Text) (o : List (Text × Bytes)) (m : Payload)
    → lookup j (overlay o m) ≡ echo (lookup j o) (lookup j m)
unfolding overlay lookup
lookup-overlay j [] m = refl
lookup-overlay j ((k, v) ∷ rest) m =
    ground (arith, lookup-insert k j (raw v) (overlay rest m), lookup-overlay j rest m)

-- The keys that `type_part` writes.
abbrev type_keys : List Text
type_keys =
    codes "uplink"
    ∷ codes "netmask"
    ∷ codes "config_network_wan"
    ∷ codes "system-stats"
    ∷ codes "ethernet_table"
    ∷ codes "port_table"
    ∷ codes "vap_table"
    ∷ codes "radio_table_stats"
    ∷ codes "radio_table"
    ∷ []

abbrev Avoids : Text → List Text → Type 0
Avoids k = All (λ j. text_eq j k ≡ false)

lookup-type_part :
    (k : Text) (s : Session) (uptime : ℕ) (m : Payload)
    → Avoids k type_keys
    → lookup k (type_part s.desc uptime m) ≡ lookup k m
unfolding type_part gateway_part switch_part access_point_part
lookup-type_part k s uptime m (h1, (h2, (h3, (h4, (h5, (h6, (h7, (h8, (h9, _))))))))) =
    elim (Bool-cases (text_eq s.desc.type (codes "ugw"))) [
      | inl a ↦ rw a (simp (lookup-insert, h1, h2, h3, h4))
      | inr a ↦ elim (Bool-cases (text_eq s.desc.type (codes "uxg"))) [
        | inl b ↦ rw (a, b) (simp (lookup-insert, h1, h2, h3, h4))
        | inr b ↦ elim (Bool-cases (text_eq s.desc.type (codes "usw"))) [
          | inl c ↦ rw (a, b, c) (simp (lookup-insert, h5, h6))
          | inr c ↦ elim (Bool-cases (text_eq s.desc.type (codes "uap"))) [
            | inl d ↦ rw (a, b, c, d) (simp (lookup-insert, h5, h6, h7, h8, h9))
            | inr d ↦ rw (a, b, c, d)
          ]
        ]
      ]
    ]

-- The keys that every adopted payload adds, and those of the config plane.
abbrev added_keys : List Text
added_keys =
    codes "sys_stats" ∷ codes "bootrom_version" ∷ codes "udapi_caps" ∷ codes "udapi_version" ∷ []

lookup-udapi_part :
    (k : Text) (s : Session) (m : Payload)
    → Avoids k added_keys
    → lookup k (udapi_part s.desc m) ≡ lookup k m
unfolding udapi_part
lookup-udapi_part k s m (_, (_, (h1, (h2, _)))) =
    elim (Bool-cases (is_empty s.desc.udapi_version)) [
      | inl e ↦ rw e
      | inr e ↦ rw e (simp (lookup-insert, h1, h2))
    ]

lookup-adopted_part :
    (k : Text) (s : Session) (uptime : ℕ) (m : Payload)
    → Avoids k type_keys
    → Avoids k added_keys
    → lookup k (adopted_part s uptime m) ≡ (
        if s.adopted
        then (if text_eq (codes "state") k then some (num (pos 4)) else lookup k m)
        else lookup k m)
unfolding adopted_part
lookup-adopted_part k s uptime m h (a1, (a2, _)) = elim (Bool-cases s.adopted) [
  | inl e ↦ rw e (lookup-type_part k s uptime _ h ∙ simp (lookup-insert, a1, a2))
  | inr e ↦ rw e
]

lookup_unechoed :
    (k : Text) (o : List (Text × Bytes)) → Avoids k echoed_keys → All IsEchoed o → lookup k o ≡ none
unfolding lookup
lookup_unechoed k [] h e = refl
lookup_unechoed k ((j, v) ∷ o) (h1, (h2, (h3, (h4, h5)))) (e, es) =
    let ih = lookup_unechoed k o (h1, (h2, (h3, (h4, h5)))) es in
    elim e [
      | inl p ↦ rw (p, h1) ih
      | inr (inl p) ↦ rw (p, h2) ih
      | inr (inr (inl p)) ↦ rw (p, h3) ih
      | inr (inr (inr p)) ↦ rw (p, h4) ih
    ]

lookup-build_payload :
    (k : Text) (s : Session) (now : ℕ)
    → IsConsistent s
    → Avoids k echoed_keys
    → Avoids k type_keys
    → Avoids k added_keys
    → lookup k (build_payload s now) ≡ (
        if s.adopted
        then (if text_eq (codes "state") k
            then some (num (pos 4))
            else lookup k (base_payload s now))
        else lookup k (base_payload s now))
unfolding build_payload
lookup-build_payload k s now h e1 e2 e3 =
    lookup-overlay k s.setstate _
    ∙ ap
        (λ o.
          echo o
            (lookup k (adopted_part s (uptime_of s now) (udapi_part s.desc (base_payload s now)))))
        (lookup_unechoed k s.setstate e1 h.echoed)
    ∙ lookup-adopted_part k s (uptime_of s now) _ e2 e3
    ∙ rw (lookup-udapi_part k s (base_payload s now) e3)

avoids : Text → List Text → Bool
avoids k [] = true
avoids k (j ∷ js) = let rest = avoids k js in if text_eq j k then false else rest

avoids-Avoids : (k : Text) (js : List Text) → avoids k js ≡ true → Avoids k js
unfolding avoids
avoids-Avoids k [] h = tt
avoids-Avoids k (j ∷ js) h = elim (Bool-cases (text_eq j k)) [
  | inl e ↦ cc (rw e at h)
  | inr e ↦ (e, avoids-Avoids k js (rw e at h))
]

payload_at :
    (k : Text) (s : Session) (now : ℕ)
    → IsConsistent s
    → avoids k echoed_keys ≡ true
    → avoids k type_keys ≡ true
    → avoids k added_keys ≡ true
    → lookup k (build_payload s now) ≡ (
        if s.adopted
        then (if text_eq (codes "state") k
            then some (num (pos 4))
            else lookup k (base_payload s now))
        else lookup k (base_payload s now))
payload_at k s now h e1 e2 e3 =
    lookup-build_payload k s now h (avoids-Avoids k _ e1) (avoids-Avoids k _ e2)
      (avoids-Avoids k _ e3)

either {ℓ} : {A : Type ℓ} (b : Bool) (x : A) → (if b then x else x) ≡ x
either true x = refl
either false x = refl

by_adoption :
    (b : Bool)
    → (if b then some (num (pos 4)) else some (num (pos 1))) ≡ some (num (pos (if b then 4 else 1)))
by_adoption true = refl
by_adoption false = refl

-- A consistent session reports itself: the device state 4 when adopted and 1 before, the two
-- default flags against the adoption, and its own key, config version and inform URL. Nothing that
-- a setstate pushed can stand in for them.
pub payload_reports :
    (s : Session) (now : ℕ)
    → IsConsistent s
    → (lookup (codes "state") (build_payload s now) ≡ some (num (pos (if s.adopted then 4 else 1))))
      × (lookup (codes "default") (build_payload s now) ≡ some (bool (not s.adopted)))
      × (lookup (codes "_default_key") (build_payload s now) ≡ some (bool (not s.adopted)))
      × (lookup (codes "x_authkey") (build_payload s now) ≡ some (str s.key))
      × (lookup (codes "cfgversion") (build_payload s now) ≡ some (str s.cfgversion))
      × (lookup (codes "inform_url") (build_payload s now) ≡ some (str s.inform_url))
unfolding base_payload lookup text_eq avoids
payload_reports s now h = (
  payload_at (codes "state") s now h refl refl refl ∙ by_adoption s.adopted,
  payload_at (codes "default") s now h refl refl refl ∙ either s.adopted _,
  payload_at (codes "_default_key") s now h refl refl refl ∙ either s.adopted _,
  payload_at (codes "x_authkey") s now h refl refl refl ∙ either s.adopted _,
  payload_at (codes "cfgversion") s now h refl refl refl ∙ either s.adopted _,
  payload_at (codes "inform_url") s now h refl refl refl ∙ either s.adopted _,
)
