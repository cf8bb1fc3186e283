-- ===== src/Inform/Session/Rules.antt =====
-- inform/session.go: what a reply may change of the key, and what holds between replies.
use unifi_emu.Common.{
  ℕ, ◌≡◌, ◌≢◌, refl, ◌⊎◌, inl, inr, false, List, [], ◌∷◌, Option, none, some, Text, Bytes, codes,
  text_eq, text_eq_iff, Result, ok, err, arith, All, Bool-cases,
}
use unifi_emu.Common.Int.{ℤ}
use unifi_emu.Common.Assoc.{lookup, insert}
use unifi_emu.Inform.Descriptor.{Descriptor}
use unifi_emu.Inform.Tables.{mac_header}
use unifi_emu.Inform.Session.{
  Session, Response, Decoder, Effect, default_key, new_session, apply_cmd, apply_setparam,
  apply_setstate, setstate_decoded, apply_upgrade, apply_noop, dispatch, apply_decoded,
  unknown_type, apply, copy_keys, copy_found, echoed_keys, decode_error,
}

setparam_key_kept :
    (s : Session) (r : Response)
    → text_eq s.key default_key ≡ false
    → ((apply_setparam s r).0.key ≡ s.key) × ((apply_setparam s r).0.adopted ≡ s.adopted)
unfolding apply_setparam
setparam_key_kept s r h = ground arith

setstate_key_kept :
    (d : Decoder) (s : Session) (body : Bytes) (v : Text)
    → ((apply_setstate d s body v).0.key ≡ s.key)
      × ((apply_setstate d s body v).0.adopted ≡ s.adopted)
unfolding apply_setstate
setstate_key_kept d s body v = ground arith

dispatch_key_kept :
    (d : Decoder) (s : Session) (now : ℕ) (body : Bytes) (r : Response)
    → text_eq r.type (codes "cmd") ≡ false
    → text_eq s.key default_key ≡ false
    → ((dispatch d s now body r).0.key ≡ s.key) × ((dispatch d s now body r).0.adopted ≡ s.adopted)
unfolding dispatch apply_upgrade apply_noop
dispatch_key_kept d s now body r nc nk =
    ground (arith, setparam_key_kept s r nk, setstate_key_kept d s body r.cfgversion)

pub text_ne : (a b : Text) → a ≢ b → text_eq a b ≡ false
text_ne a b h = ground (arith, text_eq_iff a b)

-- Once the device holds a key of its own, no reply that decodes to anything but a command changes
-- the key or the adoption:
-- an authkey that mgmt_cfg repeats is ignored.
pub key_kept :
    (d : Decoder) (s : Session) (now : ℕ) (body : Bytes) (r : Response)
    → d.response body ≡ ok r
    → r.type ≢ codes "cmd"
    → s.key ≢ default_key
    → ((apply d s now body).0.key ≡ s.key) × ((apply d s now body).0.adopted ≡ s.adopted)
unfolding apply
key_kept d s now body r e nc nk =
    rw e (dispatch_key_kept d s now body r (text_ne _ _ nc) (text_ne _ _ nk))

-- The keys that a setstate may carry over.
abbrev pub IsEchoed : Text × Bytes → Type 0
IsEchoed (k, v) =
    (k ≡ codes "radio_table")
    ⊎ ((k ≡ codes "vap_table") ⊎ ((k ≡ codes "port_table") ⊎ (k ≡ codes "port_overrides")))

-- What holds of a session between two replies.
pub record IsConsistent (s : Session) : Type 0 where
  pub pending_key : s.adopted ≡ false → s.key ≡ default_key
  pub header : s.mac_header ≡ mac_header s.desc.mac
  pub echoed : All IsEchoed s.setstate

pub new_session-IsConsistent :
    (desc : Descriptor) (url : Text) (now : ℕ) → IsConsistent (new_session desc url now)
unfolding new_session
new_session-IsConsistent desc url now = record {
  pending_key = λ _. refl;
  header = refl;
  echoed = tt;
}

All-insert :
    (P : Text × Bytes → Type 0) (k : Text) (v : Bytes) (m : List (Text × Bytes))
    → P (k, v)
    → All P m
    → All P (insert k v m)
unfolding insert
All-insert P k v [] p h = (p, tt)
All-insert P k v ((j, w) ∷ m) p h =
    let ih = All-insert P k v m p h.1 in
    elim (Bool-cases (text_eq j k)) [ inl e ↦ rw e (p, h.1) | inr e ↦ rw e (h.0, ih) ]

copy_found-IsEchoed :
    (k : Text) (o : Option Bytes) (m : List (Text × Bytes))
    → ((v : Bytes) → IsEchoed (k, v))
    → All IsEchoed m
    → All IsEchoed (copy_found k o m)
copy_found-IsEchoed k none m p h = h
copy_found-IsEchoed k (some v) m p h = All-insert IsEchoed k v m (p v) h

copy_keys-All :
    (ks : List Text) (raw m : List (Text × Bytes))
    → All (λ k. (v : Bytes) → IsEchoed (k, v)) ks
    → All IsEchoed m
    → All IsEchoed (copy_keys ks raw m)
unfolding copy_keys
copy_keys-All [] raw m p h = h
copy_keys-All (k ∷ ks) raw m p h =
    copy_keys-All ks raw (copy_found k (lookup k raw) m) p.1
      (copy_found-IsEchoed k (lookup k raw) m p.0 h)

copy_keys-IsEchoed :
    (raw m : List (Text × Bytes)) → All IsEchoed m → All IsEchoed (copy_keys echoed_keys raw m)
copy_keys-IsEchoed raw m = copy_keys-All echoed_keys raw m (
  λ v. inl refl,
  (λ v. inr (inl refl), (λ v. inr (inr (inl refl)), (λ v. inr (inr (inr refl)), tt))),
)

setstate_decoded-IsConsistent :
    (s : Session) (v : Text) (m : Result Text (List (Text × Bytes)))
    → IsConsistent s
    → IsConsistent (setstate_decoded s v m).0
setstate_decoded-IsConsistent s v (err e) h = h
setstate_decoded-IsConsistent s v (ok raw) h = record {
  pending_key = h.pending_key;
  header = h.header;
  echoed = copy_keys-IsEchoed raw s.setstate h.echoed;
}

apply_setparam-IsConsistent :
    (s : Session) (r : Response) → IsConsistent s → IsConsistent (apply_setparam s r).0
unfolding apply_setparam
apply_setparam-IsConsistent s r h = ground arith

apply_cmd-IsConsistent :
    (s : Session) (now : ℕ) (r : Response) → IsConsistent s → IsConsistent (apply_cmd s now r).0
unfolding apply_cmd
apply_cmd-IsConsistent s now r h = ground arith

dispatch-IsConsistent :
    (d : Decoder) (s : Session) (now : ℕ) (body : Bytes) (r : Response)
    → IsConsistent s
    → IsConsistent (dispatch d s now body r).0
unfolding dispatch apply_upgrade apply_noop apply_setstate
dispatch-IsConsistent d s now body r h = ground (
  arith,
  apply_cmd-IsConsistent s now r h,
  apply_setparam-IsConsistent s r h,
  setstate_decoded-IsConsistent s r.cfgversion (d.members body) h,
)

apply_decoded-IsConsistent :
    (d : Decoder) (s : Session) (now : ℕ) (body : Bytes) (r : Result Text Response)
    → IsConsistent s
    → IsConsistent (apply_decoded d s now body r).0
apply_decoded-IsConsistent d s now body (err e) h = h
apply_decoded-IsConsistent d s now body (ok r) h = dispatch-IsConsistent d s now body r h

-- A session that is not adopted holds the default key, its header is its MAC's, and what it echoes
-- stands under the four keys of a setstate: every reply keeps this.
pub apply-IsConsistent :
    (d : Decoder) (s : Session) (now : ℕ) (body : Bytes)
    → IsConsistent s
    → IsConsistent (apply d s now body).0
unfolding apply
apply-IsConsistent d s now body h = apply_decoded-IsConsistent d s now body (d.response body) h

-- A reply that does not decode changes nothing, and neither does a setstate whose members do not.
pub apply_undecoded :
    (d : Decoder) (s : Session) (now : ℕ) (body : Bytes) (e : Text)
    → d.response body ≡ err e
    → apply d s now body ≡ (s, decode_error e ∷ [])
unfolding apply
apply_undecoded d s now body e h = rw h

module _ {ℓ} (P : Session × List Effect → Type ℓ) (d : Decoder) (s : Session) (now : ℕ)
    (body : Bytes) (on_cmd : (r : Response) → P (apply_cmd s now r))
    (on_setparam : (r : Response) → P (apply_setparam s r))
    (on_setstate : (v : Text) (m : Result Text (List (Text × Bytes))) → P (setstate_decoded s v m))
    (on_noop : (n : ℤ) → P (apply_noop s n)) (on_upgrade : (v : Text) → P (apply_upgrade s now v))
    (on_unknown : (t : Text) → P (s, unknown_type t ∷ []))
    (on_error : (e : Text) → P (s, decode_error e ∷ [])) where
  dispatch_cases : (r : Response) → P (dispatch d s now body r)
  unfolding dispatch apply_setstate
  dispatch_cases r = elim (Bool-cases (text_eq r.type (codes "cmd"))) [
    | inl a ↦ rw a (on_cmd r)
    | inr a ↦ elim (Bool-cases (text_eq r.type (codes "setparam"))) [
      | inl b ↦ rw (a, b) (on_setparam r)
      | inr b ↦ elim (Bool-cases (text_eq r.type (codes "setstate"))) [
        | inl c ↦ rw (a, b, c) (on_setstate r.cfgversion (d.members body))
        | inr c ↦ elim (Bool-cases (text_eq r.type (codes "noop"))) [
          | inl e ↦ rw (a, b, c, e) (on_noop r.interval)
          | inr e ↦ elim (Bool-cases (text_eq r.type (codes "upgrade"))) [
            | inl f ↦ rw (a, b, c, e, f) (on_upgrade r.version)
            | inr f ↦ rw (a, b, c, e, f) (on_unknown r.type)
          ]
        ]
      ]
    ]
  ]

  decoded_cases : (o : Result Text Response) → P (apply_decoded d s now body o)
  decoded_cases (err e) = on_error e
  decoded_cases (ok r) = dispatch_cases r

  -- To prove something of every reply's outcome it is enough to prove it of each handler's.
  pub apply_cases : P (apply d s now body)
  unfolding apply
  apply_cases = decoded_cases (d.response body)
