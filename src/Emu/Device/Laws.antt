-- ===== src/Emu/Device/Laws.antt =====
-- device.go: the observable state of a device against its session's adoption.
use unifi_emu.Common.{ℕ, ◌≡◌, false, List, [], ◌∷◌, Text, Bytes, Result, ok, err, arith}
use unifi_emu.Common.Int.{ℤ}
use unifi_emu.Inform.Session.{
  Session, Response, Decoder, Effect, apply_cmd, apply_setparam, setstate_decoded, apply_upgrade,
  apply_noop, unknown_type, decode_error,
}
use unifi_emu.Inform.Session.Rules.{apply_cases}
use unifi_emu.Emu.Device.{Device, pending, reflect_all, apply_response}

-- PENDING exactly while the session is not adopted.
pub record IsCoherent (d : Device) : Type 0 where
  pub pending_unadopted : d.state ≡ pending → d.session.adopted ≡ false
  pub unadopted_pending : d.session.adopted ≡ false → d.state ≡ pending

abbrev pub reflected : Device → Session × List Effect → Device
reflected d (s, es) = (reflect_all (record d { session = s }) es).0

module _ (d : Device) (h : IsCoherent d) where
  cmd-IsCoherent : (now : ℕ) (r : Response) → IsCoherent (reflected d (apply_cmd d.session now r))
  unfolding apply_cmd reflect_all
  cmd-IsCoherent now r = ground arith

  setparam-IsCoherent : (r : Response) → IsCoherent (reflected d (apply_setparam d.session r))
  unfolding apply_setparam reflect_all
  setparam-IsCoherent r = ground arith

  setstate-IsCoherent :
      (v : Text) (m : Result Text (List (Text × Bytes)))
      → IsCoherent (reflected d (setstate_decoded d.session v m))
  unfolding reflect_all
  setstate-IsCoherent v (err e) = ground arith
  setstate-IsCoherent v (ok raw) = ground arith

  upgrade-IsCoherent :
      (now : ℕ) (v : Text) → IsCoherent (reflected d (apply_upgrade d.session now v))
  unfolding apply_upgrade reflect_all
  upgrade-IsCoherent now v = ground arith

  noop-IsCoherent : (n : ℤ) → IsCoherent (reflected d (apply_noop d.session n))
  unfolding apply_noop reflect_all
  noop-IsCoherent n = ground arith

  quiet-IsCoherent :
      (t : Text)
      → IsCoherent (reflected d (d.session, unknown_type t ∷ []))
        × IsCoherent (reflected d (d.session, decode_error t ∷ []))
  unfolding reflect_all
  quiet-IsCoherent t = ground arith

-- Every reply keeps the agreement.
pub apply_response-IsCoherent :
    (dec : Decoder) (d : Device) (now : ℕ) (body : Bytes)
    → IsCoherent d
    → IsCoherent (apply_response dec d now body).0
unfolding apply_response
apply_response-IsCoherent dec d now body h =
    apply_cases (λ o. IsCoherent (reflected d o)) dec d.session now body (cmd-IsCoherent d h now)
      (setparam-IsCoherent d h) (setstate-IsCoherent d h) (noop-IsCoherent d h)
      (upgrade-IsCoherent d h now) (λ t. (quiet-IsCoherent d h t).0)
      (λ t. (quiet-IsCoherent d h t).1)
