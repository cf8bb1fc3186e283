-- ===== src/Emu/Device.antt =====
-- device.go: an emulated device, its session and its observable state.
-- A log line is a value; the lines of a call are returned with the new state.
pub mod Laws
use unifi_emu.Common.{
  ℕ, ◌≡◌, Bool, true, false, List, [], ◌∷◌, ◌++◌, Option, none, some, Text, Bytes, codes, length,
  text_eq, ◌==◌, if◌then◌else◌, Result, ok, err, ◌>>=◌, ◌*◌,
}
use unifi_emu.Common.Int.{ℤ, pos, nanoseconds}
use unifi_emu.Common.Mac.{parse_mac}
use unifi_emu.Inform.Session.{
  Session, Decoder, Effect, adopting_via_set_adopt, adopting_via_mgmt_cfg, factory_reset, rebooted,
  upgraded, interval, mgmt_cfg, unknown_cmd, unknown_type, decode_error, new_session, apply,
}
use unifi_emu.Emu.Profile.{
  ModelProfile, DeviceSpec, Registry, profile, build_descriptor, default_text,
}

pub data DeviceState : Type 0 where
  pending adopting connected : DeviceState

pub data Log : Type 0 where
  set_adopt_received : Text → Log
  authkey_adopted : Log
  setdefault_received : Log
  reboot_requested : Log
  upgrade_applied : Text → Log
  mgmt_cfg_seen : Text → Log
  ignoring_cmd : Text → Log
  ignoring_type : Text → Log
  undecodable_response : Text → Log
  encode_failed : Log
  request_failed : Log
  status_not_found : ℕ → Log
  status_first : ℕ → Log
  status_after : ℕ → ℕ → ℕ → Log
  status_still : ℕ → ℕ → Log
  unexpected_status : ℕ → Log
  decode_failed : Log
  handshake_complete : Log

-- Times and intervals are in nanoseconds.
pub record Device : Type 0 where
  pub spec : DeviceSpec
  pub session : Session
  pub state : DeviceState
  pub interval : ℤ
  pub last_status : ℕ
  pub status_run : ℕ
  pub last_status_log : ℕ
  pub last_mgmt : Text

pub data Error : Type 0 where
  unknown_model bad_mac type_mismatch : Error
  after_start duplicate_mac : Error

abbrev pub or_unknown : Option ModelProfile → Result Error ModelProfile
or_unknown none = err unknown_model
or_unknown (some p) = ok p

abbrev pub six_bytes : Option Bytes → Result Error Bytes
six_bytes none = err bad_mac
six_bytes (some hw) = if length hw == 6 then ok hw else err bad_mac

-- The type of a specification: the profile's, where it is left open.
abbrev pub check_type : Text → Text → Result Error Text
check_type [] profile_type = ok profile_type
check_type (c ∷ t) profile_type =
    if text_eq (c ∷ t) profile_type then ok (c ∷ t) else err type_mismatch

unfoldable pub complete_spec : DeviceSpec → Text → ModelProfile → DeviceSpec
complete_spec spec type prof = record spec {
  type = type;
  model_display = default_text spec.model_display prof.model_display;
  version = default_text spec.version prof.version;
  name = default_text spec.name (codes "UBNT");
}

unfoldable pub new_device : Registry → DeviceSpec → Text → ℕ → Result Error Device
unfolding complete_spec
new_device registry spec inform_url now = do
  prof ← or_unknown (profile registry spec.model)
  hw ← six_bytes (parse_mac spec.mac)
  type ← check_type spec.type prof.type
  let full = complete_spec spec type prof
  ok (record {
    spec = full;
    session = new_session (build_descriptor full prof) inform_url now;
    state = pending;
    interval = pos (10 * nanoseconds);
    last_status = 0;
    status_run = 0;
    last_status_log = 0;
    last_mgmt = [];
  })

-- One effect of a reply: the new device, and the lines to log.
unfoldable pub reflect : Device → Effect → Device × List Log
reflect d (adopting_via_set_adopt url) =
    (record d { state = adopting }, set_adopt_received url ∷ [])
reflect d adopting_via_mgmt_cfg = (record d { state = adopting }, authkey_adopted ∷ [])
reflect d factory_reset = (record d { state = pending }, setdefault_received ∷ [])
reflect d rebooted = (d, reboot_requested ∷ [])
reflect d (upgraded version) = (d, upgrade_applied version ∷ [])
reflect d (interval n) = (record d { interval = n }, [])
reflect d (mgmt_cfg text) =
    if text_eq text d.last_mgmt
    then (d, [])
    else (record d { last_mgmt = text }, mgmt_cfg_seen text ∷ [])
reflect d (unknown_cmd cmd) = (d, ignoring_cmd cmd ∷ [])
reflect d (unknown_type type) = (d, ignoring_type type ∷ [])
reflect d (decode_error e) = (d, undecodable_response e ∷ [])

-- The loop over the effects.
unfoldable pub reflect_all : Device → List Effect → Device × List Log
unfolding reflect
reflect_all d [] = (d, [])
reflect_all d (e ∷ es) =
    let (d1, logs1) = reflect d e in let (d2, logs2) = reflect_all d1 es in (d2, logs1 ++ logs2)

unfoldable pub apply_response : Decoder → Device → ℕ → Bytes → Device × List Log
apply_response dec d now body =
    let (s, effects) = apply dec d.session now body in
    reflect_all (record d { session = s }) effects
