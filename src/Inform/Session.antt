-- ===== src/Inform/Session.antt =====
-- inform/session.go: the adoption state of a device and what a controller's reply does to it.
-- Texts are lists of code points, as a JSON decoder gives them. A time is a count of nanoseconds.
pub mod Rules
pub mod Runs
mod Tests
use unifi_emu.Common.{
  ℕ, ◌≡◌, Bool, true, false, not, ◌&&◌, ◌||◌, List, [], ◌∷◌, ◌++◌, Option, none, some, Text, Bytes,
  codes, text_eq, if◌then◌else◌, Result, ok, err,
}
use unifi_emu.Common.Int.{ℤ, is_positive, seconds}
use unifi_emu.Common.Strings.{trim_space, split, cut, parse_bool}
use unifi_emu.Common.Assoc.{lookup, insert}
use unifi_emu.Inform.Descriptor.{Descriptor}
use unifi_emu.Inform.Tables.{mac_header}

-- inform/crypto.go: the authkey of unadopted devices.
abbrev pub default_key : Text
default_key = codes "ba86f2bbe107c7c57eb5f2690775c712"

-- A nil `setstate` map and an empty one behave alike, and both are [].
pub record Session : Type 0 where
  pub desc : Descriptor
  pub mac_header : Bytes
  pub key : Text
  pub cfgversion : Text
  pub adopted : Bool
  pub use_aes_gcm : Bool
  pub inform_url : Text
  pub setstate : List (Text × Bytes)
  pub boot_time : ℕ

unfoldable pub new_session : Descriptor → Text → ℕ → Session
new_session desc inform_url now = record {
  desc = desc;
  mac_header = mac_header desc.mac;
  key = default_key;
  cfgversion = codes "0";
  adopted = false;
  use_aes_gcm = false;
  inform_url = inform_url;
  setstate = [];
  boot_time = now;
}

pub record Response : Type 0 where
  pub type : Text
  pub cmd : Text
  pub key : Text
  pub uri : Text
  pub interval : ℤ
  pub mgmt_cfg : Text
  pub cfgversion : Text
  pub version : Text

-- json.Unmarshal into a response and into a map of raw messages; the error is its text.
pub record Decoder : Type 0 where
  pub response : Bytes → Result Text Response
  pub members : Bytes → Result Text (List (Text × Bytes))

pub data Effect : Type 0 where
  adopting_via_set_adopt : Text → Effect
  adopting_via_mgmt_cfg : Effect
  factory_reset : Effect
  rebooted : Effect
  upgraded : Text → Effect
  interval : ℤ → Effect
  mgmt_cfg : Text → Effect
  unknown_cmd : Text → Effect
  unknown_type : Text → Effect
  decode_error : Text → Effect

-- `if new != "" { old = new }`.
abbrev pub or_keep : Text → Text → Text
or_keep [] old = old
or_keep (c ∷ new) old = c ∷ new

abbrev pub is_empty : Text → Bool
is_empty [] = true
is_empty (c ∷ s) = false

unfoldable pub apply_cmd : Session → ℕ → Response → Session × List Effect
apply_cmd s now r =
    if text_eq r.cmd (codes "set-adopt") || text_eq r.cmd (codes "adopt")
    then (
      record s {
        key = or_keep r.key s.key;
        inform_url = or_keep r.uri s.inform_url;
        adopted = true;
      },
      adopting_via_set_adopt r.uri ∷ [],
    )
    else if text_eq r.cmd (codes "setdefault")
    then (
      record s {
        key = default_key;
        cfgversion = codes "0";
        adopted = false;
        use_aes_gcm = false;
        setstate = [];
      },
      factory_reset ∷ [],
    )
    else if text_eq r.cmd (codes "reboot")
    then (record s { boot_time = now }, rebooted ∷ [])
    else (s, unknown_cmd r.cmd ∷ [])

-- The three values that the loop over the lines of mgmt_cfg collects.
pub record Config : Type 0 where
  pub cfgvers : Text
  pub authkey : Text
  pub use_aes_gcm : Text

unfoldable pub config_pair : Config → Option (Text × Text) → Config
config_pair c none = c
config_pair c (some (k, v)) =
    if text_eq k (codes "cfgversion")
    then record c { cfgvers = v }
    else if text_eq k (codes "authkey")
    then record c { authkey = v }
    else if text_eq k (codes "use_aes_gcm")
    then record c { use_aes_gcm = v }
    else c

unfoldable pub config_lines : Config → List Text → Config
config_lines c [] = c
config_lines c (line ∷ lines) = config_lines (config_pair c (cut b'=' (trim_space line))) lines

unfoldable pub read_config : Text → Config
unfolding config_lines config_pair
read_config text =
    config_lines (record { cfgvers = []; authkey = []; use_aes_gcm = [] }) (split b'\n' text)

abbrev pub gcm_choice : Option Bool → Bool → Bool
gcm_choice none old = old
gcm_choice (some enabled) old = enabled

abbrev pub new_gcm : Text → Bool → Bool
new_gcm [] old = old
new_gcm (c ∷ t) old = gcm_choice (parse_bool (c ∷ t)) old

unfoldable pub apply_setparam : Session → Response → Session × List Effect
apply_setparam s r =
    let c = read_config r.mgmt_cfg in
    let s1 = record s { cfgversion = or_keep c.cfgvers s.cfgversion } in
    if not (is_empty c.authkey) && not (text_eq c.authkey default_key) && text_eq s.key default_key
    then (
      record s1 {
        key = c.authkey;
        adopted = true;
        use_aes_gcm = new_gcm c.use_aes_gcm s.use_aes_gcm;
      },
      mgmt_cfg r.mgmt_cfg ∷ adopting_via_mgmt_cfg ∷ [],
    )
    else (record s1 { use_aes_gcm = new_gcm c.use_aes_gcm s.use_aes_gcm }, mgmt_cfg r.mgmt_cfg ∷ [])

abbrev pub echoed_keys : List Text
echoed_keys =
    codes "radio_table" ∷ codes "vap_table" ∷ codes "port_table" ∷ codes "port_overrides" ∷ []

abbrev pub copy_found : Text → Option Bytes → List (Text × Bytes) → List (Text × Bytes)
copy_found k none m = m
copy_found k (some v) m = insert k v m

unfoldable pub copy_keys :
    List Text → List (Text × Bytes) → List (Text × Bytes) → List (Text × Bytes)
copy_keys [] raw m = m
copy_keys (k ∷ ks) raw m = copy_keys ks raw (copy_found k (lookup k raw) m)

abbrev pub setstate_decoded :
    Session → Text → Result Text (List (Text × Bytes)) → Session × List Effect
setstate_decoded s cfgversion (err e) = (s, decode_error e ∷ [])
setstate_decoded s cfgversion (ok raw) = (
  record s {
    cfgversion = or_keep cfgversion s.cfgversion;
    setstate = copy_keys echoed_keys raw s.setstate;
  },
  [],
)

unfoldable pub apply_setstate : Decoder → Session → Bytes → Text → Session × List Effect
apply_setstate d s body cfgversion = setstate_decoded s cfgversion (d.members body)

unfoldable pub apply_upgrade : Session → ℕ → Text → Session × List Effect
apply_upgrade s now version =
    let desc' = record (s.desc) { version = or_keep version s.desc.version } in
    (record s { desc = desc'; boot_time = now }, upgraded version ∷ [])

unfoldable pub apply_noop : Session → ℤ → Session × List Effect
apply_noop s n = (s, if is_positive n then interval (seconds n) ∷ [] else [])

-- The `switch r.Type`.
unfoldable pub dispatch : Decoder → Session → ℕ → Bytes → Response → Session × List Effect
dispatch d s now body r =
    if text_eq r.type (codes "cmd")
    then apply_cmd s now r
    else if text_eq r.type (codes "setparam")
    then apply_setparam s r
    else if text_eq r.type (codes "setstate")
    then apply_setstate d s body r.cfgversion
    else if text_eq r.type (codes "noop")
    then apply_noop s r.interval
    else if text_eq r.type (codes "upgrade")
    then apply_upgrade s now r.version
    else (s, unknown_type r.type ∷ [])

abbrev pub apply_decoded :
    Decoder → Session → ℕ → Bytes → Result Text Response → Session × List Effect
apply_decoded d s now body (err e) = (s, decode_error e ∷ [])
apply_decoded d s now body (ok r) = dispatch d s now body r

unfoldable pub apply : Decoder → Session → ℕ → Bytes → Session × List Effect
unfolding dispatch
apply d s now body = apply_decoded d s now body (d.response body)
