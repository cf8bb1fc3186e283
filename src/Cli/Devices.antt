-- ===== src/Cli/Devices.antt =====
-- cmd/unifi-emu/devices.go: the fleet that the flags and the environment name. Files and the decoding
-- of YAML and JSON are arguments.
use unifi_emu.Common.{
  ℕ, zero, suc, Bool, true, false, not, ◌&&◌, ◌||◌, List, [], ◌∷◌, ◌++◌, Option, none, some, Text,
  Bytes, codes, length, replicate, ltb, ◌==◌, if◌then◌else◌, Result, ok, err, ◌>>=◌, ◌>>◌, fail_if,
}
use unifi_emu.Common.Int.{ℤ, pos, negsuc}
use unifi_emu.Common.Strings.{trim_space, split, cut}
use unifi_emu.Inform.Session.{is_empty}
use unifi_emu.Emu.Profile.{DeviceSpec}
use unifi_emu.Net.{
  Decoded, decoded, ended, malformed, Following, nothing_more, another_document, broken, atoi,
}

pub data FleetError : Type 0 where
  ambiguous : List Text → FleetError
  not_combined : Text → Text → FleetError
  read_failed parse_failed multiple_documents trailing_content no_devices no_models : FleetError
  empty_model bad_count unknown_model : Text → FleetError
  bad_mac_base bad_ip_base second_gateway outside_subnet : FleetError

abbrev pub single_flags : List Text
single_flags =
    codes "mac"
    ∷ codes "type"
    ∷ codes "model"
    ∷ codes "model-display"
    ∷ codes "version"
    ∷ codes "name"
    ∷ codes "ip"
    ∷ []

pub record FleetSources : Type 0 where
  pub devices_file : Text
  pub env_inline : Text
  pub devices_json : Text
  pub models_flag : Text
  pub models : Text

pub record ContainerDevice : Type 0 where
  pub model : Text
  pub mac : Text
  pub serial : Text
  pub name : Text

-- os.ReadFile, and the decoders of yaml.v3 and encoding/json with unknown fields refused. The JSON
-- decoder tells whether there is more.
pub record Readers : Type 0 where
  pub read_file : Text → Option Bytes
  pub yaml : Bytes → Decoded (List DeviceSpec) × Following
  pub json : Text → Decoded (List ContainerDevice) × Bool

abbrev pub plain_spec : Text → Text → Text → Text → DeviceSpec
plain_spec model mac serial name = record {
  mac = mac;
  serial = serial;
  type = [];
  model = model;
  model_display = [];
  version = [];
  name = name;
  ip = [];
  ports = pos 0;
  ssids = [];
  fw_caps = none;
}

abbrev pub models_text : FleetSources → Text × Bool
models_text s = if not (is_empty s.models_flag) then (s.models_flag, true) else (s.models, false)

abbrev pub is_blank : Text → Bool
is_blank s = is_empty (trim_space s)

abbrev pub when_set : Bool → Text → List Text → List Text
when_set false name rest = rest
when_set true name rest = name ∷ rest

unfoldable pub active_sources : FleetSources → List Text
active_sources s = when_set (not (is_empty s.devices_file)) (codes "-devices") (
    when_set (not (is_blank s.env_inline)) (codes "SIM_DEVICES") (
      when_set (not (is_blank s.devices_json)) (codes "UNIFI_EMU_DEVICES_JSON") (
        when_set (not (is_blank s.models_flag)) (codes "-models")
          (when_set (not (is_blank s.models)) (codes "SIM_MODELS") []))))

unfoldable pub flags_set : (Text → Bool) → List Text → List Text
flags_set set [] = []
flags_set set (f ∷ fs) = when_set (set f) f (flags_set set fs)

abbrev pub specs_of : Decoded (List DeviceSpec) → Result FleetError (List DeviceSpec)
specs_of (decoded specs) = ok specs
specs_of ended = ok []
specs_of malformed = err parse_failed

abbrev pub single_document : Following → Result FleetError (Unit {0})
single_document nothing_more = ok tt
single_document another_document = err multiple_documents
single_document broken = err parse_failed

unfoldable pub decode_devices : Readers → Bytes → Result FleetError (List DeviceSpec)
decode_devices r b = do
  let (first, following) = r.yaml b
  specs ← specs_of first
  single_document following
  fail_if (length specs == 0) no_devices
  ok specs

abbrev pub decode_file : Readers → Option Bytes → Result FleetError (List DeviceSpec)
decode_file r none = err read_failed
decode_file r (some b) = decode_devices r b

unfoldable pub load_devices : Readers → Text → Text → Result FleetError (List DeviceSpec)
load_devices r file_path env_inline =
    if not (is_empty file_path)
    then decode_file r (r.read_file file_path)
    else if not (is_blank env_inline)
    then decode_devices r env_inline
    else ok []

unfoldable pub container_specs : List ContainerDevice → List DeviceSpec
container_specs [] = []
container_specs (e ∷ es) = plain_spec e.model e.mac e.serial e.name ∷ container_specs es

abbrev pub entries_of : Decoded (List ContainerDevice) → Result FleetError (List ContainerDevice)
entries_of (decoded entries) = ok entries
entries_of ended = err parse_failed
entries_of malformed = err parse_failed

unfoldable pub parse_devices_json : Readers → Text → Result FleetError (List DeviceSpec)
parse_devices_json r s = do
  let (first, more) = r.json s
  entries ← entries_of first
  fail_if more trailing_content
  fail_if (length entries == 0) no_devices
  ok (container_specs entries)

abbrev pub checked_count : Text → Option ℤ → Result FleetError ℕ
checked_count item none = err (bad_count item)
checked_count item (some (negsuc n)) = err (bad_count item)
checked_count item (some (pos zero)) = err (bad_count item)
checked_count item (some (pos (suc n))) = ok (suc n)

abbrev pub count_of : Text → Option (Text × Text) → Result FleetError ℕ
count_of item none = ok 1
count_of item (some (model, count)) = checked_count item (atoi (trim_space count))

abbrev pub model_of : Text → Option (Text × Text) → Text
model_of item none = item
model_of item (some (model, count)) = model

-- An item that is not empty.
unfoldable pub parse_item : Text → Result FleetError (List DeviceSpec)
parse_item item = do
  let parts = cut b':' item
  let model = trim_space (model_of item parts)
  fail_if (is_empty model) (empty_model item)
  count ← count_of item parts
  ok (replicate count (plain_spec model [] [] []))

unfoldable pub parse_items : List Text → Result FleetError (List DeviceSpec)
parse_items [] = ok []
parse_items (item ∷ items) = do
  specs ← (if is_blank item then ok [] else parse_item (trim_space item))
  rest ← parse_items items
  ok (specs ++ rest)

unfoldable pub parse_models_list : Text → Result FleetError (List DeviceSpec)
parse_models_list s = do
  specs ← parse_items (split b',' s)
  fail_if (length specs == 0) no_models
  ok specs

abbrev pub first_of : List Text → Text
first_of [] = []
first_of (a ∷ rest) = a

abbrev pub refuse_first : List Text → List Text → Result FleetError (Unit {0})
refuse_first active [] = ok tt
refuse_first active (f ∷ fs) = err (not_combined (first_of active) f)

-- The fleet of the one source that is set, and the flags that it overrides.
unfoldable pub one_source :
    Readers → FleetSources → (Text → Bool) → Result FleetError (List DeviceSpec × List Text)
one_source r src set = do
  let (models, from_flag) = models_text src
  let flag_source = not (is_empty src.devices_file) || (not (is_blank models) && from_flag)
  let set_flags = flags_set set single_flags
  (if flag_source then refuse_first (active_sources src) set_flags else ok tt)
  specs ←
      (if not (is_blank models)
        then parse_models_list models
        else if not (is_blank src.devices_json)
        then parse_devices_json r src.devices_json
        else load_devices r src.devices_file src.env_inline)
  ok (specs, if flag_source then [] else set_flags)

-- No specification at all is the single-device mode.
unfoldable pub fleet_specs :
    Readers → FleetSources → (Text → Bool) → Result FleetError (List DeviceSpec × List Text)
fleet_specs r src set =
    if ltb 1 (length (active_sources src))
    then err (ambiguous (active_sources src))
    else if length (active_sources src) == 0
    then ok ([], [])
    else one_source r src set

unfoldable pub default_fleet : Readers → Text → (Text → Bool) → Result FleetError (List DeviceSpec)
default_fleet r default_file set =
    if is_empty default_file
    then ok []
    else if length (flags_set set single_flags) == 0
    then load_devices r default_file []
    else ok []
