-- ===== src/Emu/Profile.antt =====
-- models.go, registry.go, profile.go and descriptor.go: model profiles, and the descriptor that a
-- device's specification and its profile give. The embedded catalog is an argument.
use unifi_emu.Common.{
  ℕ, zero, suc, ◌+◌, ◌-◌, Bool, true, false, List, [], ◌∷◌, ◌++◌, map, Option, none, some, Text,
  codes, text_eq, ◌==◌, if◌then◌else◌,
}
use unifi_emu.Common.Int.{ℤ, pos, negsuc}
use unifi_emu.Common.Strings.{upper}
use unifi_emu.Common.Assoc.{lookup, insert}
use unifi_emu.Inform.Descriptor.{Port, Radio, Descriptor, placeholder_fw_caps}
use unifi_emu.Inform.Tables.{decimal_text}

pub record ModelProfile : Type 0 where
  pub model : Text
  pub model_display : Text
  pub type : Text
  pub version : Text
  pub udapi_version : Text
  pub udapi_caps : ℤ
  pub fw_caps : ℤ
  pub ports : List Port
  pub radios : List Radio

-- device.go: one entry of a fleet. A nil `FWCaps` is none.
pub record DeviceSpec : Type 0 where
  pub mac : Text
  pub serial : Text
  pub type : Text
  pub model : Text
  pub model_display : Text
  pub version : Text
  pub name : Text
  pub ip : Text
  pub ports : ℤ
  pub ssids : List Text
  pub fw_caps : Option ℤ

abbrev pub Registry : Type 0
Registry = List (Text × ModelProfile)

unfoldable pub default_channel : Text → ℤ
default_channel radio =
    if text_eq radio (codes "ng")
    then pos 1
    else if text_eq radio (codes "na")
    then pos 36
    else pos 5

with_channel : Radio → Radio
with_channel r = record r { channel = default_channel r.radio }

with_channels : ModelProfile → ModelProfile
with_channels m = record m { radios = map with_channel m.radios }

-- The loop that fills the registry: a later model of the same name wins.
fill_registry : List ModelProfile → Registry → Registry
fill_registry [] registry = registry
fill_registry (m ∷ models) registry =
    fill_registry models (insert m.model (with_channels m) registry)

registry_of : Option (List ModelProfile) → Option Registry
registry_of none = none
registry_of (some []) = none
registry_of (some (m ∷ models)) = some (fill_registry (m ∷ models) [])

-- `loadRegistry` of the decoded catalog: none is its panic, on an asset that does not decode or is
-- empty.
unfoldable pub load_registry : Option (List ModelProfile) → Option Registry
unfolding registry_of fill_registry with_channels with_channel
load_registry catalog = registry_of catalog

unfoldable pub profile : Registry → Text → Option ModelProfile
profile registry model = lookup model registry

-- strings.ReplaceAll(s, ":", "").
unfoldable pub without_colons : Text → Text
without_colons [] = []
without_colons (c ∷ s) = let rest = without_colons s in if c == b':' then rest else c ∷ rest

abbrev pub default_text : Text → Text → Text
default_text [] default = default
default_text (c ∷ s) default = c ∷ s

unfoldable pub resolve_serial : DeviceSpec → Text
resolve_serial spec = default_text spec.serial (map upper (without_colons spec.mac))

abbrev pub is_zero_ℤ : ℤ → Bool
is_zero_ℤ (pos zero) = true
is_zero_ℤ (pos (suc n)) = false
is_zero_ℤ (negsuc n) = false

abbrev pub caps_or : Option ℤ → ℤ → ℤ
caps_or (some caps) captured = caps
caps_or none captured = if is_zero_ℤ captured then placeholder_fw_caps else captured

unfoldable pub resolve_fw_caps : DeviceSpec → ModelProfile → ℤ
resolve_fw_caps spec prof = caps_or spec.fw_caps prof.fw_caps

-- The port of index i, and those from i on, `n` of them.
port_at : ℕ → Port
port_at i = record {
  if_name = codes "eth" ++ decimal_text (i - 1);
  name = codes "Port " ++ decimal_text i;
  port_idx = pos i;
  media = codes "GE";
  poe_caps = pos 0;
  is_uplink = i == 1;
}

unfoldable pub ports_from : ℕ → ℕ → List Port
unfolding port_at
ports_from i zero = []
ports_from i (suc n) = port_at i ∷ ports_from (i + 1) n

abbrev pub override_ports : ℤ → List Port → List Port
override_ports (pos zero) layout = layout
override_ports (pos (suc n)) layout = ports_from 1 (suc n)
override_ports (negsuc n) layout = layout

unfoldable pub resolve_ports : DeviceSpec → ModelProfile → List Port
resolve_ports spec prof = override_ports spec.ports prof.ports

unfoldable pub build_descriptor : DeviceSpec → ModelProfile → Descriptor
build_descriptor spec prof = record {
  mac = spec.mac;
  serial = resolve_serial spec;
  model = spec.model;
  model_display = spec.model_display;
  version = spec.version;
  ip = spec.ip;
  hostname = spec.name;
  type = prof.type;
  fw_caps = resolve_fw_caps spec prof;
  udapi_version = prof.udapi_version;
  udapi_caps = prof.udapi_caps;
  ports = resolve_ports spec prof;
  radios = prof.radios;
  ssids = spec.ssids;
}
