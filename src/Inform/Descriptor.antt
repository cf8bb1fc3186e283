-- ===== src/Inform/Descriptor.antt =====
-- inform/descriptor.go: the identity and shape of a device. A Go int is an integer.
use unifi_emu.Common.{Bool, List, Text}
use unifi_emu.Common.Int.{ℤ, pos}

pub record Port : Type 0 where
  pub if_name : Text
  pub name : Text
  pub port_idx : ℤ
  pub media : Text
  pub poe_caps : ℤ
  pub is_uplink : Bool

pub record Radio : Type 0 where
  pub name : Text
  pub radio : Text
  pub channel : ℤ
  pub ht : Text
  pub min_tx_power : ℤ
  pub max_tx_power : ℤ
  pub nss : ℤ
  pub radio_caps : ℤ
  pub antenna_gain : ℤ

pub record Descriptor : Type 0 where
  pub mac : Text
  pub serial : Text
  pub model : Text
  pub model_display : Text
  pub version : Text
  pub ip : Text
  pub hostname : Text
  pub type : Text
  pub fw_caps : ℤ
  pub udapi_version : Text
  pub udapi_caps : ℤ
  pub ports : List Port
  pub radios : List Radio
  pub ssids : List Text

abbrev pub placeholder_fw_caps : ℤ
placeholder_fw_caps = pos 3
