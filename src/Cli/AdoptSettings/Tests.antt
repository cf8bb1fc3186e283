-- ===== src/Cli/AdoptSettings/Tests.antt =====
-- A password from a file, and settings without the switch.
use unifi_emu.Common.{
  ◌≡◌, refl, Bool, true, false, [], ◌∷◌, ◌++◌, Option, some, Text, codes, text_eq, if◌then◌else◌,
  ok, err,
}
use unifi_emu.Adopt.Dialect.{unifi_os, ParsedUrl, dialect_for_url}
use unifi_emu.Cli.AdoptSettings.{
  AdoptSettings, default_adopt_timeout, resolve_adopt, enabled_config, has_settings, trim_right_of,
  switched_off,
}

abbrev settings : Bool → AdoptSettings
settings enabled = record {
  enabled = enabled;
  url = codes "https://console/";
  site = [];
  dialect = [];
  timeout = default_adopt_timeout;
  enabled_explicit = false;
}

abbrev getenv : Text → Text
getenv name = if text_eq name (codes "SIM_ADOPT_PASSWORD") then [] else codes "value"

abbrev read_file : Text → Option Text
read_file path = some (codes "secret" ++ (13 ∷ 10 ∷ []))

abbrev parse_url : Text → Option ParsedUrl
parse_url raw = some (record { scheme = codes "https"; port = codes "443" })

resolve_adopt-file :
    resolve_adopt parse_url read_file getenv (settings true)
    ≡ ok (record {
      enabled = true;
      url = codes "https://console";
      site = codes "default";
      dialect = unifi_os;
      username = codes "value";
      password = codes "secret";
      timeout = default_adopt_timeout;
      dialect_from_port = true;
    })
unfolding resolve_adopt enabled_config trim_right_of dialect_for_url text_eq
resolve_adopt-file = refl

resolve_adopt-off : resolve_adopt parse_url read_file getenv (settings false) ≡ err switched_off
unfolding resolve_adopt has_settings text_eq
resolve_adopt-off = refl
