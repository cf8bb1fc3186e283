-- ===== src/Herder/Config/Tests.antt =====
-- A system file that maps one model.
use unifi_emu.Common.{◌≡◌, refl, true, [], ◌∷◌, some, none, if◌then◌else◌, Text, codes, ok, text_eq}
use unifi_emu.Common.Int.{pos}
use unifi_emu.Common.Strings.{cut}
use unifi_emu.Net.{decoded, nothing_more}
use unifi_emu.Herder.Plan.{RuntimeConfig, text_among}
use unifi_emu.Herder.Config.{
  FileInfo, System, not_exist, found, resolve_runtime_config, load_runtime_config,
  decode_runtime_config, check_models, check_image_digest, check_capabilities, check_hex,
  cut_prefix,
}
use unifi_emu.Herder.Config.Accepted.{AreAccepted}
use unifi_emu.Herder.Config.Trusted.{IsFrom, resolve_runtime_config-IsResolved}

abbrev mapping : RuntimeConfig
mapping =
    (
      codes "US8",
      record {
        image =
            codes "switch@sha256:0123456789abcdef0123456789abcdef0123456789abcdef0123456789abcdef";
        cap_add = codes "NET_RAW" ∷ codes "KILL" ∷ [];
      },
    )
    ∷ []

abbrev own_path : Text
own_path = codes "/home/ci/runtimes.json"

abbrev own_file : FileInfo
own_file = record { is_regular = true; perm = 420; owner = some 1000 }

-- Only the user's file is there.
abbrev system : System
system = record {
  stat = λ path. if text_eq path own_path then found own_file else not_exist;
  uid = 1000;
  open_file = λ path.
      if text_eq path own_path
      then some (decoded (record { version = pos 1; models = mapping }), nothing_more)
      else none;
}

abbrev getenv : Text → Text
getenv name = if text_eq name (codes "UNIFI_EMU_RUNTIME_CONFIG") then own_path else []

resolve_runtime_config-system : resolve_runtime_config system [] getenv ≡ ok mapping
unfolding resolve_runtime_config load_runtime_config decode_runtime_config check_models
    check_image_digest check_capabilities check_hex cut_prefix cut text_among text_eq
resolve_runtime_config-system = refl

resolve_runtime_config-IsResolved_example : AreAccepted mapping × IsFrom system own_path mapping
unfolding text_eq
resolve_runtime_config-IsResolved_example =
    resolve_runtime_config-IsResolved system [] getenv mapping resolve_runtime_config-system
