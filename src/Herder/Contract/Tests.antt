-- ===== src/Herder/Contract/Tests.antt =====
-- A message that names an image, and an image without a health check.
use unifi_emu.Common.{◌≡◌, refl, true, [], ◌∷◌, some, codes, ok, err, text_eq}
use unifi_emu.Common.Strings.{cut, contains, has_prefix}
use unifi_emu.Herder.Plan.{synthetic, opaque, UnitKind, Container, RuntimeConfig, text_among}
use unifi_emu.Herder.Contract.{
  InspectedImage, check_image, bad_image, new_redactor, terms_from, registry_host, sort_terms,
  sink_term, turn_terms, redact, replace_from,
}

abbrev config : RuntimeConfig
config = (codes "US8", record { image = codes "reg.io/sw@sha256:1"; cap_add = [] }) ∷ []

redact-config :
    redact (new_redactor config) (codes "pull reg.io/sw@sha256:1 from reg.io")
    ≡ codes "pull [opaque-runtime] from [opaque-runtime]"
unfolding redact replace_from new_redactor terms_from registry_host sort_terms sink_term turn_terms
    cut contains has_prefix text_among text_eq
redact-config = refl

abbrev unit_of : UnitKind → Container
unit_of kind = record { kind = kind; image = codes "i"; cap_add = []; devices = [] }

abbrev arm_image : InspectedImage
arm_image = record {
  config = some (record { health_test = some (codes "CMD" ∷ []); exposed_ports = 0 });
  os = codes "linux";
  architecture = codes "arm64";
}

check_image-arm_image : check_image (unit_of opaque) arm_image true ≡ err bad_image
unfolding check_image text_eq
check_image-arm_image = refl

check_image-synthetic : check_image (unit_of synthetic) arm_image true ≡ ok tt
unfolding check_image text_eq
check_image-synthetic = refl
