-- ===== src/Herder/Release/Tests.antt =====
-- A release tag, and a build of a checkout.
use unifi_emu.Common.{◌≡◌, refl, [], codes}
use unifi_emu.Common.Strings.{split}
use unifi_emu.Herder.Release.{release_version, is_release, all_digits, default_synthetic_image}

default_synthetic_image-tag :
    default_synthetic_image (codes "v0.5.0") ≡ codes "ghcr.io/jamesbraid/unifi-emu:0.5.0"
unfolding default_synthetic_image release_version is_release all_digits split
default_synthetic_image-tag = refl

default_synthetic_image-dirty : default_synthetic_image (codes "v0.5.0+dirty") ≡ []
unfolding default_synthetic_image release_version is_release all_digits split
default_synthetic_image-dirty = refl
