-- ===== src/Herder/Release.antt =====
-- internal/herder/plan.go: the public synthetic image of a release.
mod Tests
use unifi_emu.Common.{
  ℕ, Bool, true, false, ◌&&◌, List, [], ◌∷◌, ◌++◌, Text, codes, ◌==◌, if◌then◌else◌, not,
}
use unifi_emu.Common.Strings.{split}
use unifi_emu.Inform.Session.{is_empty}
use unifi_emu.Net.{is_digit}

abbrev pub synthetic_image_repo : Text
synthetic_image_repo = codes "ghcr.io/jamesbraid/unifi-emu"

unfoldable pub resolve_synthetic_image : Text → Text → Text
resolve_synthetic_image flag_image compiled_default =
    if not (is_empty flag_image) then flag_image else compiled_default

unfoldable pub all_digits : Text → Bool
all_digits [] = true
all_digits (c ∷ s) = is_digit c && all_digits s

-- `\d+`.
abbrev pub is_number : Text → Bool
is_number s = not (is_empty s) && all_digits s

abbrev pub is_triple : List Text → Bool
is_triple (a ∷ b ∷ c ∷ []) = is_number a && (is_number b && is_number c)
is_triple _ = false

-- strings.TrimPrefix of `v`.
abbrev pub without_v : Text → Text
without_v [] = []
without_v (c ∷ s) = if c == b'v' then s else c ∷ s

-- `^v?\d+\.\d+\.\d+$`.
unfoldable pub is_release : Text → Bool
is_release version = is_triple (split b'.' (without_v version))

unfoldable pub release_version : Text → Text
release_version version = if not (is_release version) then [] else without_v version

abbrev pub tagged : Text → Text
tagged [] = []
tagged (c ∷ s) = synthetic_image_repo ++ (b':' ∷ c ∷ s)

unfoldable pub default_synthetic_image : Text → Text
default_synthetic_image version = tagged (release_version version)
