-- ===== src/Herder/Contract.antt =====
-- internal/herder/images.go: the image contract, and the redaction of runtime references. The Docker
-- API is an argument; the words of an error are left out.
mod Tests
use unifi_emu.Common.{
  ℕ, zero, suc, ◌-◌, ◌≡◌, Bool, true, false, not, ◌&&◌, ◌||◌, List, [], ◌∷◌, ◌++◌, map, Option,
  none, some, Text, codes, length, text_eq, ltb, ◌==◌, if◌then◌else◌, Result, ok, err, ◌>>=◌, ◌>>◌,
  fail_if,
}
use unifi_emu.Common.Strings.{lower, has_prefix, contains, cut}
use unifi_emu.Inform.Session.{is_empty}
use unifi_emu.Herder.Protocol.{
  phase_validate, phase_pull, docker_unavailable, docker_version_unsupported, network_not_found,
  image_invalid, startup_timeout, image_pull_failed,
}
use unifi_emu.Herder.Plan.{
  UnitKind, synthetic, opaque, Container, Plan, RuntimeConfig, images, text_among,
}
use unifi_emu.Herder.Readiness.{Failure, failf}

abbrev pub min_api_version : Text
min_api_version = codes "1.44"

-- A `Config`: the words of its health check, when one is declared, and the number of its ports.
pub record ImageConfig : Type 0 where
  pub health_test : Option (List Text)
  pub exposed_ports : ℕ

pub record InspectedImage : Type 0 where
  pub config : Option ImageConfig
  pub os : Text
  pub architecture : Text

-- How a pull ends; a context error is one of the deadline or of a cancellation.
pub data Pulled : Type 0 where
  pull_done context_over refused : Pulled

-- The daemon: its version and components, networks, pulls and images, and the comparison of versions.
pub record DockerApi : Type 0 where
  pub server_version : Option (Text × List Text)
  pub is_at_least : Text → Text → Bool
  pub has_network : Text → Bool
  pub image_pull : Text → Pulled
  pub image_inspect : Text → Option InspectedImage

abbrev pub check_docker_version : DockerApi → Text → Result Failure (Unit {0})
check_docker_version api version =
    if not (api.is_at_least version min_api_version)
    then err (failf docker_version_unsupported phase_validate)
    else ok tt

abbrev pub check_version : DockerApi → Option (Text × List Text) → Result Failure (Unit {0})
check_version api none = err (failf docker_unavailable phase_validate)
check_version api (some (version, components)) = check_docker_version api version

unfoldable pub check_docker : DockerApi → Result Failure (Unit {0})
check_docker api = check_version api api.server_version

unfoldable pub check_network : DockerApi → Text → Result Failure (Unit {0})
check_network api name =
    fail_if (not (api.has_network name)) (failf network_not_found phase_validate)

unfoldable pub has_podman : List Text → Bool
has_podman [] = false
has_podman (c ∷ cs) = contains (map lower c) (codes "podman") || has_podman cs

-- A version that is not there has no components.
abbrev pub is_podman : Option (Text × List Text) → Bool
is_podman none = false
is_podman (some (version, components)) = has_podman components

abbrev pub is_inspected : Option InspectedImage → Bool
is_inspected none = false
is_inspected (some i) = true

abbrev pub pull_end : DockerApi → Text → Pulled → Result Failure (Unit {0})
pull_end api ref pull_done = ok tt
pull_end api ref context_over = err (failf startup_timeout phase_pull)
pull_end api ref refused =
    fail_if (not (is_inspected (api.image_inspect ref))) (failf image_pull_failed phase_pull)

unfoldable pub pull : DockerApi → Text → Result Failure (Unit {0})
pull api ref = pull_end api ref (api.image_pull ref)

abbrev pub lacks_test : Option (List Text) → Bool
lacks_test none = true
lacks_test (some []) = true
lacks_test (some (t ∷ ts)) = text_eq t (codes "NONE")

abbrev pub lacks_health : Option ImageConfig → Bool
lacks_health none = true
lacks_health (some c) = lacks_test c.health_test

abbrev pub exposes : Option ImageConfig → Bool
exposes none = false
exposes (some c) = ltb 0 c.exposed_ports

abbrev pub is_opaque : UnitKind → Bool
is_opaque synthetic = false
is_opaque opaque = true

abbrev pub bad_image : Failure
bad_image = failf image_invalid phase_pull

unfoldable pub check_image : Container → InspectedImage → Bool → Result Failure (Unit {0})
check_image unit got trust_healthcheck = do
  fail_if (trust_healthcheck && lacks_health got.config) bad_image
  fail_if (exposes got.config) bad_image
  fail_if
      (is_opaque unit.kind
        && (not (text_eq got.os (codes "linux")) || not (text_eq got.architecture (codes "amd64"))))
      bad_image

unfoldable pub pull_all : DockerApi → List Text → Result Failure (Unit {0})
pull_all api [] = ok tt
pull_all api (ref ∷ refs) = do pull api ref; pull_all api refs

abbrev pub inspected_image : Option InspectedImage → Result Failure InspectedImage
inspected_image none = err bad_image
inspected_image (some i) = ok i

unfoldable pub inspect_all : DockerApi → Bool → List Container → Result Failure (Unit {0})
inspect_all api trust_healthcheck [] = ok tt
inspect_all api trust_healthcheck (u ∷ us) = do
  got ← inspected_image (api.image_inspect u.image)
  check_image u got trust_healthcheck
  inspect_all api trust_healthcheck us

unfoldable pub pull_and_inspect : DockerApi → Plan → Result Failure (Unit {0})
pull_and_inspect api plan = do
  pull_all api (images plan)
  inspect_all api (not (is_podman api.server_version)) plan.units

-- The reference's host.
abbrev pub host_of : Option (Text × Text) → Text
host_of none = []
host_of (some (host, rest)) =
    if contains host (codes ".") || contains host (codes ":") then host else []

unfoldable pub registry_host : Text → Text
registry_host ref = host_of (cut b'/' ref)

abbrev pub add_term : Text → List Text → List Text
add_term term terms = if is_empty term || text_among term terms then terms else terms ++ (term ∷ [])

unfoldable pub terms_from : List Text → RuntimeConfig → List Text
terms_from terms [] = terms
terms_from terms ((model, rt) ∷ rest) =
    terms_from (add_term (registry_host rt.image) (add_term rt.image terms)) rest

-- A longer term goes to the front, past the shorter ones; the sorted prefix has its last one first.
unfoldable pub sink_term : Text → List Text → List Text
sink_term t [] = t ∷ []
sink_term t (u ∷ us) =
    let rest = sink_term t us in if ltb (length u) (length t) then u ∷ rest else t ∷ u ∷ us

unfoldable pub sort_terms : List Text → List Text → List Text
sort_terms sorted [] = sorted
sort_terms sorted (t ∷ ts) = sort_terms (sink_term t sorted) ts

unfoldable pub turn_terms : List Text → List Text → List Text
turn_terms acc [] = acc
turn_terms acc (t ∷ ts) = turn_terms (t ∷ acc) ts

unfoldable pub new_redactor : RuntimeConfig → List Text
new_redactor config = turn_terms [] (sort_terms [] (terms_from [] config))

-- strings.ReplaceAll of a text that is not empty, with the characters still to skip.
unfoldable pub replace_from : ℕ → Text → Text → Text → Text
replace_from skip old new [] = []
replace_from (suc skip) old new (c ∷ s) = replace_from skip old new s
replace_from zero old new (c ∷ s) =
    let kept = c ∷ replace_from 0 old new s in
    let replaced = new ++ replace_from (length old - 1) old new s in
    if has_prefix old (c ∷ s) then replaced else kept

abbrev pub redacted_runtime : Text
redacted_runtime = codes "[opaque-runtime]"

unfoldable pub redact : List Text → Text → Text
redact [] s = s
redact (term ∷ terms) s = redact terms (replace_from 0 term redacted_runtime s)
