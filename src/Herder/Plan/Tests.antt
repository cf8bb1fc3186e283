-- ===== src/Herder/Plan/Tests.antt =====
-- Two synthetic devices around a mapped one.
use unifi_emu.Common.{ℕ, ◌≡◌, refl, Bool, true, [], ◌∷◌, Text, codes, ok, All, text_eq}
use unifi_emu.Common.Int.{pos}
use unifi_emu.Common.Assoc.{lookup}
use unifi_emu.Herder.Protocol.{Identity}
use unifi_emu.Herder.Plan.{
  images, text_among, synthetic, opaque, ModelRuntime, Plan, PlanInput, build_plan, devices,
  check_models, mapping, place_all, fill_unit,
}
use unifi_emu.Herder.Plan.Images.{IsDistinct, unit_images, images-IsDistinct}
use unifi_emu.Herder.Plan.Order.{IsAscending, devices-IsAscending}
use unifi_emu.Herder.Plan.Counting.{count}
use unifi_emu.Herder.Plan.Coverage.{IsRouted, build_plan-count, build_plan-IsRouted}

abbrev device : ℕ → Text → Identity
device i model = record { index = pos i; model = model; mac = []; serial = []; name = [] }

abbrev runtime : ModelRuntime
runtime = record { image = codes "switch@sha256:1"; cap_add = codes "NET_RAW" ∷ [] }

abbrev input : PlanInput
input = record {
  run_id = codes "r1";
  network = codes "lab";
  inform_url = codes "http://10.0.0.1:8080/inform";
  devices = device 0 (codes "U7") ∷ device 1 (codes "US8") ∷ device 2 (codes "U7") ∷ [];
  runtime = (codes "US8", runtime) ∷ [];
  synthetic_image = codes "emu:1";
}

abbrev known : Text → Bool
known model = true

abbrev plan : Plan
plan = record {
  run_id = codes "r1";
  network = codes "lab";
  inform_url = codes "http://10.0.0.1:8080/inform";
  units =
      record {
        kind = synthetic;
        image = codes "emu:1";
        cap_add = [];
        devices = device 0 (codes "U7") ∷ device 2 (codes "U7") ∷ [];
      }
      ∷ record {
        kind = opaque;
        image = codes "switch@sha256:1";
        cap_add = codes "NET_RAW" ∷ [];
        devices = device 1 (codes "US8") ∷ [];
      }
      ∷ [];
}

plan_lem : build_plan known input ≡ ok plan
unfolding build_plan check_models mapping place_all fill_unit lookup text_eq
plan_lem = refl

abbrev is_u7 : Identity → Bool
is_u7 d = text_eq d.model (codes "U7")

build_plan-count_example : count is_u7 (devices plan) ≡ count is_u7 input.devices
build_plan-count_example = build_plan-count known input plan is_u7 plan_lem

build_plan-IsRouted_example : All (IsRouted input.runtime input.synthetic_image) plan.units
build_plan-IsRouted_example = build_plan-IsRouted known input plan plan_lem

images-IsDistinct_example :
    IsDistinct (images plan)
    × (text_among (codes "emu:1") (images plan)
        ≡ text_among (codes "emu:1") (unit_images plan.units))
images-IsDistinct_example = images-IsDistinct plan (codes "emu:1")

devices-IsAscending_example : IsAscending (devices plan)
devices-IsAscending_example = devices-IsAscending plan
