-- ===== src/Herder/Plan.antt =====
-- internal/herder/plan.go: the launch plan. The model catalog is a test on model names, and a runtime
-- configuration its map of models.
pub mod Counting
pub mod Coverage
pub mod Images
pub mod Order
mod Tests
use unifi_emu.Common.{
  ℕ, zero, suc, ◌+◌, ◌≡◌, Bool, true, false, ◌||◌, List, [], ◌∷◌, ◌++◌, Option, none, some, Text,
  codes, length, text_eq, ltb, ◌==◌, if◌then◌else◌, Result, ok, err, ◌>>=◌, ◌>>◌, fail_if,
}
use unifi_emu.Common.Int.{ℤ, pos, negsuc}
use unifi_emu.Common.Assoc.{lookup}
use unifi_emu.Inform.Tables.{decimal_text}
use unifi_emu.Inform.Session.{is_empty}
use unifi_emu.Herder.Protocol.{Identity}

pub data UnitKind : Type 0 where
  synthetic opaque : UnitKind

-- `Unit` of the source.
pub record Container : Type 0 where
  pub kind : UnitKind
  pub image : Text
  pub cap_add : List Text
  pub devices : List Identity

-- internal/herder/runtimeconfig.go: the opaque runtime of a model.
pub record ModelRuntime : Type 0 where
  pub image : Text
  pub cap_add : List Text

abbrev pub RuntimeConfig : Type 0
RuntimeConfig = List (Text × ModelRuntime)

unfoldable pub mapping : RuntimeConfig → Text → Option ModelRuntime
mapping config model = lookup model config

-- strconv.Itoa.
unfoldable pub itoa : ℤ → Text
itoa (pos n) = decimal_text n
itoa (negsuc n) = b'-' ∷ decimal_text (n + 1)

unfoldable pub device_indices : List Identity → Text
device_indices [] = []
device_indices (d ∷ []) = itoa d.index
device_indices (d ∷ e ∷ ds) = itoa d.index ++ (b',' ∷ device_indices (e ∷ ds))

abbrev pub only_mac : UnitKind → List Identity → Text
only_mac synthetic ds = []
only_mac opaque [] = []
only_mac opaque (d ∷ []) = d.mac
only_mac opaque (d ∷ e ∷ ds) = []

-- The MAC of the endpoint, empty for the synthetic batch.
unfoldable pub endpoint_mac : Container → Text
endpoint_mac u = only_mac u.kind u.devices

pub record Plan : Type 0 where
  pub run_id : Text
  pub network : Text
  pub inform_url : Text
  pub units : List Container

pub record PlanInput : Type 0 where
  pub run_id : Text
  pub network : Text
  pub inform_url : Text
  pub devices : List Identity
  pub runtime : RuntimeConfig
  pub synthetic_image : Text

pub data PlanError : Type 0 where
  model_unknown : Identity → PlanError
  image_required : ℕ → PlanError

-- The first loop: every model is in the catalog.
unfoldable pub check_models : (Text → Bool) → List Identity → Result PlanError (Unit {0})
check_models known [] = ok tt
check_models known (d ∷ ds) =
    let rest = check_models known ds in if known d.model then rest else err (model_unknown d)

-- What the second loop carries: `syntheticFirst` is none where the source has -1.
pub record Progress : Type 0 where
  pub units : List Container
  pub waiting : List Identity
  pub synthetic_first : Option ℕ

abbrev pub place_holder : Container
place_holder = record { kind = synthetic; image = []; cap_add = []; devices = [] }

abbrev pub wait : Progress → Identity → Option ℕ → Progress
wait p d none = record {
  units = p.units ++ (place_holder ∷ []);
  waiting = p.waiting ++ (d ∷ []);
  synthetic_first = some (length p.units);
}
wait p d (some n) = record p { waiting = p.waiting ++ (d ∷ []) }

abbrev pub opaque_unit : Identity → ModelRuntime → Container
opaque_unit d rt = record {
  kind = opaque;
  image = rt.image;
  cap_add = rt.cap_add;
  devices = d ∷ [];
}

abbrev pub place : Progress → Identity → Option ModelRuntime → Progress
place p d none = wait p d p.synthetic_first
place p d (some rt) = record p { units = p.units ++ (opaque_unit d rt ∷ []) }

unfoldable pub place_all : RuntimeConfig → Progress → List Identity → Progress
place_all config p [] = p
place_all config p (d ∷ ds) = place_all config (place p d (mapping config d.model)) ds

-- `plan.Units[n].Image = image; plan.Units[n].Devices = devices`.
unfoldable pub fill_unit : ℕ → Text → List Identity → List Container → List Container
fill_unit n image devices [] = []
fill_unit zero image devices (u ∷ us) = record u { image = image; devices = devices } ∷ us
fill_unit (suc n) image devices (u ∷ us) = u ∷ fill_unit n image devices us

abbrev pub finish_units : Text → Progress → Option ℕ → Result PlanError (List Container)
finish_units image p none = ok p.units
finish_units image p (some n) =
    if is_empty image
    then err (image_required (length p.waiting))
    else ok (fill_unit n image p.waiting p.units)

abbrev pub no_progress : Progress
no_progress = record { units = []; waiting = []; synthetic_first = none }

unfoldable pub build_plan : (Text → Bool) → PlanInput → Result PlanError Plan
build_plan known input = do
  check_models known input.devices
  let p = place_all input.runtime no_progress input.devices
  units ← finish_units input.synthetic_image p p.synthetic_first
  ok (record {
    run_id = input.run_id;
    network = input.network;
    inform_url = input.inform_url;
    units = units;
  })

unfoldable pub text_among : Text → List Text → Bool
text_among t [] = false
text_among t (s ∷ ss) = text_eq s t || text_among t ss

-- The loop of `Images`, with the images seen so far.
unfoldable pub images_from : List Text → List Container → List Text
images_from seen [] = []
images_from seen (u ∷ us) =
    let rest = images_from seen us in
    let more = images_from (u.image ∷ seen) us in
    if text_among u.image seen then rest else u.image ∷ more

unfoldable pub images : Plan → List Text
images p = images_from [] p.units

unfoldable pub all_devices : List Container → List Identity
all_devices [] = []
all_devices (u ∷ us) = u.devices ++ all_devices us

-- `<` on indices.
abbrev pub less_ℤ : ℤ → ℤ → Bool
less_ℤ (pos a) (pos b) = ltb a b
less_ℤ (pos a) (negsuc b) = false
less_ℤ (negsuc a) (pos b) = true
less_ℤ (negsuc a) (negsuc b) = ltb b a

-- One round of the outer loop of `sortByIndex`: d sinks from the end past the larger indices.
unfoldable pub sink : Identity → List Identity → List Identity
sink d [] = d ∷ []
sink d (e ∷ es) = let rest = sink d es in if less_ℤ d.index e.index then e ∷ rest else d ∷ e ∷ es

-- The sorted prefix is kept with its last element first.
unfoldable pub sort_from : List Identity → List Identity → List Identity
sort_from sorted [] = sorted
sort_from sorted (d ∷ ds) = sort_from (sink d sorted) ds

unfoldable pub turned : List Identity → List Identity → List Identity
turned acc [] = acc
turned acc (d ∷ ds) = turned (d ∷ acc) ds

unfoldable pub sort_by_index : List Identity → List Identity
sort_by_index ids = turned [] (sort_from [] ids)

unfoldable pub devices : Plan → List Identity
devices p = sort_by_index (all_devices p.units)
