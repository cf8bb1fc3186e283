-- ===== src/Herder/Plan/Coverage.antt =====
-- internal/herder/plan.go: the units of a plan against the request's devices.
use unifi_emu.Common.{
  ℕ, zero, suc, ◌+◌, ◌≡◌, refl, ap, ◌∙◌, Bool, List, [], ◌∷◌, ◌++◌, Option, none, some, Text,
  length, if◌then◌else◌, ok, >>=-eq-ok, arith, ok-injective, ◌⊎◌, All, All-append, Bool-cases, inl,
  inr,
}
use unifi_emu.Herder.Protocol.{Identity}
use unifi_emu.Herder.Plan.Counting.{count, count-append, count-sort_by_index, all_devices-append}
use unifi_emu.Inform.Session.{is_empty}
use unifi_emu.Herder.Plan.{
  Container, synthetic, opaque, RuntimeConfig, ModelRuntime, mapping, Plan, PlanInput, Progress,
  place_holder, wait, opaque_unit, place, place_all, fill_unit, finish_units, no_progress,
  build_plan, check_models, all_devices, devices,
}

-- A unit of its own, for a mapped device.
pub record IsOpaque (config : RuntimeConfig) (u : Container) : Type 0 where
  pub only : Identity
  pub runtime : ModelRuntime
  pub is_opaque : u.kind ≡ opaque
  pub one_device : u.devices ≡ only ∷ []
  pub is_mapped : mapping config only.model ≡ some runtime
  pub has_image : u.image ≡ runtime.image
  pub has_caps : u.cap_add ≡ runtime.cap_add

abbrev pub IsUnmapped : RuntimeConfig → Identity → Type 0
IsUnmapped config d = mapping config d.model ≡ none

-- The batch of all unmapped devices.
pub record IsBatch (config : RuntimeConfig) (image : Text) (u : Container) : Type 0 where
  pub is_synthetic : u.kind ≡ synthetic
  pub has_image : u.image ≡ image
  pub no_caps : u.cap_add ≡ []
  pub unmapped : All (IsUnmapped config) u.devices

-- Where n is the place of the synthetic unit: it is empty there, and all others are opaque.
module _ (config : RuntimeConfig) where
  unfoldable IsHole : ℕ → List Container → Type 0
  IsHole n [] = ⊥
  IsHole zero (u ∷ us) = (u ≡ place_holder) × All (IsOpaque config) us
  IsHole (suc n) (u ∷ us) = IsOpaque config u × IsHole n us

  IsHole-append :
      (n : ℕ) (us : List Container) (v : Container)
      → IsHole n us
      → IsOpaque config v
      → IsHole n (us ++ (v ∷ []))
  unfolding IsHole
  IsHole-append n [] v h o = absurd h
  IsHole-append zero (u ∷ us) v h o = (h.0, All-append (IsOpaque config) us (v ∷ []) h.1 (o, tt))
  IsHole-append (suc n) (u ∷ us) v h o = (h.0, IsHole-append n us v h.1 o)

  IsHole-new :
      (us : List Container)
      → All (IsOpaque config) us
      → IsHole (length us) (us ++ (place_holder ∷ []))
  unfolding IsHole
  IsHole-new [] h = (refl, tt)
  IsHole-new (u ∷ us) h = (h.0, IsHole-new us h.1)

  count-fill_unit :
      (f : Identity → Bool) (n : ℕ) (image : Text) (ds : List Identity) (us : List Container)
      → IsHole n us
      → count f (all_devices (fill_unit n image ds us)) ≡ count f ds + count f (all_devices us)
  unfolding fill_unit all_devices IsHole
  count-fill_unit f n image ds [] h = absurd h
  count-fill_unit f zero image ds (u ∷ us) h = rw h.0 (count-append f ds (all_devices us))
  count-fill_unit f (suc n) image ds (u ∷ us) h = omega (
    arith,
    count-append f u.devices (all_devices (fill_unit n image ds us)),
    count-append f u.devices (all_devices us),
    count-fill_unit f n image ds us h.1,
  )

  abbrev pub IsRouted : Text → Container → Type 0
  IsRouted image u = IsOpaque config u ⊎ IsBatch config image u

  IsRouted-opaque :
      (image : Text) (us : List Container) → All (IsOpaque config) us → All (IsRouted image) us
  IsRouted-opaque image [] h = tt
  IsRouted-opaque image (u ∷ us) h = (inl h.0, IsRouted-opaque image us h.1)

  IsRouted-fill_unit :
      (n : ℕ) (image : Text) (ds : List Identity) (us : List Container)
      → IsHole n us
      → All (IsUnmapped config) ds
      → All (IsRouted image) (fill_unit n image ds us)
  unfolding fill_unit IsHole
  IsRouted-fill_unit n image ds [] h w = absurd h
  IsRouted-fill_unit zero image ds (u ∷ us) h w = (
    inr (record {
      is_synthetic = ap (λ v. v.kind) h.0;
      has_image = refl;
      no_caps = ap (λ v. v.cap_add) h.0;
      unmapped = w;
    }),
    IsRouted-opaque image us h.1,
  )
  IsRouted-fill_unit (suc n) image ds (u ∷ us) h w =
      (inl h.0, IsRouted-fill_unit n image ds us h.1 w)

  -- Devices wait only for a synthetic unit that is there.
  abbrev IsPlaced : Progress → Option ℕ → Type 0
  IsPlaced p none = (p.waiting ≡ []) × All (IsOpaque config) p.units
  IsPlaced p (some n) = IsHole n p.units

  record IsReady (p : Progress) : Type 0 where
    placed : IsPlaced p p.synthetic_first
    unmapped : All (IsUnmapped config) p.waiting

  abbrev total : (Identity → Bool) → Progress → ℕ
  total f p = count f p.waiting + count f (all_devices p.units)

  wait-IsReady :
      (p : Progress) (d : Identity) (o : Option ℕ)
      → p.synthetic_first ≡ o
      → IsPlaced p o
      → All (IsUnmapped config) p.waiting
      → IsUnmapped config d
      → IsReady (wait p d o)
  wait-IsReady p d none e h w u = record {
    placed = IsHole-new p.units h.1;
    unmapped = All-append (IsUnmapped config) p.waiting (d ∷ []) w (u, tt);
  }
  wait-IsReady p d (some n) e h w u = record {
    placed = rw e h;
    unmapped = All-append (IsUnmapped config) p.waiting (d ∷ []) w (u, tt);
  }

  wait-total :
      (f : Identity → Bool) (p : Progress) (d : Identity) (o : Option ℕ)
      → total f (wait p d o) ≡ (if f d then 1 else 0) + total f p
  unfolding count all_devices
  wait-total f p d none =
      omega
        (arith, count-append f p.waiting (d ∷ []), all_devices-append f p.units (place_holder ∷ []))
  wait-total f p d (some n) = omega (arith, count-append f p.waiting (d ∷ []))

  opaque-IsPlaced :
      (p : Progress) (v : Container) (o : Option ℕ)
      → IsPlaced p o
      → IsOpaque config v
      → IsPlaced (record p { units = p.units ++ (v ∷ []) }) o
  opaque-IsPlaced p v none h u = (h.0, All-append (IsOpaque config) p.units (v ∷ []) h.1 (u, tt))
  opaque-IsPlaced p v (some n) h u = IsHole-append n p.units v h u

  place-IsReady :
      (p : Progress) (d : Identity) (m : Option ModelRuntime)
      → mapping config d.model ≡ m
      → IsReady p
      → IsReady (place p d m)
  place-IsReady p d none e h = wait-IsReady p d p.synthetic_first refl h.placed h.unmapped e
  place-IsReady p d (some rt) e h = record {
    placed = opaque-IsPlaced p (opaque_unit d rt) p.synthetic_first h.placed (record {
      only = d;
      runtime = rt;
      is_opaque = refl;
      one_device = refl;
      is_mapped = e;
      has_image = refl;
      has_caps = refl;
    });
    unmapped = h.unmapped;
  }

  place-total :
      (f : Identity → Bool) (p : Progress) (d : Identity) (m : Option ModelRuntime)
      → total f (place p d m) ≡ (if f d then 1 else 0) + total f p
  unfolding count all_devices
  place-total f p d none = wait-total f p d p.synthetic_first
  place-total f p d (some rt) = omega (arith, all_devices-append f p.units (opaque_unit d rt ∷ []))

  place_all-IsReady :
      (p : Progress) (ds : List Identity) → IsReady p → IsReady (place_all config p ds)
  unfolding place_all
  place_all-IsReady p [] h = h
  place_all-IsReady p (d ∷ ds) h =
      place_all-IsReady (place p d (mapping config d.model)) ds (place-IsReady p d _ refl h)

  place_all-total :
      (f : Identity → Bool) (p : Progress) (ds : List Identity)
      → total f (place_all config p ds) ≡ count f ds + total f p
  unfolding place_all count
  place_all-total f p [] = omega arith
  place_all-total f p (d ∷ ds) = omega (
    arith,
    place_all-total f (place p d (mapping config d.model)) ds,
    place-total f p d (mapping config d.model),
  )

  finish_units-count :
      (f : Identity → Bool) (image : Text) (p : Progress) (o : Option ℕ) {us : List Container}
      → IsPlaced p o
      → finish_units image p o ≡ ok us
      → count f (all_devices us) ≡ total f p
  unfolding count
  finish_units-count f image p none h e = rw (← ok-injective e, h.0) (omega arith)
  finish_units-count f image p (some n) h e = elim (Bool-cases (is_empty image)) [
    | inl b ↦ cc (rw b at e)
    | inr b ↦ rw (← ok-injective (rw b at e)) (count-fill_unit f n image p.waiting p.units h)
  ]

  finish_units-IsRouted :
      (image : Text) (p : Progress) (o : Option ℕ) {us : List Container}
      → IsPlaced p o
      → All (IsUnmapped config) p.waiting
      → finish_units image p o ≡ ok us
      → All (IsRouted image) us
  finish_units-IsRouted image p none h w e =
      rw (← ok-injective e) (IsRouted-opaque image p.units h.1)
  finish_units-IsRouted image p (some n) h w e = elim (Bool-cases (is_empty image)) [
    | inl b ↦ cc (rw b at e)
    | inr b ↦ rw (← ok-injective (rw b at e)) (IsRouted-fill_unit n image p.waiting p.units h w)
  ]

no_progress-IsReady : (config : RuntimeConfig) → IsReady config no_progress
no_progress-IsReady config = record { placed = (refl, tt); unmapped = tt }

build_plan_inv :
    (known : Text → Bool) (input : PlanInput) {plan : Plan}
    → build_plan known input ≡ ok plan
    → finish_units input.synthetic_image
        (place_all input.runtime no_progress input.devices)
        (place_all input.runtime no_progress input.devices).synthetic_first
      ≡ ok plan.units
unfolding build_plan
build_plan_inv known input h =
    let (_, _, g) = >>=-eq-ok (check_models known input.devices) _ h in
    let p = place_all input.runtime no_progress input.devices in
    let (us, e, q) = >>=-eq-ok (finish_units input.synthetic_image p p.synthetic_first) _ g in
    e ∙ ap (λ plan. ok plan.units) (ok-injective q)

-- A plan holds every requested device exactly as often as the request does, whichever test selects
-- it: `Devices` of a plan is a rearrangement of the request.
pub build_plan-count :
    (known : Text → Bool) (input : PlanInput) (plan : Plan) (f : Identity → Bool)
    → build_plan known input ≡ ok plan
    → count f (devices plan) ≡ count f input.devices
unfolding devices count all_devices
build_plan-count known input plan f h =
    let config = input.runtime in
    let p = place_all config no_progress input.devices in
    let ready = place_all-IsReady config no_progress input.devices (no_progress-IsReady config) in
    omega (
      arith,
      count-sort_by_index f (all_devices plan.units),
      finish_units-count config f input.synthetic_image p p.synthetic_first ready.placed
          (build_plan_inv known input h),
      place_all-total config f no_progress input.devices,
    )

-- Each unit of a plan is either the container of one mapped device, with that model's image and
-- capabilities, or the synthetic batch: the synthetic image, no capabilities, and unmapped devices
-- only.
pub build_plan-IsRouted :
    (known : Text → Bool) (input : PlanInput) (plan : Plan)
    → build_plan known input ≡ ok plan
    → All (IsRouted input.runtime input.synthetic_image) plan.units
build_plan-IsRouted known input plan h =
    let config = input.runtime in
    let p = place_all config no_progress input.devices in
    let ready = place_all-IsReady config no_progress input.devices (no_progress-IsReady config) in
    finish_units-IsRouted config input.synthetic_image p p.synthetic_first ready.placed
      ready.unmapped (build_plan_inv known input h)
