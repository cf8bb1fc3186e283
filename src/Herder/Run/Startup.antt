-- ===== src/Herder/Run/Startup.antt =====
-- internal/herder/run.go: `validate`, `start` and `readyDevices`.
use unifi_emu.Common.{
  ℕ, ◌+◌, Bool, false, List, [], ◌∷◌, ◌++◌, Option, none, some, Text, if◌then◌else◌, Result, ok,
  err, ◌>>=◌, ◌>>◌,
}
use unifi_emu.Common.Int.{pos}
use unifi_emu.Herder.Protocol.{
  phase_validate, phase_pull, phase_start, phase_health, synthetic_model_unknown,
  synthetic_image_required, docker_unavailable, network_not_found, capability_unsupported,
  image_pull_failed, container_start_failed, device_unhealthy, Identity, ReadyDevice,
}
use unifi_emu.Herder.Plan.{
  Container, RuntimeConfig, Plan, PlanInput, PlanError, model_unknown, image_required, build_plan,
  less_ℤ,
}
use unifi_emu.Herder.Readiness.{ContainerState, Failure, failf, check_attachment}
use unifi_emu.Herder.Allocation.{allocate}
use unifi_emu.Herder.Run.{
  failed, Cause, Ending, Environment, Launch, Live, OpError, Options, attempt, check_context,
  classify, or_failed, with_devices,
}

abbrev pub plan_failure : PlanError → Failure
plan_failure (model_unknown d) = failf synthetic_model_unknown phase_validate
plan_failure (image_required n) = failf synthetic_image_required phase_validate

abbrev pub or_plan_failed : Result PlanError Plan → Result Ending Plan
or_plan_failed (ok plan) = ok plan
or_plan_failed (err e) = err (failed (plan_failure e))

unfoldable pub plan_input : Options → RuntimeConfig → List Identity → PlanInput
plan_input o config devices = record {
  run_id = o.run_id;
  network = o.network;
  inform_url = o.inform_url;
  devices = devices;
  runtime = config;
  synthetic_image = o.synthetic_image;
}

-- The part of `validate` that asks the backend.
unfoldable pub prepare_plan :
    (Text → Bool) → Options → Environment → RuntimeConfig → List Identity → Result Ending Plan
prepare_plan known o env config devices = do
  attempt env.daemon docker_unavailable phase_validate
  attempt env.find_network network_not_found phase_validate
  plan ← or_plan_failed (build_plan known (plan_input o config devices))
  attempt (env.capabilities plan) capability_unsupported phase_validate
  attempt (env.prepare plan) image_pull_failed phase_pull
  check_context env.pulled phase_pull
  ok plan

unfoldable pub validate : (Text → Bool) → Options → Environment → Result Ending Plan
validate known o env = do
  attempt env.connect docker_unavailable phase_validate
  request ← or_failed o.request
  config ← or_failed o.config
  devices ← or_failed (allocate request o.random)
  or_failed o.url_check
  or_failed o.reaper_check
  prepare_plan known o env config devices

unfoldable pub launch_all : Environment → ℕ → List Container → List (Container × Launch)
launch_all env i [] = []
launch_all env i (u ∷ us) = (u, env.launch i u) ∷ launch_all env (i + 1) us

abbrev pub no_state : ContainerState
no_state = record {
  running = false;
  health = [];
  exit_code = pos 0;
  restart_count = pos 0;
  started_at = [];
  networks = [];
  host_port_bindings = pos 0;
}

abbrev pub add_live : Container → Option Text → List Live → List Live
add_live u none lives = lives
add_live u (some id) lives =
    record { unit = u; instance_id = id; baseline = no_state; ip = [] } ∷ lives

-- Everything that came up.
unfoldable pub lives_of : List (Container × Launch) → List Live
lives_of [] = []
lives_of ((u, l) ∷ rest) = add_live u l.instance_id (lives_of rest)

abbrev pub launch_error :
    Container → Option Cause → Option OpError → Result Ending (Unit {0}) → Result Ending (Unit {0})
launch_error u context none rest = rest
launch_error u context (some e) rest =
    err (with_devices u.devices (classify context e container_start_failed phase_start))

-- The first error of a launch.
unfoldable pub check_launches : List (Container × Launch) → Result Ending (Unit {0})
check_launches [] = ok tt
check_launches ((u, l) ∷ rest) = launch_error u l.context l.error (check_launches rest)

-- `classifyUnit` of an operation on one unit.
abbrev pub for_unit : {A : Type 0} → Container → Result Ending A → Result Ending A
for_unit u (ok a) = ok a
for_unit u (err e) = err (with_devices u.devices e)

unfoldable pub await_all : Environment → List Live → Result Ending (Unit {0})
await_all env [] = ok tt
await_all env (l ∷ ls) = do
  for_unit l.unit (attempt (env.healthy l.instance_id) device_unhealthy phase_health)
  await_all env ls

-- The topology of each unit, whose state and address are kept.
unfoldable pub attach_all : Environment → Plan → List Live → Result Ending (List Live)
attach_all env plan [] = ok []
attach_all env plan (l ∷ ls) = do
  state ← for_unit l.unit (attempt (env.inspect l.instance_id) docker_unavailable phase_start)
  ip ← for_unit l.unit (or_failed (check_attachment plan l.unit state))
  rest ← attach_all env plan ls
  ok (record l { baseline = state; ip = ip } ∷ rest)

unfoldable pub start : Environment → Plan → List (Container × Launch) → Result Ending (List Live)
start env plan launches = do
  check_launches launches
  check_context env.launched phase_start
  await_all env (lives_of launches)
  check_context env.awaited phase_health
  lives ← attach_all env plan (lives_of launches)
  check_context env.attached phase_start
  ok lives

unfoldable pub ready_of : Text → List Identity → List ReadyDevice
ready_of ip [] = []
ready_of ip (d ∷ ds) = record { identity = d; ip = ip } ∷ ready_of ip ds

unfoldable pub all_ready : List Live → List ReadyDevice
all_ready [] = []
all_ready (l ∷ ls) = ready_of l.ip l.unit.devices ++ all_ready ls

-- One round of `sortReadyByIndex`, on the sorted prefix with its last element first.
unfoldable pub sink_ready : ReadyDevice → List ReadyDevice → List ReadyDevice
sink_ready d [] = d ∷ []
sink_ready d (e ∷ es) =
    let rest = sink_ready d es in
    if less_ℤ d.identity.index e.identity.index then e ∷ rest else d ∷ e ∷ es

unfoldable pub sort_ready : List ReadyDevice → List ReadyDevice → List ReadyDevice
sort_ready sorted [] = sorted
sort_ready sorted (d ∷ ds) = sort_ready (sink_ready d sorted) ds

unfoldable pub turn_ready : List ReadyDevice → List ReadyDevice → List ReadyDevice
turn_ready acc [] = acc
turn_ready acc (d ∷ ds) = turn_ready (d ∷ acc) ds

unfoldable pub ready_devices : List Live → List ReadyDevice
ready_devices ls = turn_ready [] (sort_ready [] (all_ready ls))
