-- ===== src/Herder/Run/Sound.antt =====
-- internal/herder/run.go: what is asked of the backend, and the endings that follow.
use unifi_emu.Common.{
  ℕ, ◌+◌, sym, refl, Bool, List, [], ◌∷◌, Option, none, some, Text, Result, ok, err, OnError,
  OnError->>=, subst,
}
use unifi_emu.Herder.Protocol.{
  phase_validate, phase_pull, phase_start, phase_health, allows_phase, code_matrix, phase_among,
  Identity, docker_unavailable, network_not_found, capability_unsupported, image_pull_failed,
  container_start_failed, device_unhealthy,
}
use unifi_emu.Herder.Plan.{
  Container, Plan, PlanError, model_unknown, image_required, build_plan, RuntimeConfig,
}
use unifi_emu.Herder.Readiness.{Failure}
use unifi_emu.Herder.Allocation.{allocate}
use unifi_emu.Herder.Allocation.Failures.{IsBad, allocate-OnError}
use unifi_emu.Herder.Run.{Cause, OpError, Ending, Options, Environment, Live}
use unifi_emu.Herder.Run.Startup.{
  plan_input, or_plan_failed, prepare_plan, validate, launch_all, lives_of, check_launches,
  launch_error, for_unit, await_all, attach_all, start,
}
use unifi_emu.Herder.Run.Legal.{
  IsLegalFailure, IsLegalEnding, IsLegalError, classify-IsLegalEnding, with_devices-IsLegalEnding,
  attempt-OnError, check_context-OnError, or_failed-OnError, check_attachment-OnError,
}

abbrev pub IsLegalLaunch : Option OpError → Type 0
IsLegalLaunch none = Unit {0}
IsLegalLaunch (some e) = IsLegalError e

-- Each failure that an operation of the startup reports has a code that is defined for its phase.
pub record IsSound (o : Options) (env : Environment) : Type 0 where
  pub request : OnError IsLegalFailure o.request
  pub config : OnError IsLegalFailure o.config
  pub url_check : OnError IsLegalFailure o.url_check
  pub reaper_check : OnError IsLegalFailure o.reaper_check
  pub connect : OnError IsLegalError env.connect.result
  pub daemon : OnError IsLegalError env.daemon.result
  pub find_network : OnError IsLegalError env.find_network.result
  pub capabilities : (plan : Plan) → OnError IsLegalError (env.capabilities plan).result
  pub prepare : (plan : Plan) → OnError IsLegalError (env.prepare plan).result
  pub launch : (i : ℕ) (u : Container) → IsLegalLaunch (env.launch i u).error
  pub healthy : (id : Text) → OnError IsLegalError (env.healthy id).result
  pub inspect : (id : Text) → OnError IsLegalError (env.inspect id).result

bad_legal : (r : Result Failure (List Identity)) → OnError IsBad r → OnError IsLegalFailure r
unfolding allows_phase code_matrix phase_among
bad_legal (ok ids) h = tt
bad_legal (err f) h = subst IsLegalFailure (sym h) refl

or_plan_failed-OnError : (r : Result PlanError Plan) → OnError IsLegalEnding (or_plan_failed r)
unfolding allows_phase code_matrix phase_among
or_plan_failed-OnError (ok plan) = tt
or_plan_failed-OnError (err (model_unknown d)) = refl
or_plan_failed-OnError (err (image_required n)) = refl

module _ (known : Text → Bool) (o : Options) (env : Environment) (sound : IsSound o env) where
  prepare_plan-OnError :
      (config : RuntimeConfig) (ds : List Identity)
      → OnError IsLegalEnding (prepare_plan known o env config ds)
  unfolding prepare_plan allows_phase code_matrix phase_among
  prepare_plan-OnError config ds =
      OnError->>= IsLegalEnding _ _
        (attempt-OnError env.daemon docker_unavailable phase_validate sound.daemon refl refl)
        (λ _.
          OnError->>= IsLegalEnding _ _
            (attempt-OnError env.find_network network_not_found phase_validate sound.find_network
              refl refl)
            (λ _.
              OnError->>= IsLegalEnding _ _
                (or_plan_failed-OnError (build_plan known (plan_input o config ds)))
                (λ plan.
                  OnError->>= IsLegalEnding _ _
                    (attempt-OnError (env.capabilities plan) capability_unsupported phase_validate
                      (sound.capabilities plan) refl refl)
                    (λ _.
                      OnError->>= IsLegalEnding _ _
                        (attempt-OnError (env.prepare plan) image_pull_failed phase_pull
                          (sound.prepare plan) refl refl)
                        (λ _.
                          OnError->>= IsLegalEnding _ _
                            (check_context-OnError env.pulled phase_pull refl) (λ _. tt))))))

  pub validate-OnError : OnError IsLegalEnding (validate known o env)
  unfolding validate allows_phase code_matrix phase_among
  validate-OnError =
      OnError->>= IsLegalEnding _ _
        (attempt-OnError env.connect docker_unavailable phase_validate sound.connect refl refl)
        (λ _. OnError->>= IsLegalEnding _ _ (or_failed-OnError o.request sound.request) (λ request.
          OnError->>= IsLegalEnding _ _ (or_failed-OnError o.config sound.config) (λ config.
            OnError->>= IsLegalEnding _ _
              (or_failed-OnError (allocate request o.random)
                (bad_legal _ (allocate-OnError request o.random)))
              (λ ds.
                OnError->>= IsLegalEnding _ _ (or_failed-OnError o.url_check sound.url_check) (λ _.
                  OnError->>= IsLegalEnding _ _
                    (or_failed-OnError o.reaper_check sound.reaper_check)
                    (λ _. prepare_plan-OnError config ds))))))

  for_unit-OnError :
      {A : Type 0} (u : Container) (r : Result Ending A)
      → OnError IsLegalEnding r
      → OnError IsLegalEnding (for_unit u r)
  for_unit-OnError u (ok a) h = tt
  for_unit-OnError u (err e) h = with_devices-IsLegalEnding u.devices e h

  launch_error-OnError :
      (u : Container) (c : Option Cause) (e : Option OpError) (rest : Result Ending (Unit {0}))
      → IsLegalLaunch e
      → OnError IsLegalEnding rest
      → OnError IsLegalEnding (launch_error u c e rest)
  unfolding allows_phase code_matrix phase_among
  launch_error-OnError u c none rest h k = k
  launch_error-OnError u c (some e) rest h k =
      with_devices-IsLegalEnding u.devices _
        (classify-IsLegalEnding c e container_start_failed phase_start h refl refl)

  check_launches-OnError :
      (i : ℕ) (us : List Container) → OnError IsLegalEnding (check_launches (launch_all env i us))
  unfolding check_launches launch_all
  check_launches-OnError i [] = tt
  check_launches-OnError i (u ∷ us) =
      launch_error-OnError u (env.launch i u).context (env.launch i u).error _ (sound.launch i u)
        (check_launches-OnError (i + 1) us)

  await_all-OnError : (ls : List Live) → OnError IsLegalEnding (await_all env ls)
  unfolding await_all allows_phase code_matrix phase_among
  await_all-OnError [] = tt
  await_all-OnError (l ∷ ls) =
      OnError->>= IsLegalEnding _ _
        (for_unit-OnError l.unit _ (
          attempt-OnError (env.healthy l.instance_id) device_unhealthy phase_health
            (sound.healthy l.instance_id) refl refl))
        (λ _. await_all-OnError ls)

  attach_all-OnError :
      (plan : Plan) (ls : List Live) → OnError IsLegalEnding (attach_all env plan ls)
  unfolding attach_all allows_phase code_matrix phase_among
  attach_all-OnError plan [] = tt
  attach_all-OnError plan (l ∷ ls) =
      OnError->>= IsLegalEnding _ _
        (for_unit-OnError l.unit _ (
          attempt-OnError (env.inspect l.instance_id) docker_unavailable phase_start
            (sound.inspect l.instance_id) refl refl))
        (λ state.
          OnError->>= IsLegalEnding _ _
            (for_unit-OnError l.unit _
              (or_failed-OnError _ (check_attachment-OnError plan l.unit state)))
            (λ ip. OnError->>= IsLegalEnding _ _ (attach_all-OnError plan ls) (λ _. tt)))

  pub start-OnError :
      (plan : Plan) (i : ℕ) (us : List Container)
      → OnError IsLegalEnding (start env plan (launch_all env i us))
  unfolding start allows_phase code_matrix phase_among
  start-OnError plan i us =
      let launches = launch_all env i us in
      OnError->>= IsLegalEnding _ _ (check_launches-OnError i us) (λ _.
        OnError->>= IsLegalEnding _ _ (check_context-OnError env.launched phase_start refl) (λ _.
          OnError->>= IsLegalEnding _ _ (await_all-OnError (lives_of launches)) (λ _.
            OnError->>= IsLegalEnding _ _ (check_context-OnError env.awaited phase_health refl)
              (λ _.
                OnError->>= IsLegalEnding _ _ (attach_all-OnError plan (lives_of launches)) (λ _.
                  OnError->>= IsLegalEnding _ _
                    (check_context-OnError env.attached phase_start refl) (λ _. tt))))))
