-- ===== src/Herder/Run/Exits.antt =====
-- internal/herder/run.go: what the exit status 0 says.
use unifi_emu.Common.{
  ℕ, zero, suc, ◌≡◌, refl, Bool, true, false, not, List, [], ◌∷◌, ◌++◌, map, Option, none, some,
  Text, if◌then◌else◌, Result, ok, err, arith, All, subst, inl, inr, ◌⊎◌,
}
use unifi_emu.Herder.Protocol.{
  invalid_request, invalid_runtime_config, network_not_found, inform_url_invalid,
  docker_version_unsupported, reaper_disabled, synthetic_model_unknown, synthetic_image_required,
  image_pull_failed, startup_timeout, image_invalid, capability_unsupported, container_start_failed,
  endpoint_mac_mismatch, device_unhealthy, device_exited, device_restarted, network_detached,
  docker_unavailable, cleanup_failed, Code, code_matrix, exit_status, Event, stopped_event, Writer,
  new_writer, WriteError, Outcome, Emitted, emit, write_started, write_ready, before_terminal,
  write_stopped,
}
use unifi_emu.Herder.Plan.{Container, Plan}
use unifi_emu.Herder.Run.{Ending, stopped, failed, Launch, Options, Environment, Live}
use unifi_emu.Herder.Run.Startup.{validate, launch_all, lives_of, start, ready_devices}
use unifi_emu.Herder.Run.Monitor.{monitor}
use unifi_emu.Herder.Run.Execute.{
  Script, Finished, is_connected, terminate_all, confirm_cleanup, cleanup, report, report_ending,
  stop_reason, stop_status, finish, after_started, after_validate, after_start, after_ready,
  finish_monitored, execute,
}

exit_status-one : (c : Code) → exit_status c ≡ 1
unfolding exit_status code_matrix
exit_status-one c = elim c as (λ k. exit_status k ≡ 1) [
  | invalid_request ↦ refl
  | invalid_runtime_config ↦ refl
  | network_not_found ↦ refl
  | inform_url_invalid ↦ refl
  | docker_version_unsupported ↦ refl
  | reaper_disabled ↦ refl
  | synthetic_model_unknown ↦ refl
  | synthetic_image_required ↦ refl
  | image_pull_failed ↦ refl
  | startup_timeout ↦ refl
  | image_invalid ↦ refl
  | capability_unsupported ↦ refl
  | container_start_failed ↦ refl
  | endpoint_mac_mismatch ↦ refl
  | device_unhealthy ↦ refl
  | device_exited ↦ refl
  | device_restarted ↦ refl
  | network_detached ↦ refl
  | docker_unavailable ↦ refl
  | cleanup_failed ↦ refl
]

-- The last event is the stopped event of the run.
abbrev pub StopsAtEnd : Options → Environment → Writer → Type 0
StopsAtEnd o env w =
    (before : List Event) × (w.out ≡ before ++ (stopped_event o.run_id (stop_reason env) ∷ []))

write_stopped_out :
    (w : Writer) (id reason : Text) (outcome : Outcome)
    → (write_stopped w id reason outcome).1 ≡ none
    → (write_stopped w id reason outcome).0.out ≡ w.out ++ (stopped_event id reason ∷ [])
unfolding write_stopped emit before_terminal
write_stopped_out w id reason outcome h = ground arith

stop_status_ok : (e : Option WriteError) → stop_status e ≡ 0 → e ≡ none
stop_status_ok none h = refl
stop_status_ok (some e) h = cc

report_ending_exit :
    (o : Options) (env : Environment) (w : Writer) (e : Ending) (outcome : Outcome)
    → (report_ending o env w e outcome).1 ≡ 0
    → StopsAtEnd o env (report_ending o env w e outcome).0
report_ending_exit o env w (failed f) outcome h = ground (arith, exit_status-one f.code)
report_ending_exit o env w stopped outcome h =
    (w.out, write_stopped_out w o.run_id (stop_reason env) outcome (stop_status_ok _ h))

-- What the exit status 0 says of a run that is over.
unfoldable IsClean : Options → Environment → Option Finished → Type 0
IsClean o env none = Unit {0}
IsClean o env (some r) =
    r.exit ≡ 0
    → ((is_connected env.connect.result ≡ false) ⊎ (env.remaining ≡ some 0))
      × All (λ id. env.terminate id ≡ true) r.terminated
      × StopsAtEnd o env r.writer

terminate_all-All :
    (env : Environment) (ls : List Live)
    → terminate_all env ls ≡ true
    → All (λ id. env.terminate id ≡ true) (map (λ l. l.instance_id) ls)
unfolding terminate_all
terminate_all-All env [] h = tt
terminate_all-All env (l ∷ ls) h =
    let both : (env.terminate l.instance_id ≡ true) × (terminate_all env ls ≡ true) =
      ground arith in
    (both.0, terminate_all-All env ls both.1)

confirmed_exit :
    (o : Options) (env : Environment) (w : Writer) (e : Ending) (outcome : Outcome)
    (complete : Bool) (remaining : Option ℕ)
    → (report o env w e outcome (confirm_cleanup complete remaining)).1 ≡ 0
    → (complete ≡ true)
      × (remaining ≡ some 0)
      × StopsAtEnd o env (report o env w e outcome (confirm_cleanup complete remaining)).0
unfolding report
confirmed_exit o env w e outcome complete none h = cc
confirmed_exit o env w e outcome complete (some (suc n)) h = cc
confirmed_exit o env w e outcome false (some zero) h = cc
confirmed_exit o env w e outcome true (some zero) h =
    (refl, refl, report_ending_exit o env w e outcome h)

clean_report :
    (o : Options) (env : Environment) (outcome : Outcome) (ls : List Live) (w : Writer) (e : Ending)
    (connected : Bool) (result : Bool × Bool)
    → result ≡ (
        if not connected
        then (true, false)
        else confirm_cleanup (terminate_all env ls) env.remaining)
    → (report o env w e outcome result).1 ≡ 0
    → ((connected ≡ false) ⊎ (env.remaining ≡ some 0))
      × All (λ id. env.terminate id ≡ true) (if connected then map (λ l. l.instance_id) ls else [])
      × StopsAtEnd o env (report o env w e outcome result).0
unfolding report
clean_report o env outcome ls w e false result q =
    rw q (λ h. (inl refl, tt, report_ending_exit o env w e outcome h))
clean_report o env outcome ls w e true result q = rw q (λ h.
    let r = confirmed_exit o env w e outcome (terminate_all env ls) env.remaining h in
    (inr r.1, terminate_all-All env ls r.0, r.2))

finish-IsClean :
    (o : Options) (env : Environment) (outcome : Outcome) (ls : List Live) (w : Writer) (e : Ending)
    → IsClean o env (some (finish o env outcome ls w e))
unfolding IsClean finish cleanup
finish-IsClean o env outcome ls w e =
    clean_report o env outcome ls w e (is_connected env.connect.result) (cleanup env ls) refl

finish_monitored-IsClean :
    (o : Options) (env : Environment) (s : Script) (ls : List Live) (w : Writer) (m : Option Ending)
    → IsClean o env (finish_monitored o env s ls w m)
unfolding IsClean
finish_monitored-IsClean o env s ls w none = tt
finish_monitored-IsClean o env s ls w (some e) = finish-IsClean o env s.terminal ls w e

after_ready-IsClean :
    (o : Options) (env : Environment) (s : Script) (plan : Plan) (ls : List Live) (em : Emitted)
    → IsClean o env (after_ready o env s plan ls em)
unfolding IsClean
after_ready-IsClean o env s plan ls (w, some e) = λ h. cc
after_ready-IsClean o env s plan ls (w, none) =
    finish_monitored-IsClean o env s ls w (monitor plan ls 0 s.ticks)

after_start-IsClean :
    (o : Options) (env : Environment) (s : Script) (plan : Plan) (w : Writer)
    (launches : List (Container × Launch)) (r : Result Ending (List Live))
    → IsClean o env (after_start o env s plan w launches r)
after_start-IsClean o env s plan w launches (err e) =
    finish-IsClean o env s.terminal (lives_of launches) w e
after_start-IsClean o env s plan w launches (ok lives) =
    after_ready-IsClean o env s plan lives (write_ready w o.run_id (ready_devices lives) s.ready)

after_validate-IsClean :
    (o : Options) (env : Environment) (s : Script) (w : Writer) (r : Result Ending Plan)
    → IsClean o env (after_validate o env s w r)
after_validate-IsClean o env s w (err e) = finish-IsClean o env s.terminal [] w e
after_validate-IsClean o env s w (ok plan) =
    let launches = launch_all env 0 plan.units in
    after_start-IsClean o env s plan w launches (start env plan launches)

after_started-IsClean :
    (known : Text → Bool) (o : Options) (env : Environment) (s : Script) (em : Emitted)
    → IsClean o env (after_started known o env s em)
unfolding IsClean
after_started-IsClean known o env s (w, some e) = λ h. cc
after_started-IsClean known o env s (w, none) =
    after_validate-IsClean o env s w (validate known o env)

execute-IsClean :
    (known : Text → Bool) (o : Options) (env : Environment) (s : Script)
    → IsClean o env (execute known o env s)
unfolding execute
execute-IsClean known o env s =
    after_started-IsClean known o env s (write_started new_writer o.run_id s.started)

of_run :
    (o : Options) (env : Environment) (r : Finished) (m : Option Finished)
    → m ≡ some r
    → IsClean o env m
    → IsClean o env (some r)
of_run o env r m eq h = subst (IsClean o env) eq h

-- Whatever Docker, stdout and the signals do, a run that exits with status 0 has ended with its
-- stopped event, no instance that it told to terminate has failed to, and Docker, where it was
-- reached, has counted no remaining container.
pub exit_clean :
    (known : Text → Bool) (o : Options) (env : Environment) (s : Script) (r : Finished)
    → execute known o env s ≡ some r
    → r.exit ≡ 0
    → ((is_connected env.connect.result ≡ false) ⊎ (env.remaining ≡ some 0))
      × All (λ id. env.terminate id ≡ true) r.terminated
      × StopsAtEnd o env r.writer
unfolding IsClean
exit_clean known o env s r eq h =
    of_run o env r (execute known o env s) eq (execute-IsClean known o env s) h
