-- ===== src/Herder/Run/Rollback.antt =====
-- internal/herder/run.go: what is left when a run is over.
use unifi_emu.Common.{
  ◌≡◌, refl, ap, ◌∙◌, subst, Bool, true, false, List, [], ◌∷◌, map, Option, none, some, Text,
  if◌then◌else◌, Result, ok, err, OnValue, OnValue->>=,
}
use unifi_emu.Herder.Protocol.{
  Phase, phase_validate, phase_start, phase_health, docker_unavailable, Code, Writer, new_writer,
  Outcome, written, write_failed, marshal_failed, Emitted, emit, write_started, write_ready,
}
use unifi_emu.Herder.Plan.{Container, Plan}
use unifi_emu.Herder.Readiness.{check_attachment}
use unifi_emu.Herder.Run.{
  OpError, Cause, Ending, stopped, Launch, Options, Environment, Live, attempt, call_result,
  check_context, or_failed,
}
use unifi_emu.Herder.Run.Startup.{
  validate, launch_all, lives_of, add_live, start, attach_all, for_unit, await_all, check_launches,
  ready_devices,
}
use unifi_emu.Herder.Run.Monitor.{monitor}
use unifi_emu.Herder.Run.Execute.{
  Script, Finished, is_connected, finish, after_started, after_validate, after_start, after_ready,
  finish_monitored, execute,
}

abbrev ids : List Live → List Text
ids ls = map (λ l. l.instance_id) ls

abbrev add_id : Option Text → List Text → List Text
add_id none xs = xs
add_id (some id) xs = id ∷ xs

-- The instances that came up.
unfoldable pub instances : List (Container × Launch) → List Text
instances [] = []
instances ((u, l) ∷ rest) = add_id l.instance_id (instances rest)

abbrev launched_of : Environment → Result Ending Plan → List Text
launched_of env (err e) = []
launched_of env (ok plan) = instances (launch_all env 0 plan.units)

-- The instances that a run has started.
unfoldable pub launched_ids : (Text → Bool) → Options → Environment → List Text
launched_ids known o env = launched_of env (validate known o env)

ids-add_live :
    (u : Container) (id : Option Text) (ls : List Live)
    → ids (add_live u id ls) ≡ add_id id (ids ls)
ids-add_live u none ls = refl
ids-add_live u (some id) ls = refl

lives_of-instances :
    (launches : List (Container × Launch)) → ids (lives_of launches) ≡ instances launches
unfolding lives_of instances
lives_of-instances [] = refl
lives_of-instances ((u, l) ∷ rest) =
    ids-add_live u l.instance_id (lives_of rest)
    ∙ ap (add_id l.instance_id) (lives_of-instances rest)

attach_all_keeps :
    (env : Environment) (plan : Plan) (ls : List Live)
    → OnValue (λ lives. ids lives ≡ ids ls) (attach_all env plan ls)
unfolding attach_all
attach_all_keeps env plan [] = refl
attach_all_keeps env plan (l ∷ ls) =
    let P : List Live → Type 0 = λ lives. ids lives ≡ l.instance_id ∷ ids ls in
    OnValue->>= P
      (for_unit l.unit (attempt (env.inspect l.instance_id) docker_unavailable phase_start)) _
      (λ state _.
        OnValue->>= P (for_unit l.unit (or_failed (check_attachment plan l.unit state))) _ (λ ip _.
          OnValue->>= P (attach_all env plan ls) _ (λ rest eq.
            ap (λ t. l.instance_id ∷ t)
              (subst (OnValue (λ lives. ids lives ≡ ids ls)) eq (attach_all_keeps env plan ls)))))

start_keeps :
    (env : Environment) (plan : Plan) (launches : List (Container × Launch))
    → OnValue (λ lives. ids lives ≡ instances launches) (start env plan launches)
unfolding start
start_keeps env plan launches =
    let P : List Live → Type 0 = λ lives. ids lives ≡ instances launches in
    OnValue->>= P (check_launches launches) _ (λ _ _.
      OnValue->>= P (check_context env.launched phase_start) _ (λ _ _.
        OnValue->>= P (await_all env (lives_of launches)) _ (λ _ _.
          OnValue->>= P (check_context env.awaited phase_health) _ (λ _ _.
            OnValue->>= P (attach_all env plan (lives_of launches)) _ (λ lives eq.
              OnValue->>= P (check_context env.attached phase_start) _ (λ _ _.
                subst (OnValue (λ ls. ids ls ≡ ids (lives_of launches))) eq
                  (attach_all_keeps env plan (lives_of launches))
                ∙ lives_of-instances launches))))))

attempt_succeeds :
    (context : Option Cause) (r : Result OpError (Unit {0})) (fallback : Code) (phase : Phase)
    → OnValue (λ _. is_connected r ≡ true) (call_result context r fallback phase)
attempt_succeeds context (ok u) fallback phase = refl
attempt_succeeds context (err e) fallback phase = tt

always : {A : Type 0} {P : Type 0} → P → (r : Result Ending A) → OnValue (λ _. P) r
always p (ok a) = p
always p (err e) = tt

-- A run that has a plan has a backend.
validate_connects :
    (known : Text → Bool) (o : Options) (env : Environment)
    → OnValue (λ plan. is_connected env.connect.result ≡ true) (validate known o env)
unfolding validate
validate_connects known o env =
    OnValue->>= (λ plan. is_connected env.connect.result ≡ true)
      (attempt env.connect docker_unavailable phase_validate) _
      (λ u eq.
        always
          (subst (OnValue (λ _. is_connected env.connect.result ≡ true)) eq (
            attempt_succeeds env.connect.context env.connect.result docker_unavailable
              phase_validate))
          _)

-- What a finished run tells to terminate.
Tells : List Text → Option Finished → Type 0
Tells xs none = Unit {0}
Tells xs (some r) = r.terminated ≡ xs

finish-Tells :
    (o : Options) (env : Environment) (outcome : Outcome) (ls : List Live) (w : Writer) (e : Ending)
    → is_connected env.connect.result ≡ true
    → Tells (ids ls) (some (finish o env outcome ls w e))
unfolding finish Tells
finish-Tells o env outcome ls w e h = rw h refl

if_same : (b : Bool) (xs : List Text) → (if b then xs else xs) ≡ xs
if_same true xs = refl
if_same false xs = refl

finish_none :
    (o : Options) (env : Environment) (outcome : Outcome) (w : Writer) (e : Ending)
    → Tells [] (some (finish o env outcome [] w e))
unfolding finish Tells
finish_none o env outcome w e = if_same (is_connected env.connect.result) []

finish_monitored-Tells :
    (o : Options) (env : Environment) (s : Script) (ls : List Live) (w : Writer) (m : Option Ending)
    → is_connected env.connect.result ≡ true
    → Tells (ids ls) (finish_monitored o env s ls w m)
unfolding Tells
finish_monitored-Tells o env s ls w none h = tt
finish_monitored-Tells o env s ls w (some e) h = finish-Tells o env s.terminal ls w e h

after_ready-Tells :
    (o : Options) (env : Environment) (s : Script) (plan : Plan) (ls : List Live) (em : Emitted)
    → is_connected env.connect.result ≡ true
    → Tells (ids ls) (after_ready o env s plan ls em)
unfolding Tells finish
after_ready-Tells o env s plan ls (w, some e) h = finish-Tells o env s.terminal ls w stopped h
after_ready-Tells o env s plan ls (w, none) h =
    finish_monitored-Tells o env s ls w (monitor plan ls 0 s.ticks) h

after_start-Tells :
    (o : Options) (env : Environment) (s : Script) (plan : Plan) (w : Writer)
    (launches : List (Container × Launch)) (r : Result Ending (List Live))
    → is_connected env.connect.result ≡ true
    → OnValue (λ lives. ids lives ≡ instances launches) r
    → Tells (instances launches) (after_start o env s plan w launches r)
after_start-Tells o env s plan w launches (err e) h k =
    subst (λ xs. Tells xs (some (finish o env s.terminal (lives_of launches) w e)))
      (lives_of-instances launches) (finish-Tells o env s.terminal (lives_of launches) w e h)
after_start-Tells o env s plan w launches (ok lives) h k =
    let em = write_ready w o.run_id (ready_devices lives) s.ready in
    subst (λ xs. Tells xs (after_ready o env s plan lives em)) k
      (after_ready-Tells o env s plan lives em h)

after_validate-Tells :
    (o : Options) (env : Environment) (s : Script) (w : Writer) (r : Result Ending Plan)
    → OnValue (λ plan. is_connected env.connect.result ≡ true) r
    → Tells (launched_of env r) (after_validate o env s w r)
after_validate-Tells o env s w (err e) h = finish_none o env s.terminal w e
after_validate-Tells o env s w (ok plan) h =
    let launches = launch_all env 0 plan.units in
    after_start-Tells o env s plan w launches _ h (start_keeps env plan launches)

started-Tells :
    (known : Text → Bool) (o : Options) (env : Environment) (s : Script) (outcome : Outcome)
    → outcome ≡ written
    → Tells
        (launched_ids known o env)
        (after_started known o env s (write_started new_writer o.run_id outcome))
unfolding write_started emit new_writer launched_ids
started-Tells known o env s marshal_failed h = cc
started-Tells known o env s write_failed h = cc
started-Tells known o env s written h =
    after_validate-Tells o env s _ (validate known o env) (validate_connects known o env)

tells :
    (xs : List Text) (r : Finished) (m : Option Finished)
    → m ≡ some r
    → Tells xs m
    → r.terminated ≡ xs
unfolding Tells
tells xs r m eq h = subst (Tells xs) eq h

-- Once the started event is out, a run that is over, however it ended, has told exactly the
-- instances that its launches gave to terminate, those of a launch that failed among them.
pub execute_rolls_back :
    (known : Text → Bool) (o : Options) (env : Environment) (s : Script) (r : Finished)
    → s.started ≡ written
    → execute known o env s ≡ some r
    → r.terminated ≡ launched_ids known o env
unfolding execute
execute_rolls_back known o env s r h eq =
    tells _ r (execute known o env s) eq (started-Tells known o env s s.started h)
