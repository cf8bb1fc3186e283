-- ===== src/Herder/Run/Quiet.antt =====
-- internal/herder/run.go: the endings of `monitor`.
use unifi_emu.Common.{
  ℕ, ◌+◌, ◌≡◌, ◌≢◌, refl, Bool, true, false, List, [], ◌∷◌, Option, none, some, Text, if◌then◌else◌,
  leb, Result, ok, err, OnError, All,
}
use unifi_emu.Herder.Protocol.{
  phase_runtime, allows_phase, code_matrix, phase_among, docker_unavailable,
}
use unifi_emu.Herder.Plan.{Plan}
use unifi_emu.Herder.Readiness.{ContainerState, Failure, check_runtime_state}
use unifi_emu.Herder.Run.{
  Cause, deadline, canceled, OpError, Call, Ending, stopped, Live, docker_failure_limit, classify,
  same_cause, failure_ending, with_devices,
}
use unifi_emu.Herder.Run.Monitor.{
  Tick, context_done, poll, Round, ended, lost, seen, inspect_failed, judged, inspected, poll_round,
  after_round, monitor,
}
use unifi_emu.Herder.Run.Legal.{
  IsLegalFailure, IsLegalEnding, IsLegalError, with_devices-IsLegalEnding,
  check_runtime_state-OnError, failure_ending-IsLegalEnding,
}

-- The deadline is the startup's: the context of the monitor has none.
abbrev pub IsQuiet : Tick → Type 0
IsQuiet (context_done c) = c ≡ canceled
IsQuiet (poll inspect) =
    (id : Text) → OnError IsLegalError (inspect id).result × ((inspect id).context ≢ some deadline)

quiet_classify :
    (c : Option Cause) (e : OpError)
    → IsLegalError e
    → c ≢ some deadline
    → IsLegalEnding (classify c e docker_unavailable phase_runtime)
unfolding classify allows_phase code_matrix phase_among
quiet_classify none e h n =
    failure_ending-IsLegalEnding e.failure docker_unavailable phase_runtime h refl
quiet_classify (some deadline) e h n = elim (n refl) [ ]
quiet_classify (some canceled) e h n =
    elim (same_cause canceled e.cause)
      as (λ b.
        IsLegalEnding
          (if b then stopped else failure_ending e.failure docker_unavailable phase_runtime)) [
            | true ↦ tt
            | false ↦ failure_ending-IsLegalEnding e.failure docker_unavailable phase_runtime h refl
          ]

-- An ending of a round.
abbrev IsLegalRound : Round → Type 0
IsLegalRound (ended e) = IsLegalEnding e
IsLegalRound lost = Unit {0}
IsLegalRound seen = Unit {0}

inspect_failed-IsLegalRound :
    (n : ℕ) (l : Live) (c : Option Cause) (e : OpError)
    → IsLegalError e
    → c ≢ some deadline
    → IsLegalRound (inspect_failed n l c e)
unfolding inspect_failed
inspect_failed-IsLegalRound n l c e h q =
    let e1 = with_devices l.unit.devices (classify c e docker_unavailable phase_runtime) in
    elim (leb docker_failure_limit (n + 1)) as (λ b. IsLegalRound (if b then ended e1 else lost)) [
      | true ↦ with_devices-IsLegalEnding l.unit.devices _ (quiet_classify c e h q)
      | false ↦ tt
    ]

judged-IsLegalRound :
    (l : Live) (r : Result Failure (Unit {0})) (rest : Round)
    → OnError IsLegalFailure r
    → IsLegalRound rest
    → IsLegalRound (judged l r rest)
judged-IsLegalRound l (ok u) rest h k = k
judged-IsLegalRound l (err f) rest h k = h

inspected-IsLegalRound :
    (plan : Plan) (n : ℕ) (l : Live) (c : Option Cause) (r : Result OpError ContainerState)
    (rest : Round)
    → OnError IsLegalError r
    → c ≢ some deadline
    → IsLegalRound rest
    → IsLegalRound (inspected plan n l c r rest)
inspected-IsLegalRound plan n l c (err e) rest h q k = inspect_failed-IsLegalRound n l c e h q
inspected-IsLegalRound plan n l c (ok state) rest h q k =
    judged-IsLegalRound l (check_runtime_state plan l.baseline state) rest
      (check_runtime_state-OnError plan l.baseline state) k

poll_round-IsLegalRound :
    (plan : Plan) (n : ℕ) (inspect : Text → Call ContainerState) (ls : List Live)
    → IsQuiet (poll inspect)
    → IsLegalRound (poll_round plan n inspect ls)
unfolding poll_round
poll_round-IsLegalRound plan n inspect [] q = tt
poll_round-IsLegalRound plan n inspect (l ∷ ls) q =
    let answer = inspect l.instance_id in
    inspected-IsLegalRound plan n l answer.context answer.result _ (q l.instance_id).0
      (q l.instance_id).1 (poll_round-IsLegalRound plan n inspect ls q)

-- Whether the context is done at some turn.
unfoldable pub is_cancelled : List Tick → Bool
is_cancelled [] = false
is_cancelled (context_done c ∷ ts) = true
is_cancelled (poll inspect ∷ ts) = is_cancelled ts

unfoldable pub EndsLegally : Option Ending → Type 0
EndsLegally r = (e : Ending) × (r ≡ some e) × IsLegalEnding e

after_round-EndsLegally :
    (n : ℕ) (r : Round) (next : ℕ → Option Ending)
    → IsLegalRound r
    → ((m : ℕ) → EndsLegally (next m))
    → EndsLegally (after_round n r next)
unfolding EndsLegally
after_round-EndsLegally n (ended e) next h k = (e, refl, h)
after_round-EndsLegally n lost next h k = k (n + 1)
after_round-EndsLegally n seen next h k = k 0

pub monitor-EndsLegally :
    (plan : Plan) (lives : List Live) (n : ℕ) (ts : List Tick)
    → All IsQuiet ts
    → is_cancelled ts ≡ true
    → EndsLegally (monitor plan lives n ts)
unfolding monitor is_cancelled EndsLegally classify allows_phase code_matrix phase_among
monitor-EndsLegally plan lives n [] q c = cc
monitor-EndsLegally plan lives n (context_done canceled ∷ ts) q c = (stopped, refl, tt)
monitor-EndsLegally plan lives n (context_done deadline ∷ ts) q c = cc
monitor-EndsLegally plan lives n (poll inspect ∷ ts) q c =
    after_round-EndsLegally n (poll_round plan n inspect lives) _
      (poll_round-IsLegalRound plan n inspect lives q.0)
      (λ m. monitor-EndsLegally plan lives m ts q.1 c)
