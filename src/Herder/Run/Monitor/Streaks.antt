-- ===== src/Herder/Run/Monitor/Streaks.antt =====
-- internal/herder/run.go: when the monitor gives a Docker that does not answer up.
use unifi_emu.Common.{
  ℕ, ◌+◌, ◌≡◌, refl, Bool, true, false, ◌&&◌, ◌||◌, List, [], ◌∷◌, ◌++◌, map, Option, none, some,
  Text, leb, if◌then◌else◌, Result, ok, err, All,
}
use unifi_emu.Herder.Protocol.{Identity, phase_runtime, docker_unavailable}
use unifi_emu.Herder.Plan.{Plan}
use unifi_emu.Herder.Readiness.{ContainerState, Failure, check_runtime_state}
use unifi_emu.Herder.Run.{
  Cause, canceled, OpError, Call, Ending, stopped, failed, Live, classify, failure_ending,
  with_devices, docker_failure_limit,
}
use unifi_emu.Herder.Run.Monitor.{
  context_done, poll, Round, ended, lost, seen, inspect_failed, inspected, poll_round, after_round,
  monitor,
}

abbrev pub is_error {ℓ κ} : {E : Type κ} {A : Type ℓ} → Result E A → Bool
is_error (ok a) = false
is_error (err e) = true

-- Whether some inspection of a round fails.
unfoldable pub is_lost : (Text → Call ContainerState) → List Live → Bool
is_lost inspect [] = false
is_lost inspect (l ∷ ls) = is_error (inspect l.instance_id).result || is_lost inspect ls

abbrev starts_with_one : List Bool → Bool
starts_with_one [] = false
starts_with_one (b ∷ bs) = b

abbrev starts_with_two : List Bool → Bool
starts_with_two [] = false
starts_with_two (b ∷ bs) = b && starts_with_one bs

-- Three in a row.
unfoldable pub three_lost : List Bool → Bool
three_lost [] = false
three_lost (b ∷ bs) = (b && starts_with_two bs) || three_lost bs

abbrev HasAnswer : Plan → Live → Result OpError ContainerState → Type 0
HasAnswer plan l (err e) = Unit {0}
HasAnswer plan l (ok state) = check_runtime_state plan l.baseline state ≡ ok tt

-- Every container that answers is as it was, and the context is not done.
unfoldable pub IsCalm : Plan → List Live → (Text → Call ContainerState) → Type 0
IsCalm plan [] inspect = Unit {0}
IsCalm plan (l ∷ ls) inspect =
    ((inspect l.instance_id).context ≡ none)
    × HasAnswer plan l (inspect l.instance_id).result
    × IsCalm plan ls inspect

-- Whether an ending is a failure.
abbrev pub verdict : Option Ending → Option Bool
verdict none = none
verdict (some stopped) = some false
verdict (some (failed f)) = some true

-- What a lost round comes to, by whether the limit is reached.
abbrev Given : Bool → Round → Type 0
Given true r = (f : Failure) × (r ≡ ended (failed f))
Given false r = r ≡ lost

abbrev Outcome : ℕ → Bool → Round → Type 0
Outcome n true r = Given (leb docker_failure_limit (n + 1)) r
Outcome n false r = r ≡ seen

Given-if : (b : Bool) (f : Failure) → Given b (if b then ended (failed f) else lost)
Given-if true f = (f, refl)
Given-if false f = refl

failure_ending_fails :
    (f : Option Failure) (ds : List Identity)
    → (g : Failure) × (with_devices ds (failure_ending f docker_unavailable phase_runtime)
        ≡ failed g)
failure_ending_fails none ds = (_, refl)
failure_ending_fails (some f) ds = (_, refl)

inspected_outcome :
    (plan : Plan) (n : ℕ) (l : Live) (c : Option Cause) (r : Result OpError ContainerState)
    (b : Bool) (rest : Round)
    → c ≡ none
    → HasAnswer plan l r
    → Outcome n b rest
    → Outcome n (is_error r || b) (inspected plan n l c r rest)
unfolding inspect_failed classify
inspected_outcome plan n l c (ok state) b rest q h k = rw h k
inspected_outcome plan n l (some c) (err e) b rest q h k = cc
inspected_outcome plan n l none (err e) b rest q h k =
    let (g, eq) = failure_ending_fails e.failure l.unit.devices in
    rw eq (Given-if (leb docker_failure_limit (n + 1)) g)

poll_round_outcome :
    (plan : Plan) (n : ℕ) (inspect : Text → Call ContainerState) (ls : List Live)
    → IsCalm plan ls inspect
    → Outcome n (is_lost inspect ls) (poll_round plan n inspect ls)
unfolding poll_round is_lost IsCalm
poll_round_outcome plan n inspect [] h = refl
poll_round_outcome plan n inspect (l ∷ ls) (q, h, hs) =
    inspected_outcome plan n l (inspect l.instance_id).context (inspect l.instance_id).result
      (is_lost inspect ls) (poll_round plan n inspect ls) q h
      (poll_round_outcome plan n inspect ls hs)

-- The verdicts after none, one and two lost rounds.
abbrev Verdicts : (ℕ → Option Ending) → List Bool → Type 0
Verdicts m bs =
    (verdict (m 0) ≡ some (three_lost bs))
    × (verdict (m 1) ≡ some (three_lost (true ∷ bs)))
    × (verdict (m 2) ≡ some (three_lost (true ∷ true ∷ bs)))

after_round-Verdicts :
    (r : ℕ → Round) (b : Bool) (next : ℕ → Option Ending) (bs : List Bool)
    → ((n : ℕ) → Outcome n b (r n))
    → Verdicts next bs
    → Verdicts (λ n. after_round n (r n) next) (b ∷ bs)
unfolding three_lost
after_round-Verdicts r false next bs h k = (rw (h 0) k.0, rw (h 1) k.0, rw (h 2) k.0)
after_round-Verdicts r true next bs h k = (rw (h 0) k.1, rw (h 1) k.2, rw (h 2).1 refl)

monitor-Verdicts :
    (plan : Plan) (lives : List Live) (polls : List (Text → Call ContainerState))
    → All (IsCalm plan lives) polls
    → Verdicts
        (λ n. monitor plan lives n (map poll polls ++ (context_done canceled ∷ [])))
        (map (λ inspect. is_lost inspect lives) polls)
unfolding monitor three_lost classify
monitor-Verdicts plan lives [] h = (refl, refl, refl)
monitor-Verdicts plan lives (inspect ∷ polls) (h, hs) =
    after_round-Verdicts (λ n. poll_round plan n inspect lives) (is_lost inspect lives) _
      (map (λ i. is_lost i lives) polls) (λ n. poll_round_outcome plan n inspect lives h)
      (monitor-Verdicts plan lives polls hs)

-- Where every container that answers is as it was when it became ready, a monitor that polls and is
-- then cancelled ends with a failure just when three rounds in a row had an inspection that fails,
-- and else with the stop. The count is one of rounds: an inspection of another container that succeeds
-- earlier in a round that is then lost does not reset it.
pub monitor_fails_after_three :
    (plan : Plan) (lives : List Live) (polls : List (Text → Call ContainerState))
    → All (IsCalm plan lives) polls
    → verdict (monitor plan lives 0 (map poll polls ++ (context_done canceled ∷ [])))
      ≡ some (three_lost (map (λ inspect. is_lost inspect lives) polls))
monitor_fails_after_three plan lives polls h = (monitor-Verdicts plan lives polls h).0
