-- ===== src/Herder/Run/Tests.antt =====
-- The run of the samples, and a monitor whose Docker answers once between two losses.
use unifi_emu.Common.{
  ◌≡◌, refl, true, false, List, [], ◌∷◌, ◌++◌, map, some, Text, codes, All, ◌⊎◌, text_eq,
  if◌then◌else◌,
}
use unifi_emu.Common.Assoc.{lookup}
use unifi_emu.Herder.Plan.{synthetic, Plan}
use unifi_emu.Herder.Readiness.{ContainerState, check_runtime_state}
use unifi_emu.Herder.Run.{Call, Live, canceled}
use unifi_emu.Herder.Run.Monitor.{context_done, poll, monitor}
use unifi_emu.Herder.Run.Monitor.Streaks.{
  verdict, three_lost, is_lost, IsCalm, monitor_fails_after_three,
}
use unifi_emu.Herder.Run.Monitor.Inspections.{
  inspections, round_inspections, monitor_fails_on_three,
}
use unifi_emu.Herder.Run.Execute.{execute}
use unifi_emu.Herder.Run.Sound.{IsSound}
use unifi_emu.Herder.Run.Quiet.{is_cancelled}
use unifi_emu.Herder.Run.Reports.{IsReported, execute-IsReported}
use unifi_emu.Herder.Run.Rollback.{launched_ids, execute_rolls_back}
use unifi_emu.Herder.Run.Exits.{StopsAtEnd, exit_clean}
use unifi_emu.Herder.Run.Samples.{
  answer, silent, healthy_state, options, environment, all_ticks, script, known, access_point,
  switch, finished, execute_lem,
}

environment-IsSound : IsSound options environment
environment-IsSound = record {
  request = tt;
  config = tt;
  url_check = tt;
  reaper_check = tt;
  connect = tt;
  daemon = tt;
  find_network = tt;
  capabilities = λ plan. tt;
  prepare = λ plan. tt;
  launch = λ i u. tt;
  healthy = λ id. tt;
  inspect = λ id. tt;
}

all_ticks-is_cancelled : is_cancelled all_ticks ≡ true
unfolding is_cancelled
all_ticks-is_cancelled = refl

execute-IsReported_example : IsReported (execute known options environment script)
execute-IsReported_example =
    execute-IsReported options environment all_ticks known environment-IsSound
      ((λ id. (tt, λ h. cc)), (refl, tt)) all_ticks-is_cancelled

execute_rolls_back_example : codes "c1" ∷ [] ≡ launched_ids known options environment
execute_rolls_back_example =
    execute_rolls_back known options environment script finished refl execute_lem

exit_clean_example :
    ((true ≡ false) ⊎ (environment.remaining ≡ some 0))
    × All (λ id. true ≡ true) (codes "c1" ∷ [])
    × StopsAtEnd options environment finished.writer
exit_clean_example = exit_clean known options environment script finished execute_lem refl

abbrev live : Live
live = record {
  unit = record {
    kind = synthetic;
    image = codes "emu:1";
    cap_add = [];
    devices = access_point ∷ switch ∷ [];
  };
  instance_id = codes "c1";
  baseline = healthy_state;
  ip = codes "10.0.0.2";
}

abbrev plan : Plan
plan = record {
  run_id = codes "r1";
  network = codes "lab";
  inform_url = codes "http://10.0.0.1:8080/inform";
  units = live.unit ∷ [];
}

abbrev lossy : List (Text → Call ContainerState)
lossy =
    (λ id. silent)
    ∷ (λ id. silent)
    ∷ (λ id. answer healthy_state)
    ∷ (λ id. silent)
    ∷ (λ id. silent)
    ∷ []

lossy-IsCalm : All (IsCalm plan (live ∷ [])) lossy
unfolding IsCalm check_runtime_state lookup text_eq
lossy-IsCalm =
    ((refl, tt, tt), ((refl, tt, tt), ((refl, refl, tt), ((refl, tt, tt), ((refl, tt, tt), tt)))))

monitor-lossy :
    verdict (monitor plan (live ∷ []) 0 (map poll lossy ++ (context_done canceled ∷ [])))
    ≡ some false
unfolding three_lost is_lost
monitor-lossy = monitor_fails_after_three plan (live ∷ []) lossy lossy-IsCalm

-- A second container beside the first.
abbrev other : Live
other = record live { instance_id = codes "c2" }

abbrev pair : List Live
pair = live ∷ other ∷ []

-- The first answers and the second does not.
abbrev second_silent : Text → Call ContainerState
second_silent id = if text_eq id (codes "c2") then silent else answer healthy_state

abbrev half_lost : List (Text → Call ContainerState)
half_lost = second_silent ∷ second_silent ∷ second_silent ∷ []

half_lost-IsCalm : All (IsCalm plan pair) half_lost
unfolding IsCalm check_runtime_state lookup text_eq
half_lost-IsCalm = (
  (refl, refl, (refl, tt, tt)),
  ((refl, refl, (refl, tt, tt)), ((refl, refl, (refl, tt, tt)), tt)),
)

monitor_fails_after_three_example :
    verdict (monitor plan pair 0 (map poll half_lost ++ (context_done canceled ∷ []))) ≡ some true
unfolding three_lost is_lost text_eq
monitor_fails_after_three_example = monitor_fails_after_three plan pair half_lost half_lost-IsCalm

-- The second container is lost first, then both.
abbrev all_lost : List (Text → Call ContainerState)
all_lost = second_silent ∷ (λ id. silent) ∷ (λ id. silent) ∷ []

all_lost-IsCalm : All (IsCalm plan pair) all_lost
unfolding IsCalm check_runtime_state lookup text_eq
all_lost-IsCalm =
    ((refl, refl, (refl, tt, tt)), ((refl, tt, (refl, tt, tt)), ((refl, tt, (refl, tt, tt)), tt)))

monitor_fails_on_three_example :
    verdict (monitor plan pair 0 (map poll all_lost ++ (context_done canceled ∷ []))) ≡ some true
unfolding three_lost inspections round_inspections text_eq
monitor_fails_on_three_example = monitor_fails_on_three plan pair all_lost all_lost-IsCalm refl
