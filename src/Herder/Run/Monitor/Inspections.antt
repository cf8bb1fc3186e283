-- ===== src/Herder/Run/Monitor/Inspections.antt =====
-- internal/herder/run.go: the limit of `monitor`, counted in inspections instead of rounds.
use unifi_emu.Common.{
  ◌≡◌, refl, sym, ap, ◌∙◌, Bool, true, false, ◌||◌, List, [], ◌∷◌, ◌++◌, map, some, Text, All,
  Bool-cases, inl, inr, arith,
}
use unifi_emu.Herder.Plan.{Plan}
use unifi_emu.Herder.Readiness.{ContainerState}
use unifi_emu.Herder.Run.{canceled, Call, Live}
use unifi_emu.Herder.Run.Monitor.{context_done, poll, monitor}
use unifi_emu.Herder.Run.Monitor.Streaks.{
  is_error, is_lost, three_lost, IsCalm, verdict, monitor_fails_after_three,
}

abbrev pub until_failure : Bool → List Bool → List Bool
until_failure true rest = true ∷ []
until_failure false rest = false ∷ rest

-- The inspections of a round, each with whether it fails: the first that fails is the last.
unfoldable pub round_inspections : (Text → Call ContainerState) → List Live → List Bool
round_inspections inspect [] = []
round_inspections inspect (l ∷ ls) =
    until_failure (is_error (inspect l.instance_id).result) (round_inspections inspect ls)

-- Those of all rounds, in the order in which they are made.
unfoldable pub inspections : List Live → List (Text → Call ContainerState) → List Bool
inspections lives [] = []
inspections lives (inspect ∷ polls) = round_inspections inspect lives ++ inspections lives polls

abbrev Implies : List Bool → List Bool → Type 0
Implies bs cs = three_lost bs ≡ true → three_lost cs ≡ true

-- Three failures in the first list make three in the second, after none, one and two failures.
abbrev Carries : List Bool → List Bool → Type 0
Carries bs cs =
    Implies bs cs × Implies (true ∷ bs) (true ∷ cs) × Implies (true ∷ true ∷ bs) (true ∷ true ∷ cs)

-- What follows the inspections of a round that is lost, and of one that is not.
round_inspections-append :
    (inspect : Text → Call ContainerState) (ls : List Live) (bs : List Bool)
    → (is_lost inspect ls ≡ true
        → three_lost (round_inspections inspect ls ++ bs) ≡ three_lost (true ∷ bs))
      × (is_lost inspect ls ≡ false
          → three_lost (round_inspections inspect ls ++ bs) ≡ three_lost bs)
unfolding is_lost round_inspections three_lost
round_inspections-append inspect [] bs = (λ e. cc, λ e. refl)
round_inspections-append inspect (l ∷ ls) bs =
    elim (Bool-cases (is_error (inspect l.instance_id).result)) [
      | inl e ↦ rw e (λ _. refl, λ h. cc)
      | inr e ↦ rw e (round_inspections-append inspect ls bs)
    ]

three_lost-cons : (bs : List Bool) → Implies bs (true ∷ bs)
unfolding three_lost
three_lost-cons bs h = ground (arith, h)

round-Carries :
    (e lost : Bool) (rest bs cs : List Bool)
    → (lost ≡ true → three_lost (rest ++ bs) ≡ three_lost (true ∷ bs))
      × (lost ≡ false → three_lost (rest ++ bs) ≡ three_lost bs)
    → Carries bs cs
    → Carries (until_failure e rest ++ bs) ((e || lost) ∷ cs)
unfolding three_lost
round-Carries true lost rest bs cs k (none, one, two) = (one, two, λ h. refl)
round-Carries false true rest bs cs k (none, one, two) =
    let first : Implies (rest ++ bs) (true ∷ cs) = λ h. one (sym (k.0 refl) ∙ h) in
    (first, λ h. three_lost-cons (true ∷ cs) (first h), λ h. refl)
round-Carries false false rest bs cs k (none, one, two) =
    let first : Implies (rest ++ bs) cs = λ h. none (sym (k.1 refl) ∙ h) in (first, first, first)

inspections-Carries :
    (l : Live) (ls : List Live) (polls : List (Text → Call ContainerState))
    → Carries (inspections (l ∷ ls) polls) (map (λ inspect. is_lost inspect (l ∷ ls)) polls)
unfolding inspections round_inspections is_lost
inspections-Carries l ls [] = (λ h. h, λ h. h, λ h. h)
inspections-Carries l ls (inspect ∷ polls) =
    round-Carries (is_error (inspect l.instance_id).result) (is_lost inspect ls)
      (round_inspections inspect ls) _ _ (round_inspections-append inspect ls _)
      (inspections-Carries l ls polls)

-- Without containers no inspection is made.
inspections-empty : (polls : List (Text → Call ContainerState)) → inspections [] polls ≡ []
unfolding inspections round_inspections
inspections-empty [] = refl
inspections-empty (inspect ∷ polls) = inspections-empty polls

three_inspections :
    (lives : List Live) (polls : List (Text → Call ContainerState))
    → Implies (inspections lives polls) (map (λ inspect. is_lost inspect lives) polls)
unfolding three_lost
three_inspections [] polls h = cc (rw (inspections-empty polls) at h)
three_inspections (l ∷ ls) polls h = (inspections-Carries l ls polls).0 h

-- Where every container that answers is as it was when it became ready, a monitor that polls and is
-- then cancelled ends with a failure when three inspections in a row fail, whichever containers they
-- are of and however the rounds divide them.
pub monitor_fails_on_three :
    (plan : Plan) (lives : List Live) (polls : List (Text → Call ContainerState))
    → All (IsCalm plan lives) polls
    → three_lost (inspections lives polls) ≡ true
    → verdict (monitor plan lives 0 (map poll polls ++ (context_done canceled ∷ []))) ≡ some true
monitor_fails_on_three plan lives polls calm h =
    monitor_fails_after_three plan lives polls calm ∙ ap some (three_inspections lives polls h)
