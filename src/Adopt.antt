-- ===== src/Adopt.antt =====
-- internal/adopt/fleet.go, and WaitAdopted of client.go: the adoption of a fleet, one device after the
-- other. What the controller answers at each turn of a loop is a list; the calls that it sees and the
-- two hooks are a log. Intervals and the wording of errors are left out.
pub mod Traces
pub mod Dialect
mod Tests
use unifi_emu.Common.{
  ℕ, zero, suc, ◌≡◌, Bool, true, false, not, ◌&&◌, ◌||◌, List, [], ◌∷◌, ◌++◌, map, Option, none,
  some, Text, codes, text_eq, ◌==◌, if◌then◌else◌, Result, ok, err,
}
use unifi_emu.Common.Int.{ℤ, pos, negsuc}
use unifi_emu.Common.Strings.{lower, contains}

-- The document of a device.
pub record Device : Type 0 where
  pub mac : Text
  pub state : ℤ
  pub adopted : Bool

abbrev pub is_state : ℕ → ℤ → Bool
is_state n (pos m) = m == n
is_state n (negsuc m) = false

abbrev pub is_connected : Device → Bool
is_connected d = is_state 1 d.state && d.adopted

-- What Adopt fails with: whether the controller is still starting, and its message.
pub record AdoptError : Type 0 where
  pub booting : Bool
  pub message : Text

-- What the calls of one turn of a loop meet: DeviceByMAC, Adopt, the liveness hook, and whether the
-- context is done when the turn waits.
pub record Turn : Type 0 where
  pub lookup : Result Text Device
  pub adopt : Result AdoptError (Unit {0})
  pub alive : Bool
  pub is_done : Bool

pub data FleetError : Type 0 where
  never_pending already_adopted adopt_failed never_adopted abandoned not_connected : FleetError

pub data Event : Type 0 where
  on_pending on_connected : Text → Device → Event
  adopt_sent : Text → Event

-- How a loop ends: its turns are used up, it fails, or it gives a value and the turns that are left.
pub data LoopEnd (A : Type 0) : Type 0 where
  used_up : LoopEnd A
  stopped : FleetError → LoopEnd A
  finished : A → List Turn → LoopEnd A

-- The end of a turn that has not decided: the liveness hook, then the context.
abbrev pub wait_turn : {A : Type 0} → Turn → FleetError → LoopEnd A → LoopEnd A
wait_turn t e next =
    if not t.alive then stopped abandoned else if t.is_done then stopped e else next

abbrev pub pending_answer :
    Turn → List Turn → Result Text Device → LoopEnd (Device × Bool) → LoopEnd (Device × Bool)
pending_answer t ts (err e) next = wait_turn t never_pending next
pending_answer t ts (ok d) next =
    if is_connected d
    then finished (d, true) ts
    else if is_state 2 d.state
    then finished (d, false) ts
    else wait_turn t never_pending next

unfoldable pub wait_pending : List Turn → LoopEnd (Device × Bool)
wait_pending [] = used_up
wait_pending (t ∷ ts) = pending_answer t ts t.lookup (wait_pending ts)

abbrev pub may_retry : AdoptError → Bool
may_retry e = e.booting || contains (map lower e.message) (codes "cannotadopt")

abbrev pub is_adopted : Result Text Device → Bool
is_adopted (err e) = false
is_adopted (ok d) = d.adopted

-- The adopt commands that are sent, and the end of the loop.
abbrev pub Sent : Type 0
Sent = List Event × LoopEnd (Unit {0})

abbrev pub then_end : Event → LoopEnd (Unit {0}) → Sent
then_end e r = (e ∷ [], r)

abbrev pub then_more : Event → Sent → Sent
then_more e (log, r) = (e ∷ log, r)

abbrev pub adopt_answer : Text → Turn → List Turn → Result AdoptError (Unit {0}) → Sent → Sent
adopt_answer mac t ts (ok u) next = then_end (adopt_sent mac) (finished tt ts)
adopt_answer mac t ts (err e) next =
    if not (may_retry e)
    then then_end (adopt_sent mac) (stopped adopt_failed)
    else if is_adopted t.lookup
    then then_end (adopt_sent mac) (finished tt ts)
    else if not t.alive
    then then_end (adopt_sent mac) (stopped abandoned)
    else if t.is_done
    then then_end (adopt_sent mac) (stopped never_adopted)
    else then_more (adopt_sent mac) next

unfoldable pub adopt_with_retry : Text → List Turn → Sent
adopt_with_retry mac [] = ([], used_up)
adopt_with_retry mac (t ∷ ts) = adopt_answer mac t ts t.adopt (adopt_with_retry mac ts)

abbrev pub adopted_answer : Turn → List Turn → Result Text Device → LoopEnd Device → LoopEnd Device
adopted_answer t ts (err e) next = if t.is_done then stopped not_connected else next
adopted_answer t ts (ok d) next =
    if is_connected d then finished d ts else if t.is_done then stopped not_connected else next

unfoldable pub wait_adopted : List Turn → LoopEnd Device
wait_adopted [] = used_up
wait_adopted (t ∷ ts) = adopted_answer t ts t.lookup (wait_adopted ts)

-- The end of a run over a fleet.
pub data FleetEnd : Type 0 where
  no_turns complete : FleetEnd
  failed : FleetError → FleetEnd

abbrev pub Run : Type 0
Run = List Event × FleetEnd

abbrev pub log_then : List Event → Run → Run
log_then log (more, r) = (log ++ more, r)

abbrev pub after_adopted : Text → LoopEnd Device → (List Turn → Run) → Run
after_adopted mac used_up next = ([], no_turns)
after_adopted mac (stopped e) next = ([], failed e)
after_adopted mac (finished d ts) next = log_then (on_connected mac d ∷ []) (next ts)

abbrev pub after_adopt : Text → LoopEnd (Unit {0}) → (List Turn → Run) → Run
after_adopt mac used_up next = ([], no_turns)
after_adopt mac (stopped e) next = ([], failed e)
after_adopt mac (finished u ts) next = after_adopted mac (wait_adopted ts) next

unfoldable pub adopt_device : Text → List Turn → (List Turn → Run) → Run
adopt_device mac ts next =
    let sent = adopt_with_retry mac ts in log_then sent.0 (after_adopt mac sent.1 next)

abbrev pub after_pending : Bool → Text → LoopEnd (Device × Bool) → (List Turn → Run) → Run
after_pending require_pending mac used_up next = ([], no_turns)
after_pending require_pending mac (stopped e) next = ([], failed e)
after_pending require_pending mac (finished (d, true) ts) next =
    if require_pending
    then ([], failed already_adopted)
    else log_then (on_connected mac d ∷ []) (next ts)
after_pending require_pending mac (finished (d, false) ts) next =
    log_then (on_pending mac d ∷ []) (adopt_device mac ts next)

unfoldable pub fleet : Bool → List Text → List Turn → Run
fleet require_pending [] ts = ([], complete)
fleet require_pending (mac ∷ macs) ts =
    after_pending require_pending mac (wait_pending ts) (λ rest. fleet require_pending macs rest)
