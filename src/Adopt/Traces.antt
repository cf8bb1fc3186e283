-- ===== src/Adopt/Traces.antt =====
-- internal/adopt/fleet.go: the log of a fleet against the protocol of one device after the other.
use unifi_emu.Common.{
  ◌≡◌, refl, ap, ◌∙◌, Bool, true, false, ◌&&◌, List, [], ◌∷◌, ◌++◌, Option, none, some, Text,
  text_eq, text_eq_refl, Result, ok, err, Bool-cases, inl, inr,
}
use unifi_emu.Adopt.{
  Device, is_state, is_connected, AdoptError, Turn, FleetError, Event, on_pending, on_connected,
  adopt_sent, LoopEnd, used_up, stopped, finished, wait_turn, pending_answer, wait_pending,
  adopt_answer, adopt_with_retry, adopted_answer, wait_adopted, already_adopted, may_retry,
  is_adopted, FleetEnd, no_turns, complete, failed, Run, log_then, after_adopted, after_adopt,
  adopt_device, after_pending, fleet, Sent,
}

-- The devices that are left, and whether the first of them is pending.
pub record Progress : Type 0 where
  pub left : List Text
  pub is_pending : Bool

abbrev pub at : List Text → Bool → Progress
at left is_pending = record { left = left; is_pending = is_pending }

abbrev next_of : Bool → Progress → Option Progress
next_of true p = some p
next_of false p = none

-- Only the first device moves: it becomes pending in state 2, adopt commands are sent while it is
-- pending, and it leaves connected and adopted, from pending or at once.
abbrev follow : List Text → Bool → Event → Option Progress
follow [] is_pending e = none
follow (m ∷ ms) false (on_pending mac d) =
    next_of (text_eq mac m && is_state 2 d.state) (at (m ∷ ms) true)
follow (m ∷ ms) true (on_pending mac d) = none
follow (m ∷ ms) true (adopt_sent mac) = next_of (text_eq mac m) (at (m ∷ ms) true)
follow (m ∷ ms) false (adopt_sent mac) = none
follow (m ∷ ms) is_pending (on_connected mac d) =
    next_of (text_eq mac m && is_connected d) (at ms false)

abbrev join : Option Progress → (Progress → Option Progress) → Option Progress
join none f = none
join (some p) f = f p

unfoldable pub follows : Progress → List Event → Option Progress
follows p [] = some p
follows p (e ∷ es) = join (follow p.left p.is_pending e) (λ q. follows q es)

-- A run that is complete has no device left.
abbrev Ends : FleetEnd → Progress → Type 0
Ends complete p = p ≡ at [] false
Ends no_turns p = Unit {0}
Ends (failed e) p = Unit {0}

abbrev pub IsTrace : Progress → Run → Type 0
IsTrace p run = (q : Progress) × (follows p run.0 ≡ some q) × Ends run.1 q

join-join :
    (o : Option Progress) (f g h : Progress → Option Progress)
    → ((q : Progress) → f q ≡ join (g q) h)
    → join o f ≡ join (join o g) h
join-join none f g h k = refl
join-join (some p) f g h k = k p

follows-append :
    (p : Progress) (xs ys : List Event)
    → follows p (xs ++ ys) ≡ join (follows p xs) (λ q. follows q ys)
unfolding follows
follows-append p [] ys = refl
follows-append p (e ∷ xs) ys =
    join-join (follow p.left p.is_pending e) _ (λ q. follows q xs) _ (λ q. follows-append q xs ys)

log_then-IsTrace :
    (p q : Progress) (log : List Event) (run : Run)
    → follows p log ≡ some q
    → IsTrace q run
    → IsTrace p (log_then log run)
log_then-IsTrace p q log (more, e) h (r, k, ends) =
    (r, follows-append p log more ∙ ap (λ o. join o (λ s. follows s more)) h ∙ k, ends)

-- What a loop has seen of the device that it gives.
abbrev Seen : LoopEnd (Device × Bool) → Type 0
Seen used_up = Unit {0}
Seen (stopped e) = Unit {0}
Seen (finished (d, true) ts) = is_connected d ≡ true
Seen (finished (d, false) ts) = is_state 2 d.state ≡ true

wait_turn-Seen :
    (t : Turn) (e : FleetError) (next : LoopEnd (Device × Bool))
    → Seen next
    → Seen (wait_turn t e next)
wait_turn-Seen t e next h = elim (Bool-cases t.alive) [
  | inl a ↦ elim (Bool-cases t.is_done) [ inl b ↦ rw (a, b) tt | inr b ↦ rw (a, b) h ]
  | inr a ↦ rw a tt
]

pending_answer-Seen :
    (t : Turn) (ts : List Turn) (r : Result Text Device) (next : LoopEnd (Device × Bool))
    → Seen next
    → Seen (pending_answer t ts r next)
pending_answer-Seen t ts (err e) next h = wait_turn-Seen t _ next h
pending_answer-Seen t ts (ok d) next h = elim (Bool-cases (is_connected d)) [
  | inl a ↦ rw a a
  | inr a ↦ elim (Bool-cases (is_state 2 d.state)) [
    | inl b ↦ rw (a, b) b
    | inr b ↦ rw (a, b) (wait_turn-Seen t _ next h)
  ]
]

wait_pending-Seen : (ts : List Turn) → Seen (wait_pending ts)
unfolding wait_pending
wait_pending-Seen [] = tt
wait_pending-Seen (t ∷ ts) = pending_answer-Seen t ts t.lookup _ (wait_pending-Seen ts)

abbrev Connected : LoopEnd Device → Type 0
Connected used_up = Unit {0}
Connected (stopped e) = Unit {0}
Connected (finished d ts) = is_connected d ≡ true

adopted_answer-Connected :
    (t : Turn) (ts : List Turn) (r : Result Text Device) (next : LoopEnd Device)
    → Connected next
    → Connected (adopted_answer t ts r next)
adopted_answer-Connected t ts (err e) next h = elim (Bool-cases t.is_done) [
  | inl a ↦ rw a tt
  | inr a ↦ rw a h
]
adopted_answer-Connected t ts (ok d) next h = elim (Bool-cases (is_connected d)) [
  | inl a ↦ rw a a
  | inr a ↦ elim (Bool-cases t.is_done) [ inl b ↦ rw (a, b) tt | inr b ↦ rw (a, b) h ]
]

wait_adopted-Connected : (ts : List Turn) → Connected (wait_adopted ts)
unfolding wait_adopted
wait_adopted-Connected [] = tt
wait_adopted-Connected (t ∷ ts) =
    adopted_answer-Connected t ts t.lookup _ (wait_adopted-Connected ts)

-- The adopt commands leave the first device pending.
module _ (mac : Text) (macs : List Text) where
  abbrev Stays : Sent → Type 0
  Stays sent = follows (at (mac ∷ macs) true) sent.0 ≡ some (at (mac ∷ macs) true)

  adopt_sent-follows :
      (es : List Event)
      → follows (at (mac ∷ macs) true) es ≡ some (at (mac ∷ macs) true)
      → follows (at (mac ∷ macs) true) (adopt_sent mac ∷ es) ≡ some (at (mac ∷ macs) true)
  unfolding follows
  adopt_sent-follows es h = rw (text_eq_refl mac) h

  one_adopt : follows (at (mac ∷ macs) true) (adopt_sent mac ∷ []) ≡ some (at (mac ∷ macs) true)
  unfolding follows
  one_adopt = rw (text_eq_refl mac) refl

  adopt_answer-Stays :
      (t : Turn) (ts : List Turn) (r : Result AdoptError (Unit {0})) (next : Sent)
      → Stays next
      → Stays (adopt_answer mac t ts r next)
  adopt_answer-Stays t ts (ok u) next h = one_adopt
  adopt_answer-Stays t ts (err e) (log, end) h = elim (Bool-cases (may_retry e)) [
    | inl a ↦ elim (Bool-cases (is_adopted t.lookup)) [
      | inl b ↦ rw (a, b) one_adopt
      | inr b ↦ elim (Bool-cases t.alive) [
        | inl c ↦ elim (Bool-cases t.is_done) [
          | inl d ↦ rw (a, b, c, d) one_adopt
          | inr d ↦ rw (a, b, c, d) (adopt_sent-follows log h)
        ]
        | inr c ↦ rw (a, b, c) one_adopt
      ]
    ]
    | inr a ↦ rw a one_adopt
  ]

  adopt_with_retry-Stays : (ts : List Turn) → Stays (adopt_with_retry mac ts)
  unfolding adopt_with_retry follows
  adopt_with_retry-Stays [] = refl
  adopt_with_retry-Stays (t ∷ ts) = adopt_answer-Stays t ts t.adopt _ (adopt_with_retry-Stays ts)

  connected-follows :
      (b : Bool) (d : Device)
      → is_connected d ≡ true
      → follows (at (mac ∷ macs) b) (on_connected mac d ∷ []) ≡ some (at macs false)
  unfolding follows
  connected-follows true d h = rw (text_eq_refl mac, h) refl
  connected-follows false d h = rw (text_eq_refl mac, h) refl

  pending-follows :
      (d : Device)
      → is_state 2 d.state ≡ true
      → follows (at (mac ∷ macs) false) (on_pending mac d ∷ []) ≡ some (at (mac ∷ macs) true)
  unfolding follows
  pending-follows d h = rw (text_eq_refl mac, h) refl

  nothing : (p : Progress) (e : FleetEnd) → Ends e p → IsTrace p ([], e)
  unfolding follows
  nothing p e h = (p, refl, h)

  module _ (next : List Turn → Run)
      (rest : (ts : List Turn) → IsTrace (at macs false) (next ts)) where
    after_adopted-IsTrace :
        (r : LoopEnd Device)
        → Connected r
        → IsTrace (at (mac ∷ macs) true) (after_adopted mac r next)
    after_adopted-IsTrace used_up h = nothing (at (mac ∷ macs) true) no_turns tt
    after_adopted-IsTrace (stopped e) h = nothing (at (mac ∷ macs) true) (failed e) tt
    after_adopted-IsTrace (finished d ts) h =
        log_then-IsTrace (at (mac ∷ macs) true) (at macs false) (on_connected mac d ∷ []) (next ts)
          (connected-follows true d h) (rest ts)

    after_adopt-IsTrace :
        (r : LoopEnd (Unit {0})) → IsTrace (at (mac ∷ macs) true) (after_adopt mac r next)
    after_adopt-IsTrace used_up = nothing (at (mac ∷ macs) true) no_turns tt
    after_adopt-IsTrace (stopped e) = nothing (at (mac ∷ macs) true) (failed e) tt
    after_adopt-IsTrace (finished u ts) =
        after_adopted-IsTrace (wait_adopted ts) (wait_adopted-Connected ts)

    adopt_device-IsTrace :
        (ts : List Turn) → IsTrace (at (mac ∷ macs) true) (adopt_device mac ts next)
    unfolding adopt_device
    adopt_device-IsTrace ts =
        log_then-IsTrace (at (mac ∷ macs) true) (at (mac ∷ macs) true) (adopt_with_retry mac ts).0 _
          (adopt_with_retry-Stays ts) (after_adopt-IsTrace (adopt_with_retry mac ts).1)

    after_pending-IsTrace :
        (require_pending : Bool) (r : LoopEnd (Device × Bool))
        → Seen r
        → IsTrace (at (mac ∷ macs) false) (after_pending require_pending mac r next)
    after_pending-IsTrace b used_up h = nothing (at (mac ∷ macs) false) no_turns tt
    after_pending-IsTrace b (stopped e) h = nothing (at (mac ∷ macs) false) (failed e) tt
    after_pending-IsTrace true (finished (d, true) ts) h =
        nothing (at (mac ∷ macs) false) (failed already_adopted) tt
    after_pending-IsTrace false (finished (d, true) ts) h =
        log_then-IsTrace (at (mac ∷ macs) false) (at macs false) (on_connected mac d ∷ []) (next ts)
          (connected-follows false d h) (rest ts)
    after_pending-IsTrace b (finished (d, false) ts) h =
        log_then-IsTrace (at (mac ∷ macs) false) (at (mac ∷ macs) true) (on_pending mac d ∷ [])
          (adopt_device mac ts next) (pending-follows d h) (adopt_device-IsTrace ts)

-- Whatever the controller answers, the log of a fleet is a trace of the protocol that takes the
-- devices one after the other in their order: only the first one left is reported pending, in state
-- 2, adopt commands go to it alone and while it is pending, and it leaves the list connected and
-- adopted; a run that is complete has left no device.
pub fleet-IsTrace :
    (require_pending : Bool) (macs : List Text) (ts : List Turn)
    → IsTrace (at macs false) (fleet require_pending macs ts)
unfolding fleet follows
fleet-IsTrace require_pending [] ts = (at [] false, refl, refl)
fleet-IsTrace require_pending (mac ∷ macs) ts =
    after_pending-IsTrace mac macs _ (λ rest. fleet-IsTrace require_pending macs rest)
      require_pending (wait_pending ts) (wait_pending-Seen ts)
