-- ===== src/Herder/Protocol/Order.antt =====
-- internal/herder/protocol.go: the events on stdout over sequences of calls and write outcomes.
use unifi_emu.Common.{
  ◌≡◌, ◌≢◌, refl, ap, ◌∙◌, Bool, true, false, List, [], ◌∷◌, ◌++◌, none, Text, if◌then◌else◌, arith,
  All, All-append, Bool-cases, ◌⊎◌, inl, inr,
}
use unifi_emu.Herder.Protocol.{
  Event, started_event, ready_event, failed_event, stopped_event, FailedEvent, ReadyDevice, Writer,
  new_writer, Outcome, Emitted, emit, write_started, write_ready, before_terminal,
  write_failed_event, write_stopped, allows_phase, message,
}

-- A call of the writer.
pub data Call : Type 0 where
  call_started : Text → Call
  call_ready : Text → List ReadyDevice → Call
  call_failed : FailedEvent → Call
  call_stopped : Text → Text → Call

unfoldable pub call : Writer → Call → Outcome → Emitted
call w (call_started run_id) o = write_started w run_id o
call w (call_ready run_id devices) o = write_ready w run_id devices o
call w (call_failed ev) o = write_failed_event w ev o
call w (call_stopped run_id reason) o = write_stopped w run_id reason o

unfoldable pub calls : Writer → List (Call × Outcome) → Writer
calls w [] = w
calls w ((c, o) ∷ rest) = calls (call w c o).0 rest

-- The three kinds of event, and those of a list.
pub data Kind : Type 0 where
  first readiness last : Kind

abbrev pub kind : Event → Kind
kind (started_event id) = first
kind (ready_event id devices) = readiness
kind (failed_event ev text) = last
kind (stopped_event id reason) = last

unfoldable pub kinds : List Event → List Kind
kinds [] = []
kinds (e ∷ es) = kind e ∷ kinds es

kinds-append : (xs ys : List Event) → kinds (xs ++ ys) ≡ kinds xs ++ kinds ys
unfolding kinds
kinds-append [] ys = refl
kinds-append (x ∷ xs) ys = ap (λ t. kind x ∷ t) (kinds-append xs ys)

abbrev pub when : Bool → Kind → List Kind
when b k = if b then k ∷ [] else []

-- A failure on stdout has a code that is defined for its phase, and that code's message.
abbrev pub IsLegal : Event → Type 0
IsLegal (started_event id) = Unit {0}
IsLegal (ready_event id devices) = Unit {0}
IsLegal (failed_event ev text) = (allows_phase ev.code ev.phase ≡ true) × (text ≡ message ev.code)
IsLegal (stopped_event id reason) = Unit {0}

pub record IsOrdered (w : Writer) : Type 0 where
  pub nothing_before : w.started ≡ false → (w.ready ≡ false) × (w.terminal ≡ false)
  pub in_order :
      kinds w.out ≡ when w.started first ++ (when w.ready readiness ++ when w.terminal last)
  pub legal : All IsLegal w.out

pub new_writer-IsOrdered : IsOrdered new_writer
unfolding new_writer kinds
new_writer-IsOrdered = record { nothing_before = λ _. (refl, refl); in_order = refl; legal = tt }

-- What an event adds.
add_kind :
    (w : Writer) (ev : Event)
    → IsOrdered w
    → IsLegal ev
    → (kinds (w.out ++ (ev ∷ []))
        ≡ (when w.started first ++ (when w.ready readiness ++ when w.terminal last))
          ++ (kind ev ∷ []))
      × All IsLegal (w.out ++ (ev ∷ []))
unfolding kinds
add_kind w ev h l = (
  kinds-append w.out (ev ∷ []) ∙ ap (λ t. t ++ (kind ev ∷ [])) h.in_order,
  All-append IsLegal w.out (ev ∷ []) h.legal (l, tt),
)

pub started-IsOrdered :
    (w : Writer) (id : Text) (o : Outcome) → IsOrdered w → IsOrdered (write_started w id o).0
unfolding write_started emit
started-IsOrdered w id o h = ground (arith, add_kind w (started_event id) h tt)

pub ready-IsOrdered :
    (w : Writer) (id : Text) (ds : List ReadyDevice) (o : Outcome)
    → IsOrdered w
    → IsOrdered (write_ready w id ds o).0
unfolding write_ready emit
ready-IsOrdered w id ds o h = ground (arith, add_kind w (ready_event id ds) h tt)

pub stopped-IsOrdered :
    (w : Writer) (id reason : Text) (o : Outcome)
    → IsOrdered w
    → IsOrdered (write_stopped w id reason o).0
unfolding write_stopped emit before_terminal
stopped-IsOrdered w id reason o h = ground (arith, add_kind w (stopped_event id reason) h tt)

pub failed-IsOrdered :
    (w : Writer) (ev : FailedEvent) (o : Outcome)
    → IsOrdered w
    → IsOrdered (write_failed_event w ev o).0
unfolding write_failed_event emit before_terminal
failed-IsOrdered w ev o h = elim (Bool-cases (allows_phase ev.code ev.phase)) [
  | inl e ↦ ground (arith, add_kind w (failed_event ev (message ev.code)) h (e, refl))
  | inr e ↦ ground arith
]

call-IsOrdered : (w : Writer) (c : Call) (o : Outcome) → IsOrdered w → IsOrdered (call w c o).0
unfolding call
call-IsOrdered w (call_started id) o h = started-IsOrdered w id o h
call-IsOrdered w (call_ready id ds) o h = ready-IsOrdered w id ds o h
call-IsOrdered w (call_failed ev) o h = failed-IsOrdered w ev o h
call-IsOrdered w (call_stopped id reason) o h = stopped-IsOrdered w id reason o h

calls_keep : (w : Writer) (cs : List (Call × Outcome)) → IsOrdered w → IsOrdered (calls w cs)
unfolding calls
calls_keep w [] h = h
calls_keep w ((c, o) ∷ cs) h = calls_keep (call w c o).0 cs (call-IsOrdered w c o h)

-- Whatever calls are made of a new writer and whichever writes fail, stdout holds at most one
-- started event, then at most one ready event, then at most one terminal event, in this order and
-- the latter two only after the first; each failure there has a code that is defined for its phase.
pub calls-IsOrdered : (cs : List (Call × Outcome)) → IsOrdered (calls new_writer cs)
calls-IsOrdered cs = calls_keep new_writer cs new_writer-IsOrdered

call_silent :
    (w : Writer) (c : Call) (o : Outcome)
    → (w.broken ≡ true) ⊎ ((w.started ≡ true) × (w.terminal ≡ true))
    → ((call w c o).0 ≡ w) × ((call w c o).1 ≢ none)
unfolding call write_started write_ready write_failed_event write_stopped emit before_terminal
call_silent w c o h = ground arith

calls_keep_silent :
    (w : Writer) (cs : List (Call × Outcome))
    → (w.broken ≡ true) ⊎ ((w.started ≡ true) × (w.terminal ≡ true))
    → calls w cs ≡ w
unfolding calls
calls_keep_silent w [] h = refl
calls_keep_silent w ((c, o) ∷ cs) h = rw (call_silent w c o h).0 (calls_keep_silent w cs h)

-- Once a write of a writer has failed or its terminal event is out, every further call fails, and no
-- sequence of calls changes the writer or stdout.
pub calls_silent :
    (w : Writer) (c : Call) (o : Outcome) (cs : List (Call × Outcome))
    → IsOrdered w
    → (w.broken ≡ true) ⊎ (w.terminal ≡ true)
    → ((call w c o).1 ≢ none) × (calls w cs ≡ w)
calls_silent w c o cs i h =
    let done : (w.broken ≡ true) ⊎ ((w.started ≡ true) × (w.terminal ≡ true)) =
      ground (arith, i.nothing_before) in
    ((call_silent w c o done).1, calls_keep_silent w cs done)
