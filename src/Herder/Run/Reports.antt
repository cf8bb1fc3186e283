-- ===== src/Herder/Run/Reports.antt =====
-- internal/herder/run.go: what a run has on stdout when it is over.
use unifi_emu.Common.{
  ◌≡◌, refl, ◌∙◌, Bool, true, false, List, [], ◌∷◌, ◌++◌, Option, none, some, Text, Result, ok, err,
  OnError, arith, All,
}
use unifi_emu.Herder.Protocol.{
  allows_phase, code_matrix, phase_among, started_event, ready_event, FailedEvent, ReadyDevice,
  Writer, new_writer, written, emit, write_started, write_ready, before_terminal,
  write_failed_event, write_stopped,
}
use unifi_emu.Herder.Protocol.Order.{
  first, readiness, last, kinds, when, IsLegal, IsOrdered, new_writer-IsOrdered, started-IsOrdered,
  ready-IsOrdered, stopped-IsOrdered, failed-IsOrdered,
}
use unifi_emu.Herder.Plan.{Container, Plan}
use unifi_emu.Herder.Run.{Ending, stopped, failed, Launch, Options, Environment, Live}
use unifi_emu.Herder.Run.Startup.{validate, launch_all, lives_of, ready_devices}
use unifi_emu.Herder.Run.Monitor.{Tick, monitor}
use unifi_emu.Herder.Run.Execute.{
  Script, Finished, cleanup, report, report_ending, cleanup_event, stop_reason, finish,
  after_validate, after_start, finish_monitored, execute,
}
use unifi_emu.Herder.Run.Legal.{IsLegalEnding}
use unifi_emu.Herder.Run.Sound.{IsSound, validate-OnError, start-OnError}
use unifi_emu.Herder.Run.Quiet.{EndsLegally, monitor-EndsLegally, IsQuiet, is_cancelled}

-- A writer whose started event is out and whose terminal event is not.
record IsOpen (w : Writer) : Type 0 where
  ordered : IsOrdered w
  is_started : w.started ≡ true
  no_terminal : w.terminal ≡ false
  not_broken : w.broken ≡ false

record IsClosed (w : Writer) : Type 0 where
  ordered : IsOrdered w
  is_started : w.started ≡ true
  is_terminal : w.terminal ≡ true

stopped_flags :
    (w : Writer) (id reason : Text)
    → IsOpen w
    → ((write_stopped w id reason written).0.started ≡ true)
      × ((write_stopped w id reason written).0.terminal ≡ true)
unfolding write_stopped emit before_terminal
stopped_flags w id reason h = ground (arith, h.is_started, h.no_terminal, h.not_broken)

failed_flags :
    (w : Writer) (ev : FailedEvent)
    → IsOpen w
    → allows_phase ev.code ev.phase ≡ true
    → ((write_failed_event w ev written).0.started ≡ true)
      × ((write_failed_event w ev written).0.terminal ≡ true)
unfolding write_failed_event emit before_terminal
failed_flags w ev h a = ground (arith, h.is_started, h.no_terminal, h.not_broken)

stopped-IsClosed :
    (w : Writer) (id reason : Text) → IsOpen w → IsClosed (write_stopped w id reason written).0
stopped-IsClosed w id reason h = record {
  ordered = stopped-IsOrdered w id reason written h.ordered;
  is_started = (stopped_flags w id reason h).0;
  is_terminal = (stopped_flags w id reason h).1;
}

failed-IsClosed :
    (w : Writer) (ev : FailedEvent)
    → IsOpen w
    → allows_phase ev.code ev.phase ≡ true
    → IsClosed (write_failed_event w ev written).0
failed-IsClosed w ev h a = record {
  ordered = failed-IsOrdered w ev written h.ordered;
  is_started = (failed_flags w ev h a).0;
  is_terminal = (failed_flags w ev h a).1;
}

report_ending-IsClosed :
    (o : Options) (env : Environment) (w : Writer) (e : Ending)
    → IsOpen w
    → IsLegalEnding e
    → IsClosed (report_ending o env w e written).0
report_ending-IsClosed o env w stopped h l = stopped-IsClosed w o.run_id (stop_reason env) h
report_ending-IsClosed o env w (failed f) h l =
    failed-IsClosed w
      (record {
        run_id = o.run_id;
        phase = f.phase;
        code = f.code;
        cause = none;
        cleanup_complete = true;
        devices = f.devices;
      })
      h l

report-IsClosed :
    (o : Options) (env : Environment) (w : Writer) (e : Ending) (complete docker_lost : Bool)
    → IsOpen w
    → IsLegalEnding e
    → IsClosed (report o env w e written (complete, docker_lost)).0
unfolding report allows_phase code_matrix phase_among
report-IsClosed o env w e false docker_lost h l =
    failed-IsClosed w (cleanup_event o e docker_lost) h refl
report-IsClosed o env w e true docker_lost h l = report_ending-IsClosed o env w e h l

finish-IsClosed :
    (o : Options) (env : Environment) (ls : List Live) (w : Writer) (e : Ending)
    → IsOpen w
    → IsLegalEnding e
    → IsClosed (finish o env written ls w e).writer
unfolding finish
finish-IsClosed o env ls w e h l =
    report-IsClosed o env w e (cleanup env ls).0 (cleanup env ls).1 h l

-- A run that is over, with its terminal event.
unfoldable pub IsReported : Option Finished → Type 0
IsReported none = ◌≡◌ {A = Bool} true false
IsReported (some r) =
    ((b : Bool) × (kinds r.writer.out ≡ first ∷ (when b readiness ++ (last ∷ []))))
    × All IsLegal r.writer.out

both_flags :
    (a b c : Bool)
    → a ≡ true
    → c ≡ true
    → (when a first ++ (when b readiness ++ when c last))
      ≡ (first ∷ (when b readiness ++ (last ∷ [])))
both_flags true b true h k = refl
both_flags true b false h k = cc
both_flags false b c h k = cc

closed-IsReported : (r : Finished) → IsClosed r.writer → IsReported (some r)
unfolding IsReported
closed-IsReported r h = (
  (r.writer.ready, h.ordered.in_order ∙ both_flags _ r.writer.ready _ h.is_started h.is_terminal),
  h.ordered.legal,
)

-- stdout after the first event, and after the second.
abbrev one_event : Text → Writer
one_event id = record {
  broken = false;
  started = true;
  ready = false;
  terminal = false;
  out = started_event id ∷ [];
}

abbrev two_events : Text → List ReadyDevice → Writer
two_events id ds = record {
  broken = false;
  started = true;
  ready = true;
  terminal = false;
  out = started_event id ∷ ready_event id ds ∷ [];
}

one_event-IsOpen : (id : Text) → IsOpen (one_event id)
unfolding write_started emit new_writer
one_event-IsOpen id = record {
  ordered = started-IsOrdered new_writer id written new_writer-IsOrdered;
  is_started = refl;
  no_terminal = refl;
  not_broken = refl;
}

two_events-IsOpen : (id : Text) (ds : List ReadyDevice) → IsOpen (two_events id ds)
unfolding write_ready emit
two_events-IsOpen id ds = record {
  ordered = ready-IsOrdered (one_event id) id ds written (one_event-IsOpen id).ordered;
  is_started = refl;
  no_terminal = refl;
  not_broken = refl;
}

-- The runs whose three writes succeed.
abbrev all_written : List Tick → Script
all_written ticks = record { started = written; ready = written; terminal = written; ticks = ticks }

module _ (o : Options) (env : Environment) (ticks : List Tick) where
  finished-IsReported :
      (ls : List Live) (w : Writer) (e : Ending)
      → IsOpen w
      → IsLegalEnding e
      → IsReported (some (finish o env written ls w e))
  finished-IsReported ls w e h l = closed-IsReported _ (finish-IsClosed o env ls w e h l)

  finish_monitored-IsReported :
      (ls : List Live) (w : Writer) (m : Option Ending)
      → IsOpen w
      → EndsLegally m
      → IsReported (finish_monitored o env (all_written ticks) ls w m)
  unfolding EndsLegally
  finish_monitored-IsReported ls w m h (e, eq, l) = rw eq (finished-IsReported ls w e h l)

  after_start-IsReported :
      (plan : Plan) (launches : List (Container × Launch)) (r : Result Ending (List Live))
      → OnError IsLegalEnding r
      → All IsQuiet ticks
      → is_cancelled ticks ≡ true
      → IsReported (after_start o env (all_written ticks) plan (one_event o.run_id) launches r)
  unfolding write_ready emit
  after_start-IsReported plan launches (err e) h q c =
      finished-IsReported (lives_of launches) (one_event o.run_id) e (one_event-IsOpen o.run_id) h
  after_start-IsReported plan launches (ok lives) h q c =
      let ds = ready_devices lives in
      finish_monitored-IsReported lives (two_events o.run_id ds) (monitor plan lives 0 ticks)
        (two_events-IsOpen o.run_id ds) (monitor-EndsLegally plan lives 0 ticks q c)

  after_validate-IsReported :
      (known : Text → Bool) (r : Result Ending Plan)
      → IsSound o env
      → OnError IsLegalEnding r
      → All IsQuiet ticks
      → is_cancelled ticks ≡ true
      → IsReported (after_validate o env (all_written ticks) (one_event o.run_id) r)
  after_validate-IsReported known (err e) sound h q c =
      finished-IsReported [] (one_event o.run_id) e (one_event-IsOpen o.run_id) h
  after_validate-IsReported known (ok plan) sound h q c =
      after_start-IsReported plan (launch_all env 0 plan.units) _
        (start-OnError known o env sound plan 0 plan.units) q c

  -- A run whose three writes succeed, whose backend gives each failure a phase of its code, and whose
  -- monitor meets a context that is cancelled, not past a deadline, always ends, and it has on
  -- stdout exactly one started event, at most one ready event and one terminal event, in this
  -- order, where a failed event has a code that is defined for its phase.
  pub execute-IsReported :
      (known : Text → Bool)
      → IsSound o env
      → All IsQuiet ticks
      → is_cancelled ticks ≡ true
      → IsReported (execute known o env (all_written ticks))
  unfolding execute write_started emit new_writer
  execute-IsReported known sound q c =
      after_validate-IsReported known (validate known o env) sound
        (validate-OnError known o env sound) q c
