-- ===== src/Herder/Protocol/Tests.antt =====
-- A run that starts, is refused a second start, fails in its start phase, and falls silent.
use unifi_emu.Common.{◌≡◌, ◌≢◌, refl, inl, true, [], ◌∷◌, none, codes}
use unifi_emu.Herder.Protocol.{
  FailedEvent, phase_start, container_start_failed, Writer, new_writer, written, write_failed,
  write_started, emit,
}
use unifi_emu.Herder.Protocol.Order.{
  call_started, call_failed, call_stopped, call, calls, IsOrdered, calls-IsOrdered, calls_silent,
}

abbrev failure : FailedEvent
failure = record {
  run_id = codes "r1";
  phase = phase_start;
  code = container_start_failed;
  cause = none;
  cleanup_complete = true;
  devices = [];
}

calls-IsOrdered_example : IsOrdered (
    calls new_writer (
      (call_started (codes "r1"), written)
      ∷ (call_started (codes "r1"), written)
      ∷ (call_failed failure, written)
      ∷ (call_stopped (codes "r1") (codes "signal"), written)
      ∷ []))
calls-IsOrdered_example = calls-IsOrdered (
    (call_started (codes "r1"), written)
    ∷ (call_started (codes "r1"), written)
    ∷ (call_failed failure, written)
    ∷ (call_stopped (codes "r1") (codes "signal"), written)
    ∷ [])

abbrev broken_writer : Writer
broken_writer = calls new_writer ((call_started (codes "r1"), write_failed) ∷ [])

calls_silent_example :
    ((call broken_writer (call_started (codes "r1")) written).1 ≢ none)
    × (calls broken_writer ((call_failed failure, written) ∷ []) ≡ broken_writer)
unfolding calls call write_started emit new_writer
calls_silent_example =
    calls_silent broken_writer (call_started (codes "r1")) written
      ((call_failed failure, written) ∷ [])
      (calls-IsOrdered ((call_started (codes "r1"), write_failed) ∷ [])) (inl refl)
