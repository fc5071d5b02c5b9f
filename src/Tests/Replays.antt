-- ===== src/Tests/Replays.antt =====
-- The theorems on stored recordings, applied to one with a switch in it.
use mathlib.Core.List.{map}
use bumbel_bee.Base.{ℕ, zero, suc, ◌<◌, ◌≡◌, ◌↔◌, refl, true, false, some, [], ◌∷◌, write, arith}
use bumbel_bee.Data.{Kernel, TraceEvent}
use bumbel_bee.Bytes.{Fits}
use bumbel_bee.Fs.Files.{sectors_for}
use bumbel_bee.Fs.Refusal.{HasRoom}
use bumbel_bee.Trace.{trace_hash_events}
use bumbel_bee.Trace.Steps.{Call, call_summary}
use bumbel_bee.Trace.Replay.{verdict}
use bumbel_bee.Trace.Capture.{captured}
use bumbel_bee.Trace.Session.{event_fields, trace_stop, trace_replay_session, empty_event}
use bumbel_bee.Trace.Reload.{IsStored, session_bytes, replay_of, replay_of_recording}
use bumbel_bee.Trace.Hash.{replay_session_matches}
use bumbel_bee.Tests.Sample.{booted}
use bumbel_bee.Tests.Disk.{memory_drive, one_session, one_session-IsValid}
use bumbel_bee.Tests.Files.{memory_accepts}

-- the shell's switch to slot 3
abbrev switch_event : TraceEvent
switch_event = record {
  event_id = 1;
  timestamp = 40;
  pid = 1;
  type = 3;
  size = 40;
  data0 = 0;
  data1 = 3;
}

abbrev switch_call : Call
switch_call = record { type = 3; pid = 0; data0 = 0; data1 = 3 }

abbrev recorded : Kernel
recorded = record booted {
  trace = record (booted.trace) {
    buffer = write booted.trace.buffer 0 switch_event;
    current_events = 1;
    recording = true;
  };
}

recorded-Fits : (i : ℕ) → i < 1 → Fits (event_fields (recorded.trace.buffer i))
unfolding Fits
recorded-Fits zero lt = (
  omega arith,
  (
    omega arith,
    (omega arith, (omega arith, (omega arith, (omega arith, (omega arith, record {}))))),
  ),
)
recorded-Fits (suc i) lt = absurd (omega arith)

recorded-IsStored : IsStored recorded
recorded-IsStored = record { within = omega arith; fits = recorded-Fits }

recorded-HasRoom : HasRoom (session_bytes recorded) one_session
unfolding sectors_for
recorded-HasRoom = record { online = refl; sectors = omega arith; slot = (1, omega arith, refl) }

replay_of_recording_example :
    (verdict (switch_call ∷ []) (replay_of memory_drive recorded one_session).1 ≡ false)
    ↔ (map (call_summary recorded) (switch_call ∷ []) ≡ captured recorded)
replay_of_recording_example =
    replay_of_recording memory_drive recorded one_session (switch_call ∷ []) recorded-IsStored
      memory_accepts refl one_session-IsValid recorded-HasRoom

replay_session_matches_example :
    trace_replay_session memory_drive 2
      (λ i. empty_event)
      (trace_stop memory_drive recorded one_session).1
    ≡ some (1, trace_hash_events recorded.trace.buffer 1, trace_hash_events recorded.trace.buffer 1)
replay_session_matches_example =
    replay_session_matches memory_drive recorded one_session (λ i. empty_event) recorded-IsStored
      memory_accepts refl one_session-IsValid recorded-HasRoom
