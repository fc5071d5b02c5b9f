-- ===== src/Trace.antt =====
-- kernel/trace.c: the recorder, and the comparison of a replayed run with a recorded one.
pub mod Steps
pub mod Replay
pub mod Capture
pub mod Frame
pub mod Session
pub mod Codec
pub mod Reload
pub mod Hash
use bumbel_bee.Base.{
  ℕ, zero, suc, ◌+◌, ◌*◌, ◌/◌, ◌%◌, ◌^◌, Bool, true, false, not, ◌&&◌, ◌||◌, Option, none, some,
  List, [], ◌∷◌, Array, ◌==◌, ltb, leb, if◌then◌else◌, u32, u64, write,
}
use Prim.Native.Nat.{bit_xor}
use bumbel_bee.Data.{
  Kernel, TraceState, ReplayState, TraceEvent, trace_event_irq, trace_event_sched,
}
use bumbel_bee.Clock.{
  trace_replay_active, pit_ticks, sched_current_pid, sched_set_current_event_count,
}

abbrev pub trace_buffer_cap : ℕ
trace_buffer_cap = 4096

-- sizeof(struct trace_event)
abbrev event_bytes : ℕ
event_bytes = 40

-- WORKLOAD_PROFILE_NONE
abbrev pub profile_none : ℕ
profile_none = 0

-- One round of the loop in `hash_mix`, at the byte `value >> (i * 8)`.
hash_round : ℕ → ℕ → ℕ → ℕ
hash_round hash value i = u64 (bit_xor hash (value / 2 ^ (i * 8) % 256) * 1099511628211)

hash_rounds : ℕ → ℕ → ℕ → ℕ → ℕ
hash_rounds zero hash value i = hash
hash_rounds (suc n) hash value i = hash_rounds n (hash_round hash value i) value (i + 1)

pub hash_mix : ℕ → ℕ → ℕ
unfolding hash_rounds hash_round
hash_mix hash value = hash_rounds 8 hash value 0

hash_event : ℕ → TraceEvent → ℕ
unfolding hash_mix
hash_event hash e =
    let h = hash_mix (hash_mix (hash_mix hash e.event_id) e.timestamp) e.pid in
    hash_mix (hash_mix (hash_mix h e.type) e.data0) e.data1

hash_from : ℕ → Array TraceEvent → ℕ → ℕ → ℕ
hash_from hash events zero i = hash
hash_from hash events (suc n) i = hash_from (hash_event hash (events i)) events n (i + 1)

unfoldable pub trace_hash_events : Array TraceEvent → ℕ → ℕ
unfolding hash_from hash_event
trace_hash_events events count = hash_from 1469598103934665603 events count 0

-- The fields that a replay compares.
unfoldable pub same_event : TraceEvent → TraceEvent → Bool
same_event a b = a.pid == b.pid && a.type == b.type && a.data0 == b.data0 && a.data1 == b.data1

-- The part of `trace_record` under `replay_state.active`.
pub replay_check : Array TraceEvent → ReplayState → TraceEvent → ReplayState
unfolding same_event
replay_check replay_buffer r event =
    if leb r.event_count r.event_index
    then record r { failed = true; actual = event }
    else let expected = replay_buffer r.event_index in
      let event' = record event { event_id = expected.event_id; timestamp = expected.timestamp } in
      let r' = record r {
        expected = expected;
        virtual_ticks = expected.timestamp;
        actual = event';
      } in
      if same_event event' expected
      then record r' { event_index = u32 (r.event_index + 1) }
      else record r' { failed = true }

-- The part of `trace_record` behind the test of `recording`.
pub store_event : TraceEvent → Kernel → Kernel
unfolding sched_set_current_event_count
store_event event k =
    let t = k.trace in
    if leb trace_buffer_cap t.current_events
    then record k {
      trace = record t { stats = record (t.stats) { dropped = u64 (t.stats.dropped + 1) } };
    }
    else let current_events = u32 (t.current_events + 1) in
      let events = u64 (t.stats.events + 1) in
      let t' = record t {
        buffer = write t.buffer t.current_events event;
        current_events = current_events;
        buffer_peak = if ltb t.buffer_peak current_events then current_events else t.buffer_peak;
        stats = record (t.stats) { events = events; bytes = u64 (t.stats.bytes + event_bytes) };
      } in
      record k { trace = t'; sched = sched_set_current_event_count events k.sched }

-- `if (pid == 0) pid = sched_current_pid()`
unfoldable pub event_pid : Kernel → ℕ → ℕ
unfolding sched_current_pid
event_pid k pid = if pid == 0 then sched_current_pid k.sched else pid

pub new_event : ℕ → ℕ → ℕ → ℕ → Kernel → TraceEvent
unfolding event_pid pit_ticks
new_event type pid data0 data1 k = record {
  event_id = k.trace.next_event_id;
  timestamp = pit_ticks k;
  pid = event_pid k pid;
  type = type;
  size = event_bytes;
  data0 = data0;
  data1 = data1;
}

-- An interrupt is not recorded while a workload profile is.
unfoldable pub skips_irq : TraceState → ℕ → Bool
skips_irq t type = t.recording && not (t.current_profile == profile_none) && type == trace_event_irq

unfoldable pub trace_record : ℕ → ℕ → ℕ → ℕ → Kernel → Kernel
unfolding skips_irq new_event trace_replay_active
trace_record type pid data0 data1 k =
    if skips_irq k.trace type
    then k
    else let event = new_event type pid data0 data1 k in
      let t = record (k.trace) { next_event_id = u64 (k.trace.next_event_id + 1) } in
      if trace_replay_active t
      then record k { trace = record t { replay = replay_check t.replay_buffer t.replay event } }
      else (if t.recording
          then store_event event (record k { trace = t })
          else record k { trace = t })

unfoldable pub trace_start_profile : ℕ → Kernel → Kernel
unfolding pit_ticks
trace_start_profile profile_id k = record k {
  trace = record (k.trace) {
    recording = true;
    stats = record (k.trace.stats) { sessions = u64 (k.trace.stats.sessions + 1) };
    current_events = 0;
    buffer_peak = 0;
    record_start_ticks = pit_ticks k;
    current_profile = profile_id;
  };
}

unfoldable pub trace_start : Kernel → Kernel
unfolding trace_start_profile
trace_start k = trace_start_profile profile_none k

-- `none` is the return value -1; the number is the value stored through `next_index`, before its
-- conversion to int.
unfoldable pub trace_replay_expected_next_task : TraceState → Option ℕ
trace_replay_expected_next_task t =
    if not t.replay.active || leb t.replay.event_count t.replay.event_index
    then none
    else let event = t.replay_buffer t.replay.event_index in
      if event.type == trace_event_sched then some event.data1 else none

-- `trace_replay_end`, less the lines that it prints.
unfoldable pub trace_replay_end : TraceState → TraceState
trace_replay_end t =
    if not t.replay.active
    then t
    else (if not t.replay.failed && not (t.replay.event_index == t.replay.event_count)
        then record t { replay = record (t.replay) { failed = true; active = false } }
        else record t { replay = record (t.replay) { active = false } })
