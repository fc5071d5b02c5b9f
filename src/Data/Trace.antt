-- ===== src/Data/Trace.antt =====
-- The recorder's state of kernel/trace.c and the types of include/trace.h.
use Prim.Native.Nat.{ℕ}
use mathlib.Core.Bool.{Bool}
use bumbel_bee.Base.{Array}

-- enum trace_event_type
abbrev pub trace_event_irq : ℕ
trace_event_irq = 1

abbrev pub trace_event_keyboard : ℕ
trace_event_keyboard = 2

abbrev pub trace_event_sched : ℕ
trace_event_sched = 3

abbrev pub trace_event_workload : ℕ
trace_event_workload = 6

abbrev pub trace_event_net : ℕ
trace_event_net = 7

abbrev pub trace_event_power : ℕ
trace_event_power = 8

-- struct trace_event
pub record TraceEvent : Type 0 where
  pub event_id : ℕ
  pub timestamp : ℕ
  pub pid : ℕ
  pub type : ℕ
  pub size : ℕ
  pub data0 : ℕ
  pub data1 : ℕ

-- struct trace_stats
pub record TraceStats : Type 0 where
  pub events : ℕ
  pub dropped : ℕ
  pub bytes : ℕ
  pub sessions : ℕ
  pub last_duration_ticks : ℕ
  pub last_hash : ℕ
  pub last_buffer_peak : ℕ

-- struct trace_session_info
pub record SessionInfo : Type 0 where
  pub session_id : ℕ
  pub size_bytes : ℕ
  pub event_count : ℕ
  pub profile_id : ℕ
  pub start_ticks : ℕ
  pub duration_ticks : ℕ
  pub sequence_hash : ℕ

-- replay_state
pub record ReplayState : Type 0 where
  pub active : Bool
  pub failed : Bool
  pub session_id : ℕ
  pub event_count : ℕ
  pub event_index : ℕ
  pub virtual_ticks : ℕ
  pub info : SessionInfo
  pub expected : TraceEvent
  pub actual : TraceEvent

pub record TraceState : Type 0 where
  pub buffer : Array TraceEvent
  pub replay_buffer : Array TraceEvent
  pub sessions : Array SessionInfo
  pub stats : TraceStats
  pub recording : Bool
  pub next_event_id : ℕ
  pub current_events : ℕ
  pub record_start_ticks : ℕ
  pub buffer_peak : ℕ
  pub current_profile : ℕ
  pub replay : ReplayState
