-- ===== src/Trace/Steps.antt =====
-- One call of `trace_record` in a replay: what it compares, and what it leaves as it was.
use mathlib.Core.List.{map}
use bumbel_bee.Base.{
  ℕ, ◌+◌, ◌^◌, ◌≤◌, ◌<◌, ◌≡◌, refl, sym, ◌∙◌, ◌≢◌, ◌↔◌, Bool, true, not, ◌&&◌, List, [], ◌∷◌, Array,
  ◌==◌, arith,
}
use bumbel_bee.Data.{Kernel, ReplayState, TraceEvent}
use bumbel_bee.Trace.{same_event, replay_check, trace_record, event_pid, new_event}

-- The arguments of one call of `trace_record`.
pub record Call : Type 0 where
  pub type : ℕ
  pub pid : ℕ
  pub data0 : ℕ
  pub data1 : ℕ

abbrev pub trace_call : Call → Kernel → Kernel
trace_call c k = trace_record c.type c.pid c.data0 c.data1 k

unfoldable pub trace_all : List Call → Kernel → Kernel
trace_all [] k = k
trace_all (c ∷ cs) k = trace_all cs (trace_call c k)

-- What a replay compares of an event: pid, type and both data words.
abbrev pub Summary : Type 0
Summary = ℕ × ℕ × ℕ × ℕ

abbrev pub summary : TraceEvent → Summary
summary e = (e.pid, e.type, e.data0, e.data1)

abbrev pub call_summary : Kernel → Call → Summary
call_summary k c = (event_pid k c.pid, c.type, c.data0, c.data1)

same_event_iff : (a b : TraceEvent) → (same_event a b ≡ true) ↔ (summary a ≡ summary b)
unfolding same_event
same_event_iff a b = ground arith

-- Once failed, a replay stays failed.
replay_check-failed :
    (buf : Array TraceEvent) (r : ReplayState) (e : TraceEvent)
    → r.failed ≡ true
    → (replay_check buf r e).failed ≡ true
unfolding replay_check
replay_check-failed buf r e h = ground arith

-- The replay has read everything and found no difference.
abbrev pub finished : ReplayState → Bool
finished r = not r.failed && r.event_index == r.event_count

-- One call in replay mode compares the event, and touches neither the tasks nor the recording.
pub record Stepped (type pid data0 data1 : ℕ) (k k' : Kernel) : Type 0 where
  pub replay :
      k'.trace.replay
      ≡ replay_check k.trace.replay_buffer k.trace.replay (new_event type pid data0 data1 k)
  pub buffer : k'.trace.replay_buffer ≡ k.trace.replay_buffer
  pub recording : k'.trace.recording ≡ k.trace.recording
  pub profile : k'.trace.current_profile ≡ k.trace.current_profile
  pub sched : k'.sched ≡ k.sched

abbrev pub records_irqs : Kernel → Bool
records_irqs k = not (k.trace.recording && not (k.trace.current_profile == 0))

trace_record-Stepped :
    (type pid data0 data1 : ℕ) (k : Kernel)
    → k.trace.replay.active ≡ true
    → records_irqs k ≡ true
    → Stepped type pid data0 data1 k (trace_record type pid data0 data1 k)
unfolding trace_record
trace_record-Stepped type pid data0 data1 k a h = ground arith

pub summary-new_event :
    (type pid data0 data1 : ℕ) (k : Kernel)
    → summary (new_event type pid data0 data1 k) ≡ (event_pid k pid, type, data0, data1)
unfolding new_event
summary-new_event type pid data0 data1 k = refl

-- The three outcomes of one comparison.
replay_check_overrun :
    (buf : Array TraceEvent) (r : ReplayState) (e : TraceEvent)
    → r.event_count ≤ r.event_index
    → (replay_check buf r e).failed ≡ true
unfolding replay_check
replay_check_overrun buf r e h = ground arith

replay_check_mismatch :
    (buf : Array TraceEvent) (r : ReplayState) (e : TraceEvent)
    → summary e ≢ summary (buf r.event_index)
    → (replay_check buf r e).failed ≡ true
unfolding replay_check
replay_check_mismatch buf r e h = ground arith

pub record Advanced (r r' : ReplayState) : Type 0 where
  pub active : r'.active ≡ r.active
  pub failed : r'.failed ≡ r.failed
  pub count : r'.event_count ≡ r.event_count
  pub index : r'.event_index ≡ r.event_index + 1

replay_check_match :
    (buf : Array TraceEvent) (r : ReplayState) (e : TraceEvent)
    → r.event_index < r.event_count
    → r.event_count < 2 ^ 32
    → summary e ≡ summary (buf r.event_index)
    → Advanced r (replay_check buf r e)
unfolding replay_check
replay_check_match buf r e lt bound h = ground arith

pub replay_check-active :
    (buf : Array TraceEvent) (r : ReplayState) (e : TraceEvent)
    → (replay_check buf r e).active ≡ r.active
unfolding replay_check
replay_check-active buf r e = ground arith

-- What a run of calls keeps of a kernel that replays.
abbrev pub Replaying : Kernel → Type 0
Replaying k = (k.trace.replay.active ≡ true) × (records_irqs k ≡ true)

trace_record-Replaying :
    (type pid data0 data1 : ℕ) (k : Kernel)
    → Replaying k
    → Replaying (trace_record type pid data0 data1 k)
trace_record-Replaying type pid data0 data1 k h =
    let s = trace_record-Stepped type pid data0 data1 k h.0 h.1 in
    let e = new_event type pid data0 data1 k in
    (
      rw (s.replay) (replay_check-active k.trace.replay_buffer k.trace.replay e ∙ h.0),
      rw (s.recording, s.profile) (h.1),
    )

-- One call, by the outcome of its comparison.
module _ (c : Call) (k : Kernel) (h : Replaying k) where
  abbrev pub after : Kernel
  after = trace_call c k

  pub event : TraceEvent
  event = new_event c.type c.pid c.data0 c.data1 k

  pub stepped : Stepped c.type c.pid c.data0 c.data1 k after
  stepped = trace_record-Stepped c.type c.pid c.data0 c.data1 k h.0 h.1

  pub call-Replaying : Replaying after
  call-Replaying = trace_record-Replaying c.type c.pid c.data0 c.data1 k h

  event-summary : summary event ≡ call_summary k c
  unfolding event
  event-summary = summary-new_event c.type c.pid c.data0 c.data1 k

  call-failed : k.trace.replay.failed ≡ true → after.trace.replay.failed ≡ true
  call-failed f = rw (stepped.replay) (replay_check-failed _ _ _ f)

  pub call_overrun :
      k.trace.replay.event_count ≤ k.trace.replay.event_index → after.trace.replay.failed ≡ true
  call_overrun f = rw (stepped.replay) (replay_check_overrun _ _ _ f)

  pub call_mismatch :
      call_summary k c ≢ summary (k.trace.replay_buffer k.trace.replay.event_index)
      → after.trace.replay.failed ≡ true
  unfolding event
  call_mismatch f =
      rw (stepped.replay) (replay_check_mismatch _ _ _ (λ e. f (sym event-summary ∙ e)))

  pub call_match :
      k.trace.replay.event_index < k.trace.replay.event_count
      → k.trace.replay.event_count < 2 ^ 32
      → call_summary k c ≡ summary (k.trace.replay_buffer k.trace.replay.event_index)
      → Advanced k.trace.replay after.trace.replay
  unfolding event
  call_match lt b e = rw (stepped.replay) (replay_check_match _ _ _ lt b (event-summary ∙ e))

  pub after-summary : (cs : List Call) → map (call_summary after) cs ≡ map (call_summary k) cs
  unfolding event_pid
  after-summary cs = rw (stepped.sched)

pub trace_all-failed :
    (cs : List Call) (k : Kernel)
    → Replaying k
    → k.trace.replay.failed ≡ true
    → ((trace_all cs k).trace.replay.failed ≡ true) × Replaying (trace_all cs k)
unfolding trace_all
trace_all-failed [] k h f = (f, h)
trace_all-failed (c ∷ cs) k h f =
    trace_all-failed cs (trace_call c k) (call-Replaying c k h) (call-failed c k h f)
