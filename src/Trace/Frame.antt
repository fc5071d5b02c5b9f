-- ===== src/Trace/Frame.antt =====
-- What `trace_record` leaves alone: all but the recorder and the event count of the current task.
use bumbel_bee.Base.{ℕ, ◌+◌, u64, ◌≡◌, refl, ◌∙◌, ◌⊎◌, Bool-cases, inl, inr, ◌==◌, arith}
use bumbel_bee.Data.{Kernel, Task, TraceState, TraceEvent}
use bumbel_bee.Trace.Steps.{replay_check-active}
use bumbel_bee.Trace.{replay_check, store_event, new_event, trace_record, skips_irq}

-- Two tasks that differ in the event count alone.
pub record SameTask (t t' : Task) : Type 0 where
  pub used : t'.used ≡ t.used
  pub state : t'.state ≡ t.state
  pub pid : t'.pid ≡ t.pid
  pub parent_pid : t'.parent_pid ≡ t.parent_pid
  pub aspace_id : t'.aspace_id ≡ t.aspace_id

pub record Framed (k k' : Kernel) : Type 0 where
  pub mm : k'.mm ≡ k.mm
  pub power : k'.power ≡ k.power
  pub keyboard : k'.keyboard ≡ k.keyboard
  pub net : k'.net ≡ k.net
  pub current : k'.sched.current_task ≡ k.sched.current_task
  pub next_pid : k'.sched.next_pid ≡ k.sched.next_pid
  pub pending : k'.sched.resched_pending ≡ k.sched.resched_pending
  pub active : k'.trace.replay.active ≡ k.trace.replay.active
  pub tasks : (i : ℕ) → SameTask (k.sched.tasks i) (k'.sched.tasks i)

Framed-refl : (k : Kernel) → Framed k k
Framed-refl k = ground arith

store_event-SameTask :
    (e : TraceEvent) (k : Kernel) (i : ℕ)
    → SameTask (k.sched.tasks i) ((store_event e k).sched.tasks i)
unfolding store_event
store_event-SameTask e k i = elim (Bool-cases (k.sched.current_task == i)) [
  | inl same ↦ ground arith
  | inr other ↦ ground arith
]

store_event-Framed : (e : TraceEvent) (k : Kernel) → Framed k (store_event e k)
unfolding store_event
store_event-Framed e k = record {
  mm = ground arith;
  power = ground arith;
  keyboard = ground arith;
  net = ground arith;
  current = ground arith;
  next_pid = ground arith;
  pending = ground arith;
  active = ground arith;
  tasks = store_event-SameTask e k;
}

Framed-trace :
    (k : Kernel) (t : TraceState) (k' : Kernel)
    → t.replay.active ≡ k.trace.replay.active
    → Framed (record k { trace = t }) k'
    → Framed k k'
Framed-trace k t k' live f = record {
  mm = f.mm;
  power = f.power;
  keyboard = f.keyboard;
  net = f.net;
  current = f.current;
  next_pid = f.next_pid;
  pending = f.pending;
  active = f.active ∙ live;
  tasks = f.tasks;
}

-- The three ways of `trace_record`: nothing, the recorder alone, or an event stored.
trace_record_ways :
    (type pid data0 data1 : ℕ) (k : Kernel)
    → (trace_record type pid data0 data1 k ≡ k)
      ⊎ ((t : TraceState) × (trace_record type pid data0 data1 k ≡ record k { trace = t })
          × (t.replay.active ≡ k.trace.replay.active))
      ⊎ ((t : TraceState) × (e : TraceEvent) × (trace_record type pid data0 data1 k
            ≡ store_event e (record k { trace = t }))
          × (t.replay.active ≡ k.trace.replay.active))
unfolding trace_record
trace_record_ways type pid data0 data1 k =
    let event = new_event type pid data0 data1 k in
    let t = record (k.trace) { next_event_id = u64 (k.trace.next_event_id + 1) } in
    let checked = record t { replay = replay_check k.trace.replay_buffer k.trace.replay event } in
    elim (Bool-cases (skips_irq k.trace type)) [
      | inl skip ↦ inl (rw skip)
      | inr keep ↦ elim (Bool-cases k.trace.replay.active) [
        | inl live ↦ inr (inl (checked, ground arith, replay_check-active _ _ _))
        | inr off ↦ elim (Bool-cases k.trace.recording) [
          | inl on ↦ inr (inr (t, event, ground arith, refl))
          | inr idle ↦ inr (inl (t, ground arith, refl))
        ]
      ]
    ]

pub trace_record-Framed :
    (type pid data0 data1 : ℕ) (k : Kernel) → Framed k (trace_record type pid data0 data1 k)
trace_record-Framed type pid data0 data1 k = elim (trace_record_ways type pid data0 data1 k) [
  | inl same ↦ rw same (Framed-refl k)
  | inr (inl (t, e, a)) ↦ rw e (ground (arith, a))
  | inr (inr (t, v, e, a)) ↦ rw e (
      Framed-trace k t (store_event v (record k { trace = t })) a
        (store_event-Framed v (record k { trace = t })))
]
