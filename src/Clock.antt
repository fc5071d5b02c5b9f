-- ===== src/Clock.antt =====
-- What the recorder reads of the other parts: the tick counter of kernel/pit.c, which the replay
-- replaces by its own time, and the current task of kernel/sched.c.
use bumbel_bee.Base.{ℕ, ◌+◌, Bool, if◌then◌else◌, u64, write}
use bumbel_bee.Data.{Kernel, SchedState, TraceState}

unfoldable pub trace_replay_active : TraceState → Bool
trace_replay_active t = t.replay.active

unfoldable pub trace_replay_virtual_ticks : TraceState → ℕ
trace_replay_virtual_ticks t = t.replay.virtual_ticks

unfoldable pub pit_ticks : Kernel → ℕ
unfolding trace_replay_active trace_replay_virtual_ticks
pit_ticks k = if trace_replay_active k.trace then trace_replay_virtual_ticks k.trace else k.ticks

unfoldable pub pit_handle_tick : Kernel → Kernel
pit_handle_tick k = record k { ticks = u64 (k.ticks + 1) }

unfoldable pub sched_current_pid : SchedState → ℕ
sched_current_pid s = (s.tasks s.current_task).pid

unfoldable pub sched_set_current_event_count : ℕ → SchedState → SchedState
sched_set_current_event_count events s =
    let task = s.tasks s.current_task in
    record s { tasks = write s.tasks s.current_task (record task { event_count = events }) }
