-- ===== src/Sched.antt =====
-- kernel/sched.c: the task table and the round-robin scheduler. `context_switch` (assembly) changes
-- the registers and the stack alone, so a switch is seen here by `current_task`, the task states,
-- the address space and the event that is recorded. A pid of -1 is `none`.
pub mod Next
pub mod Invariant
pub mod Fairness
pub mod Exit
pub mod Spawning
pub mod Pids
pub mod Forced
pub mod Queries
use bumbel_bee.Base.{
  ℕ, zero, suc, ◌+◌, ◌-◌, ◌*◌, ◌/◌, ◌%◌, ◌^◌, ◌<◌, Bool, true, false, not, ◌&&◌, ◌||◌, Option, none,
  some, List, [], ◌∷◌, Array, write, first_from, ◌==◌, ltb, leb, if◌then◌else◌, u32, u64, length,
  take, codes,
}
use bumbel_bee.Data.{
  Kernel, SchedState, Task, TaskState, empty, ready, running, zombie, Mm, trace_event_sched,
}
use bumbel_bee.Clock.{trace_replay_active}
use bumbel_bee.Trace.{trace_record, trace_replay_expected_next_task}
use bumbel_bee.Aspace.{aspace_retain, aspace_release, aspace_switch, aspace_fork_clone}

abbrev pub max_tasks : ℕ
max_tasks = 8

abbrev state_code : TaskState → ℕ
state_code empty = 0
state_code ready = 1
state_code running = 2
state_code zombie = 3

abbrev pub is_ready : TaskState → Bool
is_ready ready = true
is_ready _ = false

abbrev pub is_running : TaskState → Bool
is_running running = true
is_running _ = false

abbrev pub is_zombie : TaskState → Bool
is_zombie zombie = true
is_zombie _ = false

unfoldable pub task_visible : Task → Bool
task_visible t =
    t.used
    && ltb 0 t.pid
    && not (t.pid == 0xffffffff)
    && leb (state_code ready) (state_code t.state)
    && leb (state_code t.state) (state_code zombie)

-- The test of the loop in `find_next_ready`.
unfoldable pub can_run : Task → Bool
unfolding task_visible
can_run t = task_visible t && is_ready t.state

-- The loop of `find_next_ready`, with `n` rounds left, at round `i`.
unfoldable pub next_ready_from : ℕ → ℕ → SchedState → Option ℕ
unfolding can_run
next_ready_from zero i s = none
next_ready_from (suc n) i s =
    let rest = next_ready_from n (i + 1) s in
    let idx = (s.current_task + i) % max_tasks in if can_run (s.tasks idx) then some idx else rest

-- -1 is `none`.
unfoldable pub find_next_ready : SchedState → Option ℕ
find_next_ready s = next_ready_from max_tasks 1 s

abbrev pub set_task : ℕ → Task → SchedState → SchedState
set_task i task s = record s { tasks = write s.tasks i task }

-- The changes that `switch_to` makes to the table. For an index that is no slot of it the C code
-- writes past its end, which the model does not follow; the theorems are about slots.
unfoldable pub switch_tasks : ℕ → SchedState → SchedState
switch_tasks next s =
    let prev = s.current_task in
    let old = s.tasks prev in
    let s1 =
      if old.used && is_running old.state
      then set_task prev (record old { state = ready }) s
      else s in
    let s2 = set_task next (record (s1.tasks next) { state = running }) s1 in
    record s2 { current_task = next; resched_pending = false }

unfoldable pub switch_to : Option ℕ → Kernel → Kernel
switch_to none k = record k { sched = record (k.sched) { resched_pending = false } }
switch_to (some next) k =
    let prev = k.sched.current_task in
    let sched = switch_tasks next k.sched in
    let task = sched.tasks next in
    let mm = (aspace_switch task.aspace_id k.mm).1 in
    if next == prev
    then record k { sched = record (k.sched) { resched_pending = false } }
    else trace_record trace_event_sched task.pid prev next (record k { sched = sched; mm = mm })

-- `task_exit`, up to the endless `hlt` in which it stays if no other task is ready.
unfoldable pub task_exit : Kernel → Kernel
task_exit k =
    let cur = k.sched.current_task in
    let task = k.sched.tasks cur in
    let sched =
      set_task cur (record task { state = zombie; exited_ticks = task.cpu_ticks }) k.sched in
    let k' = record k { mm = (aspace_release task.aspace_id k.mm).1; sched = sched } in
    let next = find_next_ready sched in elim next [ none ↦ k' | some n ↦ switch_to (some n) k' ]

abbrev pub empty_task : Task
empty_task = record {
  used = false;
  state = empty;
  pid = 0;
  parent_pid = 0;
  aspace_id = 0;
  name = [];
  exec_path = [];
  entry = 0;
  arg = 0;
  cpu_ticks = 0;
  yields = 0;
  event_count = 0;
  created_ticks = 0;
  exited_ticks = 0;
}

-- `next_pid` keeps its value over a second call, as the file-level variable does.
unfoldable pub sched_init : ℕ → SchedState → SchedState
sched_init kernel_aspace s = record {
  tasks =
      write (λ i. empty_task) 0
        (record empty_task {
          used = true;
          state = running;
          pid = s.next_pid;
          aspace_id = kernel_aspace;
          name = codes "kernel-shell";
          exec_path = codes "/bin/sh";
        });
  current_task = 0;
  next_pid = u32 (s.next_pid + 1);
  resched_pending = s.resched_pending;
}

-- What fits into `name[24]` before the terminator.
unfoldable pub clip_name : List ℕ → List ℕ
clip_name name = if leb 24 (length name) then take 23 name else name

-- The slots that a new task may take.
unfoldable pub slot_free : Task → Bool
unfolding task_visible
slot_free t = not (task_visible t && not (is_zombie t.state))

unfoldable pub find_slot_free : Array Task → Option ℕ
find_slot_free tasks = first_from (λ i. slot_free (tasks i)) 7 1

-- The arguments of a spawn; an entry point is a number.
pub record Spawn : Type 0 where
  pub name : List ℕ
  pub entry : ℕ
  pub arg : ℕ
  pub parent_pid : ℕ

unfoldable pub new_task : Spawn → ℕ → SchedState → Task
unfolding clip_name
new_task sp aspace_id s = record empty_task {
  used = true;
  state = ready;
  pid = s.next_pid;
  parent_pid = sp.parent_pid;
  aspace_id = aspace_id;
  entry = sp.entry;
  arg = sp.arg;
  created_ticks = (s.tasks s.current_task).cpu_ticks;
  name = clip_name sp.name;
  exec_path = codes "[kernel-task]";
}

-- The state that memory management and the tasks form together.
unfoldable pub sched_spawn_with_parent_aspace : Spawn → ℕ → Kernel → Option ℕ × Kernel
sched_spawn_with_parent_aspace sp aspace_id k = elim (find_slot_free k.sched.tasks) [
  | none ↦ (none, k)
  | some i ↦
      let (done, mm) = aspace_retain aspace_id k.mm in
      let task = new_task sp aspace_id k.sched in
      let sched = record (set_task i task k.sched) { next_pid = u32 (k.sched.next_pid + 1) } in
      if done then (some task.pid, record k { mm = mm; sched = sched }) else (none, k)
]

unfoldable pub sched_spawn_with_parent : Spawn → Kernel → Option ℕ × Kernel
sched_spawn_with_parent sp k =
    let task = k.sched.tasks k.sched.current_task in
    let (aspace_id, mm) = aspace_fork_clone task.aspace_id k.mm in
    let (pid, k') = sched_spawn_with_parent_aspace sp aspace_id (record k { mm = mm }) in
    if aspace_id == 0
    then (none, record k { mm = mm })
    else (pid, record k' { mm = (aspace_release aspace_id k'.mm).1 })

unfoldable pub sched_tick : SchedState → SchedState
sched_tick s =
    let cur = s.tasks s.current_task in
    let ticks = u64 (cur.cpu_ticks + 1) in
    let s' = set_task s.current_task (record cur { cpu_ticks = ticks }) s in
    if ticks % 5 == 0 then record s' { resched_pending = true } else s'

-- The conversion of a 64-bit value to int: `none` for a negative result.
abbrev pub to_index : ℕ → Option ℕ
to_index v = if ltb (u32 v) (2 ^ 31) then some (u32 v) else none

-- The choice of `sched_yield`: recorded if a replay has a decision next, else by the table.
unfoldable pub choose_next : Kernel → Option ℕ
choose_next k =
    let found = find_next_ready k.sched in
    if trace_replay_active k.trace
    then elim (trace_replay_expected_next_task k.trace) [ none ↦ found | some v ↦ to_index v ]
    else found

unfoldable pub count_yield : SchedState → SchedState
count_yield s =
    let cur = s.tasks s.current_task in
    set_task s.current_task (record cur { yields = u64 (cur.yields + 1) }) s

unfoldable pub sched_yield : Kernel → Kernel
sched_yield k = let k' = record k { sched = count_yield k.sched } in switch_to (choose_next k') k'

unfoldable pub sched_has_ready : SchedState → Bool
sched_has_ready s = elim (find_next_ready s) [ none ↦ false | some _ ↦ true ]

-- One round of the loop in `sched_prepare_replay`.
unfoldable pub clear_zombie : Task → Task
unfolding task_visible
clear_zombie t = if task_visible t && is_zombie t.state then empty_task else t

-- Each round acts on its own slot, so the loop over slots 1 to 7 is one map.
unfoldable pub sched_prepare_replay : SchedState → SchedState
unfolding clear_zombie
sched_prepare_replay s = record s {
  tasks = λ i. if leb 1 i && ltb i max_tasks then clear_zombie (s.tasks i) else s.tasks i;
  next_pid = 2;
}
