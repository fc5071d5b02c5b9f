-- ===== src/Sched/Queries.antt =====
-- kernel/sched.c: what other parts ask of the task table, and the wait for the tasks to end.
use bumbel_bee.Base.{
  ℕ, Bool, true, false, Option, none, some, List, write, collect, if◌then◌else◌, codes, Array, ◌==◌,
  ◌&&◌, first_from,
}
use bumbel_bee.Data.{Kernel, SchedState, Task, TaskState, empty, ready, running, zombie}
use bumbel_bee.Aspace.{aspace_retain, aspace_release}
use bumbel_bee.Strings.{copy_name}
use bumbel_bee.Sched.{max_tasks, task_visible, set_task}

-- The slot of a visible task with this pid, as the loops of the lookups below find it.
unfoldable pub find_pid : ℕ → Array Task → Option ℕ
unfolding task_visible
find_pid pid tasks = first_from (λ i. task_visible (tasks i) && (tasks i).pid == pid) max_tasks 0

unfoldable pub sched_current_aspace : SchedState → ℕ
sched_current_aspace s = (s.tasks s.current_task).aspace_id

unfoldable pub sched_task_state : ℕ → SchedState → Option TaskState
sched_task_state pid s = elim (find_pid pid s.tasks) [
  | none ↦ none
  | some i ↦ some (s.tasks i).state
]

unfoldable pub sched_task_parent : ℕ → SchedState → Option ℕ
sched_task_parent pid s = elim (find_pid pid s.tasks) [
  | none ↦ none
  | some i ↦ some (s.tasks i).parent_pid
]

unfoldable pub sched_task_set_aspace : ℕ → ℕ → Kernel → Bool × Kernel
sched_task_set_aspace pid aspace_id k = elim (find_pid pid k.sched.tasks) [
  | none ↦ (false, k)
  | some i ↦
      let task = k.sched.tasks i in
      let (done, mm) = aspace_retain aspace_id k.mm in
      let mm' = (aspace_release task.aspace_id mm).1 in
      if task.aspace_id == aspace_id
      then (true, k)
      else (if done
          then (
            true,
            record k {
              mm = mm';
              sched = set_task i (record task { aspace_id = aspace_id }) k.sched;
            },
          )
          else (false, k))
]

-- struct sched_task_info
pub record TaskInfo : Type 0 where
  pub pid : ℕ
  pub parent_pid : ℕ
  pub state : TaskState
  pub aspace_id : ℕ
  pub name : List ℕ
  pub exec_path : List ℕ
  pub cpu_ticks : ℕ
  pub yields : ℕ
  pub event_count : ℕ
  pub created_ticks : ℕ
  pub exited_ticks : ℕ

abbrev task_info : Task → TaskInfo
task_info t = record {
  pid = t.pid;
  parent_pid = t.parent_pid;
  state = t.state;
  aspace_id = t.aspace_id;
  name = t.name;
  exec_path = t.exec_path;
  cpu_ticks = t.cpu_ticks;
  yields = t.yields;
  event_count = t.event_count;
  created_ticks = t.created_ticks;
  exited_ticks = t.exited_ticks;
}

unfoldable pub sched_snapshot : ℕ → SchedState → List TaskInfo
unfolding task_visible
sched_snapshot max_entries s = collect task_visible task_info max_tasks 0 max_entries s.tasks

abbrev pub sched_state_name : TaskState → List ℕ
sched_state_name ready = codes "ready"
sched_state_name running = codes "running"
sched_state_name zombie = codes "zombie"
sched_state_name empty = codes "empty"

-- `false` is -1. A null path is the empty one.
unfoldable pub sched_task_set_exec : ℕ → List ℕ → SchedState → Bool × SchedState
unfolding find_pid copy_name
sched_task_set_exec pid exec_path s = elim (find_pid pid s.tasks) [
  | none ↦ (false, s)
  | some i ↦ (
    true,
    record s {
      tasks = write s.tasks i (record (s.tasks i) { exec_path = copy_name 32 exec_path });
    },
  )
]
