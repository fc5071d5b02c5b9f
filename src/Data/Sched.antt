-- ===== src/Data/Sched.antt =====
-- The task table of kernel/sched.c and include/sched.h.
-- The saved stack pointer and the stack of a task are left out: the assembly routine
-- `context_switch` alone reads them. A C string is the list of its bytes before the terminator.
use Prim.Native.Nat.{ℕ}
use mathlib.Core.Bool.{Bool}
use mathlib.Core.List.{List}
use bumbel_bee.Base.{Array}

-- enum sched_task_state
pub data TaskState : Type 0 where
  empty ready running zombie : TaskState

TaskState-discrete : Discrete TaskState
TaskState-discrete = hlevel

-- struct task
pub record Task : Type 0 where
  pub used : Bool
  pub state : TaskState
  pub pid : ℕ
  pub parent_pid : ℕ
  pub aspace_id : ℕ
  pub name : List ℕ
  pub exec_path : List ℕ
  pub entry : ℕ
  pub arg : ℕ
  pub cpu_ticks : ℕ
  pub yields : ℕ
  pub event_count : ℕ
  pub created_ticks : ℕ
  pub exited_ticks : ℕ

pub record SchedState : Type 0 where
  pub tasks : Array Task
  pub current_task : ℕ
  pub next_pid : ℕ
  pub resched_pending : Bool
