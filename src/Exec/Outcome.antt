-- ===== src/Exec/Outcome.antt =====
-- What `builtin_exec_spawn` of kernel/builtin_exec.c comes to: the references that it takes and gives
-- back on the way cancel.
use Prim.{Unit}
use bumbel_bee.Base.{
  ℕ, ◌+◌, ◌^◌, ◌<◌, ◌≡◌, ◌≢◌, Option, none, some, List, [], ◌∷◌, if◌then◌else◌, codes,
}
use bumbel_bee.Data.{Kernel}
use bumbel_bee.Strings.{same_string}
use bumbel_bee.Clock.{sched_current_pid}
use bumbel_bee.Aspace.{find_slot, set_slot, aspace_retain}
use bumbel_bee.Aspace.Refs.{retained}
use bumbel_bee.Elf.{ElfInfo, elf_parse_image}
use bumbel_bee.Sched.{Spawn, find_slot_free}
use bumbel_bee.Exec.Placed.{CanNumber, with_new_task}
use bumbel_bee.Exec.{Program, Jobs, find_program}
use bumbel_bee.Exec.Spawn.{Addresses, alloc_job}

-- The kernel's address space is in the table, its count is far from the end of its range, and the
-- pids are in order.
pub record HasKernelSpace (k : Kernel) (i : ℕ) : Type 0 where
  pub found : find_slot k.mm.aspace.kernel_aspace_id k.mm.aspace.table ≡ some i
  pub id : k.mm.aspace.kernel_aspace_id ≢ 0
  pub room : (k.mm.aspace.table i).info.refcount + 2 < 2 ^ 32
  pub numbers : CanNumber k.sched

abbrev Parses : Program → Type 0
Parses p = (info : ElfInfo) × (elf_parse_image (some p.image) p.image_size ≡ some info)

abbrev All : List Program → Type 0
All [] = Unit
All (p ∷ ps) = Parses p × All ps

-- the programs that are started so: all but the one that `builtin_exec_run_sync` is for
abbrev startable : List ℕ → Option Program
startable path = if same_string path (codes "/bin/ring3demo") then none else find_program path

abbrev task_of : Addresses → Program → List ℕ → ℕ → Kernel → Spawn
task_of at prog name job k = record {
  name = name;
  entry = at.entry prog.entry;
  arg = job;
  parent_pid = sched_current_pid k.sched;
}

-- The kernel with the new task in slot `i`, which holds a reference to the kernel's address space.
abbrev with_task : Spawn → List ℕ → ℕ → Kernel → Kernel
with_task sp path i k =
    let id = k.mm.aspace.kernel_aspace_id in
    record k { mm = (aspace_retain id k.mm).1; sched = with_new_task sp id path i k.sched }

-- a task with a job, in the slot that was found for it
abbrev pub placed : Spawn → List ℕ → Kernel → Jobs → Option ℕ → Option ℕ × Kernel × Jobs
placed sp path k j none = (none, k, j)
placed sp path k j (some i) = (some k.sched.next_pid, with_task sp path i k, j)

abbrev started_job :
    Addresses → Program → List ℕ → Kernel → Option (List ℕ × ℕ) × Jobs → Option ℕ × Kernel × Jobs
started_job at prog path k (none, j) = (none, k, j)
started_job at prog path k (some (name, address), j) =
    placed (task_of at prog name address k) path k j (find_slot_free k.sched.tasks)

abbrev started_program :
    Addresses → List ℕ → Option (List ℕ) → Kernel → Jobs → Option Program → Option ℕ × Kernel × Jobs
started_program at path arg k j none = (none, k, j)
started_program at path arg k j (some prog) =
    started_job at prog path k (alloc_job at prog path arg j)

-- A start without the references taken on the way. Where there is no place for the task, its job
-- stays taken.
abbrev pub started : Addresses → List ℕ → Option (List ℕ) → Kernel → Jobs → Option ℕ × Kernel × Jobs
started at path arg k j = started_program at path arg k j (startable path)

module _ (k : Kernel) (i : ℕ) (h : HasKernelSpace k i) where
  abbrev kernel_id : ℕ
  kernel_id = k.mm.aspace.kernel_aspace_id

  -- the kernel while `builtin_exec_spawn` holds its reference
  abbrev held : Kernel
  held = record k { mm = set_slot i (retained (k.mm.aspace.table i)) k.mm }
